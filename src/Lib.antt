-- ===== src/Lib.antt =====
-- A verification library for chickenDB, an embedded analytical SQL database in C++17.
--
-- The program. A session (src/executor/session.cpp) parses a statement, binds and plans it, and runs
-- it by operators that pull chunks of rows; the storage below is a buffer pool of pages and, beside
-- it, the transaction subsystem: a manager that hands out ids and timestamps, a version store outside
-- the pages, a write-ahead log, and recovery, which replays the log into the version store.
--
-- Base. Shared notation, tests, lists, signed integers, equality and strict order as interfaces, and
-- dictionaries: std::unordered_map as an association list, std::map as a sorted one.
--
-- Txn. src/transaction and the transaction half of the executor. Txn/Types: Rid, Transaction,
-- VersionMeta, LogRecord. Txn/Manager: TransactionManager (Begin, Commit, Abort, Reset). Txn/Versions:
-- VersionStore (OnInsert ... IsVisible). Txn/Log: LogManager (Append, Flush, ReadAll) over a file of
-- record slots. Txn/Recovery: Recover in its two passes. Txn/Session: BeginTxn, CommitTxn, AbortTxn,
-- the row writes of ExecuteInsert and ExecuteDelete as far as they touch versions, log and write
-- sets, and the statement loop of Execute, where the parser, binder, planner and operators are
-- reduced to the list of row writes that a statement makes and whether it throws. Calls run one at a
-- time, each under its mutex in the program; ids, timestamps and LSNs are unbounded.
--
-- Buffer. src/buffer. Buffer/Clock: ClockSweepLRU (Pin, Evict), whose passes are bounded by
-- LRU_MAX_PIN, the limit of every count. Buffer/Frames: the frames, the page table and the files of
-- the tables as lists of pages (src/disk/posix_disk_manager.cpp). Buffer/Pool: the calls of
-- BufferManager (src/buffer/buffer_manager.cpp); the search for a victim runs on fuel, and one round
-- is enough where no frame is pinned. Files always open, pages are never torn, and clients change a
-- page only through the calls: their writes through page pointers are not modelled.
--
-- Buffer/Bytes: little-endian numbers and memcpy. Buffer/Codec: PageCodec
-- (src/include/buffer/page_codec.h) over zstd, which is a parameter. Buffer/Page: TableDataPage
-- (src/buffer/table_data_page.cpp) on the bytes of one page; Buffer/Page/Build is BuildFromColumns,
-- where fixed-width integers are residues.
--
-- Binder. The expressions and values of src/include/binder/expression and src/include/common. Doubles
-- and floats are a parameter, Binder/Numbers, with the operators that the source applies to them.
--
-- Executor. Executor/Like: LikeMatcher (src/include/executor/like_matcher.h) by its cursors; its fuel
-- bounds the turns of the loop. Executor/Chunk and Executor/Eval: the vectors of a chunk as values by
-- row (src/include/executor/chunk.h) and ExpressionEvaluator
-- (src/include/executor/expression_evaluator.h), where a missing result stands for an exception.
-- Executor/VarColumn: a Vector of strings as offsets and pool, the offsets as int32_t below 2 ^ 31.
-- Executor/Limit: PhysicalLimit (src/planner/physical/physical_limit_operator.cpp) over chunks as
-- lists of rows. Executor/Distinct: PhysicalDistinct
-- (src/planner/physical/physical_distinct_operator.cpp) likewise, over any key of a row.
-- Executor/RowKey: RowKey (src/include/executor/chunk_util.h) on the bytes of the columns. For LIMIT
-- and DISTINCT the fuel counts the calls of Next that a caller makes.
--
-- Executor/Sort: the sort operators (src/planner/physical/physical_sort_operator.cpp); each does its
-- work in the first call of Next. A field of a chunk is what is stored and its validity bit, which
-- CellOf does not read and EmitRows does not copy. std::sort and std::partial_sort are a parameter,
-- Executor/Sort/StdSort, by their postconditions. Executor/Sort/Precedes: the order that ORDER BY asks
-- for, apart from the comparator. Executor/Sort/Columns: that the places it sorts by are those of the
-- columns named. Executor/Sort/External: the sort by runs; its merge ends with the rows, of which the
-- fuel has one more.
--
-- Executor/Filter: PhysicalFilter (src/planner/physical/physical_filter_operator.cpp) over chunks as
-- lists of rows, with the predicate of a row as an argument, which is EvalPredicate in
-- Optimizer/Plans/Filtered; the fuel counts the calls of Next here as well.
--
-- Executor/Join: the joins (src/planner/physical/physical_join_operator.cpp) and JoinUtil
-- (src/include/executor/join_util.h); each does its work in the first call of Next. Doubles are a
-- parameter with their operators and their bytes, without NaN. Executor/Join/Pairs and
-- Executor/Join/Blocks: lists of matching pairs; the merge runs on fuel, the rows of both sides, of
-- which each turn takes one. Executor/Join/MergeJoin: PhysicalMergeJoin, with std::sort as above.
--
-- Executor/VarcharCodec: a column of strings as bytes (src/include/executor/varchar_codec.h).
--
-- Optimizer. Optimizer/Folding: FoldExpr (src/optimizer/rule/constant_folding.cpp).
-- Optimizer/Conjuncts and Optimizer/Pushdown: SplitAnd, CombineAnd and the walk over logical plans
-- (src/optimizer/rule/predicate_pushdown.cpp). Optimizer/Pushdown/Rows says what rows a plan has: its
-- conditions are judged by the evaluator of Executor/Eval, all else that runs a plan is a parameter.
-- Optimizer/Plans: the walk of ConstantFolding and both rules together (src/optimizer/optimizer.cpp).
--
-- Index. Index/Key: IndexKey (src/include/index/index_key.h) over any total order of doubles.
-- Index/Interface: the operations and laws of an index (src/include/index/index.h). Index/Buckets,
-- Index/Hash and Index/Bitmap: HashIndex and BitmapIndex (src/index), which fill it; the hash function
-- decides no answer and is left out. Index/Bag: what they stand for, the number of copies of each key
-- and rid. Index/BPlusTree: BPlusTreeIndex (src/index/b_plus_tree.cpp), which
-- fills it as well, as a tree whose nodes own their children; parent_ and next_ are read off the tree.
--
-- Not modelled. The parser, the binder, the planner, the other physical operators, the B+ tree on
-- disk, the heap of a table, the file cache, the catalog and the command line are not part of this
-- library; neither are the libraries below third_party.
pub mod Base
pub mod Binder
pub mod Buffer
pub mod Executor
pub mod Index
pub mod Optimizer
pub mod Txn
