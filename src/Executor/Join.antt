-- ===== src/Executor/Join.antt =====
-- src/include/executor/join_util.h and src/planner/physical/physical_join_operator.cpp: equality
-- joins by nested loops, by a hash table and by an index.
pub mod Keys
pub mod Pairs
pub mod Blocks
pub mod Runs
pub mod Merge
pub mod Rows
pub mod MergeJoin
pub mod Sorted
pub mod MergeAgree
pub mod Agree
pub mod Same
mod Tests
use chicken_db.Base.{
  ℕ, ◌+◌, ◌%◌, Bool, true, false, Option, none, some, List, [], ◌∷◌, ◌++◌, map, if◌then◌else◌,
  get_or, concat,
}
use chicken_db.Base.Int.{pos}
use chicken_db.Base.Dict.{Dict}
use chicken_db.Base.Eq.{HasEq, nat_eq, list_eq}
use chicken_db.Executor.Sort.{
  ColumnType, number, double, varchar, Value, int_value, double_value, string_value, RowChunk,
  Returned, thrown, nothing, returned, Doubles, resolve,
}
use chicken_db.Index.Interface.{Index}
use chicken_db.Index.Key.{IndexKey, num, val_eq}
use chicken_db.Index.Hash.{hash_index}
use chicken_db.Txn.Types.{Rid}
use chicken_db.Base.Dict

-- `double` as the joins use it, with its `operator==` and its bytes in memory. NaN is left out.
pub record JoinDoubles : Type 1 where
  pub doubles : Doubles
  pub same_double : HasEq (doubles.Double)
  pub double_bytes : doubles.Double → List ℕ

-- Match pairs: a row on the left and a row on the right, by their numbers.
abbrev pub Matches : Type 0
Matches = List (ℕ × ℕ)

module _ (N : JoinDoubles) where
  abbrev pub DRow : Type 0
  DRow = List (N.doubles.Double)

  pub record JoinRows : Type 0 where
    pub rows : List DRow
    pub types : List ColumnType
    pub col_ids : List ℕ
    pub key_idx : List ℕ

  -- A string has no double; no row with one gets here.
  abbrev pub double_of : Value (N.doubles.Double) → N.doubles.Double
  double_of (int_value n) = N.doubles.of_int n
  double_of (double_value d) = d
  double_of (string_value s) = N.doubles.zero_double

  abbrev pub rows_of : List (RowChunk (Value (N.doubles.Double))) → List DRow
  rows_of [] = []
  rows_of (chunk ∷ chunks) = map (map double_of) chunk.rows ++ rows_of chunks

  abbrev pub has_varlen : List ColumnType → Bool
  has_varlen [] = false
  has_varlen (varchar ∷ types) = true
  has_varlen (number ∷ types) = has_varlen types
  has_varlen (double ∷ types) = has_varlen types

  -- `Materialize`: the types and keys are read off the first chunk; none where it throws.
  abbrev pub materialize : List (RowChunk (Value (N.doubles.Double))) → List ℕ → Option JoinRows
  materialize [] keys = some (record { rows = []; types = []; col_ids = []; key_idx = [] })
  materialize (chunk ∷ chunks) keys =
      let all = rows_of (chunk ∷ chunks) in
      elim (has_varlen chunk.types) [
        | true ↦ none
        | false ↦ elim (resolve N.doubles chunk.col_ids keys) [
          | none ↦ none
          | some idx ↦
              some
                (record { rows = all; types = chunk.types; col_ids = chunk.col_ids; key_idx = idx })
        ]
      ]

  abbrev pub at : DRow → ℕ → N.doubles.Double
  at row i = get_or row i N.doubles.zero_double

  -- `KeysEqual`. Where the right has fewer keys the source reads beyond them.
  abbrev pub keys_equal : DRow → List ℕ → DRow → List ℕ → Bool
  keys_equal lrow (i ∷ lkey) rrow (j ∷ rkey) =
      let rest = keys_equal lrow lkey rrow rkey in
      if HasEq.same N.same_double (at lrow i) (at rrow j) then rest else false
  keys_equal lrow [] rrow rkey = true
  keys_equal lrow (i ∷ lkey) rrow [] = false

  abbrev pub key_vals : DRow → List ℕ → List (N.doubles.Double)
  key_vals row key_idx = map (at row) key_idx

  -- `KeyOf`: the bytes of the key columns.
  abbrev pub key_of : DRow → List ℕ → List ℕ
  key_of row key_idx = concat (map N.double_bytes (key_vals row key_idx))

  -- `EmitJoined`, with the casts that the types of the columns ask for.
  abbrev pub join_value : ColumnType → N.doubles.Double → Value (N.doubles.Double)
  join_value number d = int_value (N.doubles.to_int d)
  join_value double d = double_value d
  join_value varchar d = double_value d

  abbrev pub emit_joined : List ColumnType → DRow → List (Value (N.doubles.Double))
  emit_joined (t ∷ types) (d ∷ row) = join_value t d ∷ emit_joined types row
  emit_joined _ _ = []

  abbrev pub pair_row : JoinRows → JoinRows → ℕ × ℕ → List (Value (N.doubles.Double))
  pair_row left right p =
      emit_joined (left.types ++ right.types) (get_or left.rows p.0 [] ++ get_or right.rows p.1 [])

  -- The end of every `Next`: the chunk of all matches, or nothing.
  abbrev pub output : JoinRows → JoinRows → Matches → Returned (RowChunk (Value (N.doubles.Double)))
  output left right [] = nothing
  output left right (m ∷ ms) = returned (record {
    col_ids = left.col_ids ++ right.col_ids;
    types = left.types ++ right.types;
    rows = map (pair_row left right) (m ∷ ms);
  })

  -- The inner loop of the nested loops, from row `r` on the right.
  abbrev pub scan_right : DRow → List ℕ → ℕ → List ℕ → ℕ → List DRow → Matches
  scan_right lrow lkey l rkey r [] = []
  scan_right lrow lkey l rkey r (rrow ∷ rrows) =
      let rest = scan_right lrow lkey l rkey (r + 1) rrows in
      if keys_equal lrow lkey rrow rkey then (l, r) ∷ rest else rest

  abbrev pub nested_matches : List ℕ → ℕ → List DRow → List ℕ → List DRow → Matches
  nested_matches lkey l [] rkey rrows = []
  nested_matches lkey l (lrow ∷ lrows) rkey rrows =
      scan_right lrow lkey l rkey 0 rrows ++ nested_matches lkey (l + 1) lrows rkey rrows

  -- `hash_table_[KeyOf(...)].push_back(i)`.
  abbrev pub bucket : List ℕ → Dict (List ℕ) (List ℕ) → List ℕ
  bucket key table = elim (Dict.lookup key table) [ none ↦ [] | some found ↦ found ]

  abbrev pub build_table : List ℕ → ℕ → List DRow → Dict (List ℕ) (List ℕ) → Dict (List ℕ) (List ℕ)
  build_table key_idx i [] table = table
  build_table key_idx i (row ∷ rows) table =
      let key = key_of row key_idx in
      build_table key_idx (i + 1) rows (Dict.insert key (bucket key table ++ i ∷ []) table)

  abbrev pub probe_table : Dict (List ℕ) (List ℕ) → List ℕ → ℕ → List DRow → Matches
  probe_table table key_idx p [] = []
  probe_table table key_idx p (row ∷ rows) =
      map (λ b. (b, p)) (bucket (key_of row key_idx) table)
      ++ probe_table table key_idx (p + 1) rows

  -- IndexKey of a row's key values.
  abbrev pub index_key : DRow → List ℕ → IndexKey (N.doubles.Double)
  index_key row key_idx = map num (key_vals row key_idx)

  abbrev pub key_eq : HasEq (IndexKey (N.doubles.Double))
  key_eq = list_eq ⦃eq = val_eq ⦃double = N.same_double⦄⦄

  abbrev pub join_index : Index (IndexKey (N.doubles.Double)) ⦃eq = key_eq⦄
  join_index = hash_index (IndexKey (N.doubles.Double)) ⦃eq = key_eq⦄

  abbrev pub build_index : List ℕ → ℕ → List DRow → join_index.State → join_index.State
  build_index key_idx l [] s = s
  build_index key_idx l (row ∷ rows) s = build_index key_idx (l + 1) rows (
      join_index.insert (index_key row key_idx)
        (record { page_no = pos 0; row_idx = l % 4294967296 }) s)

  abbrev pub probe_index : join_index.State → List ℕ → ℕ → List DRow → Matches
  probe_index s key_idx r [] = []
  probe_index s key_idx r (row ∷ rows) =
      map (λ rid. (Rid.row_idx rid, r)) (join_index.find s (index_key row key_idx))
      ++ probe_index s key_idx (r + 1) rows

  -- Both children materialized, and the matches of one of the joins.
  abbrev pub join_with :
      (JoinRows → JoinRows → Matches)
      → List (RowChunk (Value (N.doubles.Double)))
      → List ℕ
      → List (RowChunk (Value (N.doubles.Double)))
      → List ℕ
      → Returned (RowChunk (Value (N.doubles.Double)))
  join_with matches lchunks lkeys rchunks rkeys = elim (materialize lchunks lkeys) [
    | none ↦ thrown
    | some left ↦ elim (materialize rchunks rkeys) [
      | none ↦ thrown
      | some right ↦ output left right (matches left right)
    ]
  ]

  abbrev pub by_loops : JoinRows → JoinRows → Matches
  by_loops left right = nested_matches left.key_idx 0 left.rows right.key_idx right.rows

  abbrev pub by_hash : JoinRows → JoinRows → Matches
  by_hash left right =
      probe_table (build_table left.key_idx 0 left.rows []) right.key_idx 0 right.rows

  abbrev pub by_index : JoinRows → JoinRows → Matches
  by_index left right =
      probe_index (build_index left.key_idx 0 left.rows join_index.empty) right.key_idx 0 right.rows

  -- The first `Next` of PhysicalNestedLoopJoin, PhysicalHashJoin and PhysicalIndexNLJoin. The first
  -- materializes its right child first, which shows in no result.
  unfoldable pub nested_loop_join :
      List (RowChunk (Value (N.doubles.Double)))
      → List ℕ
      → List (RowChunk (Value (N.doubles.Double)))
      → List ℕ
      → Returned (RowChunk (Value (N.doubles.Double)))
  nested_loop_join lchunks lkeys rchunks rkeys = join_with by_loops lchunks lkeys rchunks rkeys

  unfoldable pub hash_join :
      List (RowChunk (Value (N.doubles.Double)))
      → List ℕ
      → List (RowChunk (Value (N.doubles.Double)))
      → List ℕ
      → Returned (RowChunk (Value (N.doubles.Double)))
  hash_join lchunks lkeys rchunks rkeys = join_with by_hash lchunks lkeys rchunks rkeys

  unfoldable pub index_nl_join :
      List (RowChunk (Value (N.doubles.Double)))
      → List ℕ
      → List (RowChunk (Value (N.doubles.Double)))
      → List ℕ
      → Returned (RowChunk (Value (N.doubles.Double)))
  index_nl_join lchunks lkeys rchunks rkeys = join_with by_index lchunks lkeys rchunks rkeys
