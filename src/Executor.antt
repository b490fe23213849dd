-- ===== src/Executor.antt =====
-- src/executor: the operators and their helpers.
pub mod Like
pub mod Chunk
pub mod Eval
pub mod Limit
pub mod VarColumn
pub mod VarcharCodec
pub mod RowKey
pub mod Distinct
pub mod Sort
pub mod Filter
pub mod Join
mod Tests
