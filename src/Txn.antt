-- ===== src/Txn.antt =====
-- The transaction subsystem, src/transaction and the transaction half of src/executor/session.cpp.
pub mod Types
pub mod Manager
pub mod Versions
pub mod Log
pub mod Recovery
pub mod Session
mod Tests
