-- ===== src/Txn/Session.antt =====
-- src/executor/session.cpp: the transaction of a session, and the row writes of
-- src/executor/execute_insert.cpp and execute_delete_update.cpp as far as they touch versions and log.
pub mod Marks
pub mod Track
pub mod Atomic
pub mod Faults
pub mod Logged
pub mod Survival
pub mod Statements
use chicken_db.Base.{ℕ, Bool, true, false, Option, none, some, List, [], ◌∷◌, if◌then◌else◌}
use chicken_db.Base.Int.{ℤ}
use chicken_db.Txn.Types.{
  Rid, Transaction, append_insert, append_delete, LogRecord, default_record, LogRecordType,
}
use chicken_db.Txn.Manager
use chicken_db.Txn.Manager.{TransactionManager}
use chicken_db.Txn.Versions.{
  VersionStore, on_insert, on_delete, commit_insert, commit_delete, abort_insert, abort_delete,
  is_visible,
}
use chicken_db.Txn.Log
use chicken_db.Txn.Log.{LogManager}

-- What the sessions of a database share. No log manager is a null pointer.
pub record Db : Type 0 where
  pub manager : TransactionManager
  pub versions : VersionStore
  pub log : Option LogManager

abbrev pub log_append : LogRecord → Db → Db
log_append r db = record db { log = elim db.log [ none ↦ none | some l ↦ some (Log.append r l) ] }

abbrev pub log_flush : Db → Db
log_flush db = record db { log = elim db.log [ none ↦ none | some l ↦ some (Log.flush l) ] }

abbrev pub control_record : LogRecordType → Transaction → LogRecord
control_record type t = record default_record { type = type; txn_id = t.txn_id }

abbrev pub write_record : LogRecordType → Transaction → ℕ → Rid → LogRecord
write_record type t table rid = record default_record {
  type = type;
  txn_id = t.txn_id;
  table_id = table;
  rid_page = rid.page_no;
  rid_row = rid.row_idx;
}

-- The transaction part of one row's INSERT.
unfoldable pub insert_row : ℕ → Rid → Db × Transaction → Db × Transaction
insert_row table rid (db, t) =
    let logged = log_append (write_record LogRecordType.insert t table rid) db in
    (record logged { versions = on_insert rid t.txn_id db.versions }, append_insert rid t)

unfoldable pub mark_delete : ℕ → Rid → Db × Transaction → Db × Transaction
mark_delete table rid (db, t) =
    let logged = log_append (write_record LogRecordType.delete t table rid) db in
    (record logged { versions = on_delete rid t.txn_id db.versions }, append_delete rid t)

-- DELETE on a row that the scan meets: only a row that the transaction sees is marked.
unfoldable pub delete_row : ℕ → Rid → Db × Transaction → Db × Transaction
unfolding mark_delete
delete_row table rid (db, t) =
    if is_visible db.versions rid t then mark_delete table rid (db, t) else (db, t)

unfoldable pub commit_inserts : List Rid → ℤ → VersionStore → VersionStore
commit_inserts [] ts s = s
commit_inserts (r ∷ rs) ts s = commit_inserts rs ts (commit_insert r ts s)

unfoldable pub commit_deletes : List Rid → ℤ → VersionStore → VersionStore
commit_deletes [] ts s = s
commit_deletes (r ∷ rs) ts s = commit_deletes rs ts (commit_delete r ts s)

unfoldable pub abort_inserts : List Rid → VersionStore → VersionStore
abort_inserts [] s = s
abort_inserts (r ∷ rs) s = abort_inserts rs (abort_insert r s)

unfoldable pub abort_deletes : List Rid → VersionStore → VersionStore
abort_deletes [] s = s
abort_deletes (r ∷ rs) s = abort_deletes rs (abort_delete r s)

unfoldable pub finalize_commit : Db → Transaction → Db
finalize_commit db t =
    let rec = record (control_record LogRecordType.commit t) { commit_ts = t.commit_ts } in
    let logged = log_flush (log_append rec db) in
    record logged {
      versions =
          commit_deletes t.delete_set t.commit_ts
            (commit_inserts t.insert_set t.commit_ts db.versions);
    }

-- `current` is the transaction in progress, `explicit` whether BEGIN opened it.
pub record Session : Type 0 where
  pub db : Db
  pub current : Option Transaction
  pub explicit : Bool

unfoldable pub begin_txn : Session → Session
begin_txn s =
    let (m, t) = Manager.begin s.db.manager in
    record s {
      db = log_append (control_record LogRecordType.begin t) (record (s.db) { manager = m });
      current = some t;
    }

unfoldable pub commit_current : Db → Transaction → Db
unfolding finalize_commit
commit_current db t =
    let (m, t') = Manager.commit db.manager t in finalize_commit (record db { manager = m }) t'

unfoldable pub commit_txn : Session → Session
unfolding commit_current
commit_txn s = elim s.current [
  | none ↦ s
  | some t ↦ record { db = commit_current s.db t; current = none; explicit = false }
]

unfoldable pub abort_current : Db → Transaction → Db
abort_current db t =
    let logged = log_flush (log_append (control_record LogRecordType.abort t) db) in
    record logged {
      versions = abort_deletes t.delete_set (abort_inserts t.insert_set db.versions);
      manager = (Manager.abort db.manager t).0;
    }

unfoldable pub abort_txn : Session → Session
unfolding abort_current
abort_txn s = elim s.current [
  | none ↦ s
  | some t ↦ record { db = abort_current s.db t; current = none; explicit = false }
]

-- The row writes that a statement makes, in order.
pub data RowOp : Type 0 where
  inserts deletes : ℕ → Rid → RowOp

unfoldable pub run_op : RowOp → Db × Transaction → Db × Transaction
unfolding insert_row delete_row
run_op (inserts table rid) st = insert_row table rid st
run_op (deletes table rid) st = delete_row table rid st

unfoldable pub run_ops : List RowOp → Db × Transaction → Db × Transaction
run_ops [] st = st
run_ops (op ∷ ops) st = run_ops ops (run_op op st)

-- A statement of the executor: its row writes, and whether it throws after them.
pub data Statement : Type 0 where
  begins commits rollbacks : Statement
  executes : List RowOp → Bool → Statement

abbrev pub ensure_txn : Session → Session
ensure_txn s = elim s.current [ none ↦ begin_txn s | some _ ↦ s ]

abbrev pub run_body : List RowOp → Session → Session
run_body ops s = elim s.current [
  | none ↦ s
  | some t ↦ let (db, t') = run_ops ops (s.db, t) in record s { db = db; current = some t' }
]

-- The loop body of `Execute`. The flag says that the statement threw, which leaves the loop.
unfoldable pub execute : Statement → Session → Session × Bool
execute begins s =
    if s.explicit then (s, true) else (record (begin_txn s) { explicit = true }, false)
execute commits s = (commit_txn s, false)
execute rollbacks s = (abort_txn s, false)
execute (executes ops throws) s =
    let after = run_body ops (ensure_txn s) in
    if throws
    then (after, true)
    else if s.explicit
    then (after, false)
    else (commit_txn after, false)
