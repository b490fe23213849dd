-- ===== src/Txn/Tests.antt =====
-- The theorems on transactions at a small database: one committed row, a transaction that deletes it
-- and inserts another.
use chicken_db.Base.{◌≡◌, refl, true, false, none, some, List, [], ◌∷◌, arith, if◌then◌else◌, All}
use chicken_db.Txn.Recovery.Faults.{recover-IsBelow, IsBelow, uncommitted_row_revived}
use chicken_db.Txn.Log.{open_log, LogManager, read_all}
use chicken_db.Txn.Recovery.Replay.{with_writes, recover-entry, commit_of, last_write}
use chicken_db.Txn.Session.Survival.{committed_survives}
use chicken_db.Txn.Session.{
  run_op, Db, RowOp, inserts, deletes, run_ops, commit_current, abort_current, begin_txn,
  insert_row,
}
use chicken_db.Base.Eq.{contains, nat_eq}
use chicken_db.Base.Dict.{lookup, insert}
use chicken_db.Base.Int.{pos, int_eq}
use chicken_db.Txn.Types.{
  Rid, rid_eq, rid_beq, Transaction, new_transaction, VersionMeta, default_meta, LogRecord,
  default_record, LogRecordType,
}
use chicken_db.Txn.Manager
use chicken_db.Txn.Manager.{TransactionManager}
use chicken_db.Txn.Versions.{VersionStore, is_visible, on_insert, on_delete}
use chicken_db.Txn.Recovery.{recover}
use chicken_db.Txn.Session.Atomic.{
  written, sees, running_isolated, committed_isolated, committed_inserts_seen,
  committed_deletes_seen, aborted_invisible,
}
use chicken_db.Txn.Session.Statements.{idle, Revealed, failed_statement_committed}
use chicken_db.Txn.Session.Faults.{
  deletion_overwritten, unversioned_row_undeletable, other_table_hides, commit_window,
}

abbrev old_row : Rid
old_row = record { page_no = pos 0; row_idx = 0 }

abbrev new_row : Rid
new_row = record { page_no = pos 1; row_idx = 0 }

abbrev old_meta : VersionMeta
old_meta = record default_meta { begin_txn = pos 1; begin_ts = pos 1 }

abbrev manager : TransactionManager
manager = record {
  next_txn_id = pos 3;
  next_commit_ts = pos 2;
  last_commit_ts = pos 1;
  active_txns = (pos 2, pos 2) ∷ [];
}

abbrev db : Db
db = record { manager = manager; versions = (old_row, old_meta) ∷ []; log = none }

abbrev ops : List RowOp
ops = inserts 7 new_row ∷ deletes 7 old_row ∷ []

-- A reader with a snapshot from before the commit, and one from after it.
abbrev early : Transaction
early = new_transaction (pos 9) (pos 1)

abbrev late : Transaction
late = new_transaction (pos 9) (pos 2)

running_isolated_example : sees early (written db (pos 2) (pos 1) ops).0 old_row ≡ true
unfolding run_ops run_op lookup rid_beq is_visible on_insert on_delete insert
running_isolated_example =
    running_isolated db (pos 2) (pos 1) ops early old_row (λ e. ground (arith, e)) (refl, refl)

committed_isolated_example :
    sees early
      (commit_current (written db (pos 2) (pos 1) ops).0 (written db (pos 2) (pos 1) ops).1)
      old_row
    ≡ true
unfolding run_ops run_op lookup rid_beq is_visible on_insert on_delete insert
committed_isolated_example =
    committed_isolated db (pos 2) (pos 1) ops early old_row (λ e. ground (arith, e)) (omega arith)
      (refl, refl)

committed_inserts_seen_example :
    sees late
      (commit_current (written db (pos 2) (pos 1) ops).0 (written db (pos 2) (pos 1) ops).1)
      new_row
    ≡ true
unfolding run_ops run_op lookup rid_beq is_visible on_insert on_delete insert
committed_inserts_seen_example =
    committed_inserts_seen db (pos 2) (pos 1) ops late new_row (omega arith) (omega arith) refl refl

committed_deletes_seen_example :
    sees late
      (commit_current (written db (pos 2) (pos 1) ops).0 (written db (pos 2) (pos 1) ops).1)
      old_row
    ≡ false
unfolding run_ops run_op lookup rid_beq is_visible on_insert on_delete insert
committed_deletes_seen_example =
    committed_deletes_seen db (pos 2) (pos 1) ops late old_row old_meta (λ e. ground (arith, e))
      (omega arith) (omega arith) refl refl

aborted_invisible_example :
    sees late
      (abort_current (written db (pos 2) (pos 1) ops).0 (written db (pos 2) (pos 1) ops).1)
      old_row
    ≡ true
unfolding run_ops run_op lookup rid_beq is_visible on_insert on_delete insert
aborted_invisible_example =
    aborted_invisible db (pos 2) (pos 1) ops late old_row (λ e. ground (arith, e)) (refl, refl)

-- The row is deleted and that is committed; a second deletion brings it back.
abbrev deleted : VersionStore
deleted = (old_row, record old_meta { end_txn = pos 2; end_ts = pos 2 }) ∷ []

deletion_overwritten_example : is_visible (on_delete old_row (pos 4) deleted) old_row late ≡ true
unfolding lookup rid_beq
deletion_overwritten_example =
    deletion_overwritten deleted old_row (pos 4) late _ refl refl (λ e. ground (arith, e))

unversioned_row_undeletable_example :
    sees late
      (commit_current
        (written (record db { versions = [] }) (pos 2) (pos 1) (deletes 7 old_row ∷ [])).0
        (written (record db { versions = [] }) (pos 2) (pos 1) (deletes 7 old_row ∷ [])).1)
      old_row
    ≡ true
unfolding run_ops run_op lookup rid_beq is_visible
unversioned_row_undeletable_example =
    unversioned_row_undeletable (record db { versions = [] }) (pos 2) (pos 1)
      (deletes 7 old_row ∷ []) late old_row refl refl

other_table_hides_example :
    sees late (insert_row 8 old_row (db, new_transaction (pos 2) (pos 1))).0 old_row ≡ false
unfolding lookup rid_beq is_visible
other_table_hides_example =
    other_table_hides db (new_transaction (pos 2) (pos 1)) late 8 old_row (λ e. ground (arith, e))
      refl

commit_window_example :
    (let st = written db (pos 2) (pos 1) ops in
      let committed = (Manager.commit st.0.manager st.1).0 in
      (sees (Manager.begin committed).1 (record (st.0) { manager = committed }) new_row ≡ false)
      × (sees (Manager.begin committed).1 (commit_current st.0 st.1) new_row ≡ true))
unfolding run_ops run_op lookup rid_beq is_visible on_insert on_delete insert
commit_window_example =
    commit_window db (pos 2) (pos 1) ops new_row
      (record { ids = omega arith; stamps = omega arith; consecutive = refl })
      (λ e. ground (arith, e)) refl refl

-- The statement throws after its writes, and the next one writes nothing.
abbrev reader : Transaction
reader = new_transaction (pos 9) (pos 5)

failed_statement_committed_example : Revealed ops [] (idle db) reader new_row
unfolding begin_txn run_ops run_op lookup rid_beq is_visible on_insert on_delete insert
failed_statement_committed_example =
    failed_statement_committed ops [] (idle db) reader new_row refl refl (λ e. ground (arith, e))
      (omega arith) (omega arith) refl refl

-- Transaction 1 inserted and committed the old row, transaction 2 inserted the new one and did not.
abbrev log : LogManager
log = record { next_lsn = 3; file = file; durable = file }
  where
    file : List LogRecord
    file =
        record default_record {
          lsn = pos 0;
          type = LogRecordType.insert;
          txn_id = pos 1;
          rid_page = pos 0;
        }
        ∷ record default_record {
          lsn = pos 1;
          type = LogRecordType.insert;
          txn_id = pos 2;
          rid_page = pos 1;
        }
        ∷ record default_record {
          lsn = pos 2;
          type = LogRecordType.commit;
          txn_id = pos 1;
          commit_ts = pos 1;
        }
        ∷ []

recover-entry_example : lookup old_row (recover log [] manager).versions ≡ some old_meta
unfolding last_write commit_of read_all rid_beq
recover-entry_example = recover-entry log manager old_row

uncommitted_row_revived_example : is_visible (recover log [] manager).versions new_row early ≡ true
unfolding commit_of read_all
uncommitted_row_revived_example =
    uncommitted_row_revived log manager new_row early
      ((λ w e. ground (arith, e)), ((λ w e. refl), ((λ w e. ground (arith, w)), tt)))

abbrev logged_db : Db
logged_db = record db { log = some (record { next_lsn = 0; file = []; durable = [] }) }

committed_survives_example :
    let st = written logged_db (pos 2) (pos 1) ops in
    (l : LogManager) × ((commit_current st.0 st.1).log ≡ some l)
    × (lookup new_row (recover (open_log l.durable) [] manager).versions
        ≡ with_writes
            (if contains new_row st.1.insert_set
              then some (pos 2, st.0.manager.next_commit_ts)
              else none)
            (if contains new_row st.1.delete_set
              then some (pos 2, st.0.manager.next_commit_ts)
              else none)
            none)
committed_survives_example =
    committed_survives logged_db (pos 2) (pos 1) ops new_row _ manager refl refl tt

recover-IsBelow_example : All (IsBelow (recover log [] manager).manager) (read_all log)
recover-IsBelow_example = recover-IsBelow log manager
