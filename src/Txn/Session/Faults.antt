-- ===== src/Txn/Session/Faults.antt =====
-- Where snapshot isolation does not hold: what version_store.cpp and session.cpp let happen.
use chicken_db.Base.{ℕ, ◌≡◌, ◌≢◌, true, false, none, some, List, arith}
use chicken_db.Base.Eq.{contains}
use chicken_db.Base.Dict.{lookup}
use chicken_db.Base.Int.{ℤ}
use chicken_db.Txn.Types.{Rid, rid_eq, rid_beq_iff, Transaction, VersionMeta}
use chicken_db.Txn.Manager
use chicken_db.Txn.Manager.Counters.{IsSane}
use chicken_db.Txn.Versions.{VersionStore, is_visible, begin_visible, on_delete}
use chicken_db.Txn.Versions.Lookup.{lookup-on_delete, lookup-on_insert}
use chicken_db.Txn.Session.{Db, RowOp, insert_row, commit_current}
use chicken_db.Txn.Session.Atomic.{
  written, sees, touched, lookup-commit_current, committed_inserts_seen,
}

-- A deletion replaces the one on record, committed or not: to everybody but its own transaction a
-- row shows again that was deleted before.
pub deletion_overwritten :
    (s : VersionStore) (rid : Rid) (id : ℤ) (r : Transaction) (m : VersionMeta)
    → lookup rid s ≡ some m
    → begin_visible m r ≡ true
    → r.txn_id ≢ id
    → is_visible (on_delete rid id s) rid r ≡ true
unfolding is_visible
deletion_overwritten s rid id r m e seen other =
    ground (arith, lookup-on_delete rid rid id s, rid_beq_iff rid rid)

-- A row with no version entry cannot be deleted: after a transaction that deletes it commits,
-- every transaction still sees it.
pub unversioned_row_undeletable :
    (db : Db) (id read_ts : ℤ) (ops : List RowOp) (r : Transaction) (j : Rid)
    → lookup j db.versions ≡ none
    → contains j (written db id read_ts ops).1.insert_set ≡ false
    → let (after, t) = written db id read_ts ops in sees r (commit_current after t) j ≡ true
unfolding is_visible
unversioned_row_undeletable db id read_ts ops r j e ins =
    let st = written db id read_ts ops in
    ground (arith, touched db id read_ts ops j, lookup-commit_current st.0 st.1 j)

-- Versions are kept by page and row alone: an uncommitted insert into any table hides the row at
-- that place of every other table from the transactions that saw it.
pub other_table_hides :
    (db : Db) (t r : Transaction) (table : ℕ) (j : Rid)
    → r.txn_id ≢ t.txn_id
    → sees r db j ≡ true
    → sees r (insert_row table j (db, t)).0 j ≡ false
unfolding is_visible insert_row
other_table_hides db t r table j other seen =
    ground (arith, lookup-on_insert j j t.txn_id db.versions, rid_beq_iff j j)

-- Between the manager's commit and the stamping of the versions, a transaction that begins does not
-- see a row of the committed transaction, and after the stamping it does: its snapshot changes.
pub commit_window :
    (db : Db) (id read_ts : ℤ) (ops : List RowOp) (j : Rid)
    → IsSane (written db id read_ts ops).0.manager
    → (written db id read_ts ops).0.manager.next_txn_id ≢ id
    → contains j (written db id read_ts ops).1.insert_set ≡ true
    → contains j (written db id read_ts ops).1.delete_set ≡ false
    → let (after, t) = written db id read_ts ops in
      let committed = (Manager.commit after.manager t).0 in
      let r = (Manager.begin committed).1 in
      (sees r (record after { manager = committed }) j ≡ false)
      × (sees r (commit_current after t) j ≡ true)
unfolding is_visible Manager.commit Manager.begin
commit_window db id read_ts ops j sane other ins del =
    let st = written db id read_ts ops in
    let r = (Manager.begin (Manager.commit st.0.manager st.1).0).1 in
    (
      ground (arith, touched db id read_ts ops j),
      committed_inserts_seen db id read_ts ops r j (ground arith) (ground arith) ins del,
    )
