-- ===== src/Txn/Session/Logged.antt =====
-- What the row writes of a running transaction put into the log (executor/execute_insert.cpp,
-- executor/execute_delete_update.cpp).
use chicken_db.Base.{
  ℕ, ◌≡◌, refl, sym, inl, inr, Bool, Option, none, some, List, [], ◌∷◌, ◌++◌, arith, if◌then◌else◌,
  Bool-cases, length,
}
use chicken_db.Txn.Versions.{is_visible}
use chicken_db.Txn.Log.{append}
use chicken_db.Txn.Session.{
  Db, RowOp, inserts, deletes, write_record, insert_row, mark_delete, delete_row, run_op, run_ops,
  LogManager, Transaction,
}
use chicken_db.Txn.Log.Durable.{IsDense, file-append, append-IsDense, stamped}
use chicken_db.Base.Eq.{contains, contains-append, nat_eq}
use chicken_db.Base.Int.{ℤ, int_eq}
use chicken_db.Txn.Types.{delete, insert, Rid, rid_eq, LogRecord, LogRecordType}
use chicken_db.Txn.Recovery.Replay.{is_delete, is_insert, commit_of, last_write, later, write_at}

pub later-none {ℓ} : {A : Type ℓ} (o : Option A) → later none o ≡ o
later-none none = refl
later-none (some a) = refl

later_assoc {ℓ} : {A : Type ℓ} (a b c : Option A) → later (later a b) c ≡ later a (later b c)
later_assoc a b none = refl
later_assoc a b (some c) = refl

pub last_write-append :
    (kind : LogRecordType → Bool) (stamp : ℤ → Option ℤ) (j : Rid) (xs : List LogRecord)
    (r : LogRecord)
    → last_write kind stamp j (xs ++ r ∷ [])
      ≡ later (last_write kind stamp j xs) (write_at kind stamp j r)
unfolding last_write
last_write-append kind stamp j [] r = sym (later-none (write_at kind stamp j r))
last_write-append kind stamp j (x ∷ xs) r = rw (last_write-append kind stamp j xs r) (
    sym (
      later_assoc (write_at kind stamp j x) (last_write kind stamp j xs) (write_at kind stamp j r)))

pub commit_of-append :
    (id : ℤ) (xs : List LogRecord) (r : LogRecord)
    → commit_of id (xs ++ r ∷ []) ≡ later (commit_of id xs) (commit_of id (r ∷ []))
unfolding commit_of
commit_of-append id [] r = ground arith
commit_of-append id (x ∷ xs) r = ground (arith, commit_of-append id xs r)

-- What the log holds of a row, after writes of transaction `id` to a log that held `start`, for
-- every assignment of timestamps that gives `id` the timestamp `cts`.
pub record IsLogged (id cts : ℤ) (j : Rid) (start : List LogRecord) (st : Db × Transaction)
    : Type 0 where
  pub same_id : st.1.txn_id ≡ id
  pub log : LogManager
  pub present : st.0.log ≡ some log
  pub dense : IsDense log
  pub inserted :
      (stamp : ℤ → Option ℤ)
      → stamp id ≡ some cts
      → last_write is_insert stamp j log.file
        ≡ later
            (last_write is_insert stamp j start)
            (if contains j st.1.insert_set then some (id, cts) else none)
  pub deleted :
      (stamp : ℤ → Option ℤ)
      → stamp id ≡ some cts
      → last_write is_delete stamp j log.file
        ≡ later
            (last_write is_delete stamp j start)
            (if contains j st.1.delete_set then some (id, cts) else none)

module _ (id cts : ℤ) (j : Rid) (start : List LogRecord) where
  insert_row-IsLogged :
      (rid : Rid) (table : ℕ) (db : Db) (t : Transaction)
      → IsLogged id cts j start (db, t)
      → IsLogged id cts j start (insert_row table rid (db, t))
  unfolding insert_row
  insert_row-IsLogged rid table db t h =
      let r = stamped (length h.log.file) (write_record insert t table rid) in
      let e = file-append (write_record insert t table rid) h.log h.dense in
      record {
        same_id = h.same_id;
        log = append (write_record insert t table rid) h.log;
        present = ground (arith, h.present);
        dense = append-IsDense (write_record insert t table rid) h.log h.dense;
        inserted = λ stamp known.
            rw (e, last_write-append is_insert stamp j h.log.file r)
              (ground (
                arith,
                h.inserted stamp known,
                known,
                h.same_id,
                contains-append j t.insert_set (rid ∷ []),
              ));
        deleted = λ stamp known.
            rw (e, last_write-append is_delete stamp j h.log.file r) (h.deleted stamp known);
      }

  mark_delete-IsLogged :
      (rid : Rid) (table : ℕ) (db : Db) (t : Transaction)
      → IsLogged id cts j start (db, t)
      → IsLogged id cts j start (mark_delete table rid (db, t))
  unfolding mark_delete
  mark_delete-IsLogged rid table db t h =
      let r = stamped (length h.log.file) (write_record delete t table rid) in
      let e = file-append (write_record delete t table rid) h.log h.dense in
      record {
        same_id = h.same_id;
        log = append (write_record delete t table rid) h.log;
        present = ground (arith, h.present);
        dense = append-IsDense (write_record delete t table rid) h.log h.dense;
        inserted = λ stamp known.
            rw (e, last_write-append is_insert stamp j h.log.file r) (h.inserted stamp known);
        deleted = λ stamp known.
            rw (e, last_write-append is_delete stamp j h.log.file r)
              (ground (
                arith,
                h.deleted stamp known,
                known,
                h.same_id,
                contains-append j t.delete_set (rid ∷ []),
              ));
      }

  run_op-IsLogged :
      (op : RowOp) (st : Db × Transaction)
      → IsLogged id cts j start st
      → IsLogged id cts j start (run_op op st)
  unfolding run_op delete_row
  run_op-IsLogged (inserts table rid) (db, t) h = insert_row-IsLogged rid table db t h
  run_op-IsLogged (deletes table rid) (db, t) h = elim (Bool-cases (is_visible db.versions rid t)) [
    | inl seen ↦ rw seen (mark_delete-IsLogged rid table db t h)
    | inr hidden ↦ rw hidden h
  ]

  pub run_ops-IsLogged :
      (ops : List RowOp) (st : Db × Transaction)
      → IsLogged id cts j start st
      → IsLogged id cts j start (run_ops ops st)
  unfolding run_ops
  run_ops-IsLogged [] st h = h
  run_ops-IsLogged (op ∷ ops) st h = run_ops-IsLogged ops (run_op op st) (run_op-IsLogged op st h)
