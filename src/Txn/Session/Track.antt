-- ===== src/Txn/Session/Track.antt =====
-- What a transaction's row writes leave at each row, from its start to its end.
use chicken_db.Base.{
  ℕ, ◌≡◌, refl, ◌⊎◌, inl, inr, true, false, Option, none, some, List, [], ◌∷◌, arith, Bool-cases,
}
use chicken_db.Base.Eq.{contains-append, contains}
use chicken_db.Base.Dict.{lookup}
use chicken_db.Txn.Types.{
  new_transaction, Rid, rid_eq, Transaction, VersionMeta, invalid_ts, invalid_txn_id,
}
use chicken_db.Txn.Versions.{VersionStore, mark_end}
use chicken_db.Txn.Versions.Lookup.{lookup-on_delete, lookup-on_insert, map_meta}
use chicken_db.Txn.Session.{
  is_visible, deletes, inserts, delete_row, RowOp, run_ops, run_op, insert_row, mark_delete,
  if◌then◌else◌, Bool, ℤ, Db,
}

-- A row that transaction `id` created and nobody has committed.
pub record IsOwn (id : ℤ) (deleted : Bool) (m : VersionMeta) : Type 0 where
  pub creator : m.begin_txn ≡ id
  pub uncommitted : m.begin_ts ≡ invalid_ts
  pub end_uncommitted : m.end_ts ≡ invalid_ts
  pub kept : deleted ≡ false → m.end_txn ≡ invalid_txn_id
  pub deleter : (m.end_txn ≡ invalid_txn_id) ⊎ (m.end_txn ≡ id)

abbrev pub IsOwnEntry : ℤ → Bool → Option VersionMeta → Type 0
IsOwnEntry id deleted none = ⊥
IsOwnEntry id deleted (some m) = IsOwn id deleted m

-- A row `j` of a database that held `start` when transaction `id` began.
pub record IsTouched (start : VersionStore) (id : ℤ) (j : Rid) (st : Db × Transaction)
    : Type 0 where
  pub same_id : st.1.txn_id ≡ id
  pub own :
      contains j st.1.insert_set ≡ true
      → IsOwnEntry id (contains j st.1.delete_set) (lookup j st.0.versions)
  pub others :
      contains j st.1.insert_set ≡ false
      → lookup j st.0.versions ≡ (
          if contains j st.1.delete_set
          then map_meta (mark_end id invalid_ts) (lookup j start)
          else lookup j start)

insert_row-IsTouched :
    (start : VersionStore) (id : ℤ) (j rid : Rid) (table : ℕ) (db : Db) (t : Transaction)
    → IsTouched start id j (db, t)
    → IsTouched start id j (insert_row table rid (db, t))
unfolding insert_row
insert_row-IsTouched start id j rid table db t h =
    ground (
      arith,
      contains-append j t.insert_set (rid ∷ []),
      lookup-on_insert rid j t.txn_id db.versions,
    )

mark_delete-IsTouched :
    (start : VersionStore) (id : ℤ) (j rid : Rid) (table : ℕ) (db : Db) (t : Transaction)
    → IsTouched start id j (db, t)
    → IsTouched start id j (mark_delete table rid (db, t))
unfolding mark_delete
mark_delete-IsTouched start id j rid table db t h =
    ground (
      arith,
      contains-append j t.delete_set (rid ∷ []),
      lookup-on_delete rid j t.txn_id db.versions,
    )

run_op-IsTouched :
    (start : VersionStore) (id : ℤ) (j : Rid) (op : RowOp) (st : Db × Transaction)
    → IsTouched start id j st
    → IsTouched start id j (run_op op st)
unfolding run_op delete_row
run_op-IsTouched start id j (inserts table rid) (db, t) h =
    insert_row-IsTouched start id j rid table db t h
run_op-IsTouched start id j (deletes table rid) (db, t) h =
    elim (Bool-cases (is_visible db.versions rid t)) [
      | inl seen ↦ rw seen (mark_delete-IsTouched start id j rid table db t h)
      | inr hidden ↦ rw hidden h
    ]

-- Whatever a transaction writes, each row is as it was, marked by it, or its own.
pub run_ops-IsTouched :
    (start : VersionStore) (id : ℤ) (j : Rid) (ops : List RowOp) (st : Db × Transaction)
    → IsTouched start id j st
    → IsTouched start id j (run_ops ops st)
unfolding run_ops
run_ops-IsTouched start id j [] st h = h
run_ops-IsTouched start id j (op ∷ ops) st h =
    run_ops-IsTouched start id j ops (run_op op st) (run_op-IsTouched start id j op st h)

pub fresh-IsTouched :
    (id read_ts : ℤ) (j : Rid) (db : Db)
    → IsTouched db.versions id j (db, new_transaction id read_ts)
fresh-IsTouched id read_ts j db = record { same_id = refl; own = λ e. cc; others = λ e. refl }
