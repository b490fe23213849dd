-- ===== src/Txn/Session/Atomic.antt =====
-- A transaction as a whole: what others see of it while it runs, when it commits and when it is
-- rolled back.
use chicken_db.Base.{
  ◌≡◌, refl, ◌≢◌, inl, inr, Bool, true, false, Option, none, some, List, arith, if◌then◌else◌,
  Bool-cases,
}
use chicken_db.Txn.Manager
use chicken_db.Txn.Versions.{meta_visible, mark_end, set_begin_ts, set_end_ts, is_visible}
use chicken_db.Txn.Versions.Lookup.{map_meta, unmark}
use chicken_db.Txn.Session.{
  commit_inserts, abort_inserts, finalize_commit, abort_current, commit_current, Db, RowOp, run_ops,
}
use chicken_db.Txn.Types.{
  default_meta, Rid, rid_eq, Transaction, VersionMeta, invalid_ts, invalid_txn_id, new_transaction,
}
use chicken_db.Txn.Session.Marks.{
  lookup-commit_inserts, lookup-commit_deletes, lookup-abort_inserts, lookup-abort_deletes,
}
use chicken_db.Base.Eq.{contains}
use chicken_db.Base.Dict.{lookup}
use chicken_db.Base.Int.{◌≤ℤ◌, ◌<ℤ◌, pos, ℤ}
use chicken_db.Txn.Session.Track.{IsOwnEntry, IsTouched, run_ops-IsTouched, fresh-IsTouched}

-- No deletion is on record: the condition under which a later one overwrites nothing.
abbrev pub IsUnmarked : Option VersionMeta → Type 0
IsUnmarked none = Unit
IsUnmarked (some m) = (m.end_txn ≡ invalid_txn_id) × (m.end_ts ≡ invalid_ts)

-- The writes `ops` of a transaction that starts now with id `id`.
abbrev pub written : Db → ℤ → ℤ → List RowOp → Db × Transaction
written db id read_ts ops = run_ops ops (db, new_transaction id read_ts)

-- Another transaction that sees the row by the versions of `db`.
abbrev pub sees : Transaction → Db → Rid → Bool
sees r db j = is_visible db.versions j r

-- While a transaction runs, what it writes changes no row for any other: a row that it did not
-- insert is as visible as before, where no deletion was on record, and a row that it inserted is
-- not visible.
pub running_isolated :
    (db : Db) (id read_ts : ℤ) (ops : List RowOp) (r : Transaction) (j : Rid)
    → r.txn_id ≢ id
    → IsUnmarked (lookup j db.versions)
    → let after = written db id read_ts ops in
      sees r after.0 j ≡ (if contains j after.1.insert_set then false else sees r db j)
unfolding is_visible
running_isolated db id read_ts ops r j other clean = ground (
  arith,
  run_ops-IsTouched db.versions id j ops (db, new_transaction id read_ts)
      (fresh-IsTouched id read_ts j db),
)

-- The second half of that for a row whatever was on record at it.
pub inserted_hidden :
    (db : Db) (id read_ts : ℤ) (ops : List RowOp) (r : Transaction) (j : Rid)
    → r.txn_id ≢ id
    → contains j (written db id read_ts ops).1.insert_set ≡ true
    → sees r (written db id read_ts ops).0 j ≡ false
unfolding is_visible
inserted_hidden db id read_ts ops r j other ins = ground (
  arith,
  run_ops-IsTouched db.versions id j ops (db, new_transaction id read_ts)
      (fresh-IsTouched id read_ts j db),
)

-- What `written` leaves at each row, for the proofs below.
pub touched :
    (db : Db) (id read_ts : ℤ) (ops : List RowOp) (j : Rid)
    → IsTouched db.versions id j (written db id read_ts ops)
touched db id read_ts ops j =
    run_ops-IsTouched db.versions id j ops (db, new_transaction id read_ts)
      (fresh-IsTouched id read_ts j db)

pub lookup-commit_current :
    (db : Db) (t : Transaction) (j : Rid)
    → lookup j (commit_current db t).versions ≡ (
        let cts = db.manager.next_commit_ts in
        let begun =
          (if contains j t.insert_set
            then map_meta (set_begin_ts cts) (lookup j db.versions)
            else lookup j db.versions) in
        if contains j t.delete_set then map_meta (set_end_ts cts) begun else begun)
unfolding commit_current finalize_commit Manager.commit
lookup-commit_current db t j =
    let cts = db.manager.next_commit_ts in
    ground (
      arith,
      lookup-commit_deletes j t.delete_set cts (commit_inserts t.insert_set cts db.versions),
      lookup-commit_inserts j t.insert_set cts db.versions,
    )

lookup-abort_current :
    (db : Db) (t : Transaction) (j : Rid)
    → lookup j (abort_current db t).versions ≡ (
        let begun = (if contains j t.insert_set then some default_meta else lookup j db.versions) in
        if contains j t.delete_set then map_meta unmark begun else begun)
unfolding abort_current
lookup-abort_current db t j = ground (
  arith,
  lookup-abort_deletes j t.delete_set (abort_inserts t.insert_set db.versions),
  lookup-abort_inserts j t.insert_set db.versions,
)

-- The entry of a row, as a reader takes it.
abbrev entry_visible : Option VersionMeta → Transaction → Bool
entry_visible none r = true
entry_visible (some m) r = meta_visible m r

sees_entry :
    (r : Transaction) (db : Db) (j : Rid) → sees r db j ≡ entry_visible (lookup j db.versions) r
unfolding is_visible
sees_entry r db j = ground arith

abbrev ended : Bool → ℤ → Option VersionMeta → Option VersionMeta
ended deleted cts o = if deleted then map_meta (set_end_ts cts) o else o

abbrev marked : Bool → ℤ → Option VersionMeta → Option VersionMeta
marked deleted id o = if deleted then map_meta (mark_end id invalid_ts) o else o

own_entry_old :
    (id cts : ℤ) (d : Bool) (r : Transaction) (o : Option VersionMeta)
    → r.txn_id ≢ id
    → r.read_ts <ℤ cts
    → IsOwnEntry id d o
    → entry_visible (ended d cts (map_meta (set_begin_ts cts) o)) r ≡ false
own_entry_old id cts d r (some m) other old own = ground arith
own_entry_old id cts d r none other old own = absurd own

other_entry_old :
    (id cts : ℤ) (d : Bool) (r : Transaction) (o : Option VersionMeta)
    → r.txn_id ≢ id
    → r.read_ts <ℤ cts
    → IsUnmarked o
    → entry_visible (ended d cts (marked d id o)) r ≡ entry_visible o r
other_entry_old id cts d r (some m) other old clean = ground arith
other_entry_old id cts true r none other old clean = refl
other_entry_old id cts false r none other old clean = refl

-- After the commit, a snapshot that another transaction took before it still sees no difference at
-- a row with no deletion on record when the transaction began: a row that it did not insert is as
-- visible as before it began, and one that it inserted is not visible.
pub committed_isolated :
    (db : Db) (id read_ts : ℤ) (ops : List RowOp) (r : Transaction) (j : Rid)
    → r.txn_id ≢ id
    → r.read_ts <ℤ (written db id read_ts ops).0.manager.next_commit_ts
    → IsUnmarked (lookup j db.versions)
    → let (after, t) = written db id read_ts ops in
      sees r (commit_current after t) j ≡ (if contains j t.insert_set then false else sees r db j)
committed_isolated db id read_ts ops r j other old clean =
    let st = written db id read_ts ops in
    let h = touched db id read_ts ops j in
    let cts = st.0.manager.next_commit_ts in
    let d = contains j st.1.delete_set in
    elim (Bool-cases (contains j st.1.insert_set)) [
      | inl own ↦
          rw
            (own, sees_entry r (commit_current st.0 st.1) j, lookup-commit_current st.0 st.1 j, own)
            (own_entry_old id cts d r (lookup j st.0.versions) other old (h.own own))
      | inr not_own ↦
          rw
            (
              not_own,
              sees_entry r (commit_current st.0 st.1) j,
              sees_entry r db j,
              lookup-commit_current st.0 st.1 j,
              not_own,
              h.others not_own,
            )
            (other_entry_old id cts d r (lookup j db.versions) other old clean)
    ]

-- A snapshot taken after the commit, whose timestamp is not negative, sees each row that the
-- transaction inserted and did not delete.
pub committed_inserts_seen :
    (db : Db) (id read_ts : ℤ) (ops : List RowOp) (r : Transaction) (j : Rid)
    → pos 0 ≤ℤ (written db id read_ts ops).0.manager.next_commit_ts
    → (written db id read_ts ops).0.manager.next_commit_ts ≤ℤ r.read_ts
    → contains j (written db id read_ts ops).1.insert_set ≡ true
    → contains j (written db id read_ts ops).1.delete_set ≡ false
    → let (after, t) = written db id read_ts ops in sees r (commit_current after t) j ≡ true
unfolding is_visible
committed_inserts_seen db id read_ts ops r j sane new ins del =
    let st = written db id read_ts ops in
    ground (arith, touched db id read_ts ops j, lookup-commit_current st.0 st.1 j)

-- A snapshot taken after the commit sees no row that the transaction deleted and did not insert, and
-- a row that it neither deleted nor inserted as before it began. The row has a version entry when the
-- transaction begins, the transaction a valid id, and the commit a timestamp that is not negative.
pub committed_deletes_seen :
    (db : Db) (id read_ts : ℤ) (ops : List RowOp) (r : Transaction) (j : Rid) (m : VersionMeta)
    → id ≢ invalid_txn_id
    → pos 0 ≤ℤ (written db id read_ts ops).0.manager.next_commit_ts
    → (written db id read_ts ops).0.manager.next_commit_ts ≤ℤ r.read_ts
    → lookup j db.versions ≡ some m
    → contains j (written db id read_ts ops).1.insert_set ≡ false
    → let (after, t) = written db id read_ts ops in
      sees r (commit_current after t) j ≡ (if contains j t.delete_set then false else sees r db j)
unfolding is_visible
committed_deletes_seen db id read_ts ops r j m valid sane new e ins =
    let st = written db id read_ts ops in
    ground (arith, touched db id read_ts ops j, lookup-commit_current st.0 st.1 j)

-- After a rollback, a row with no deletion on record when the transaction began is as visible to any
-- transaction with a valid id as it was then, and a row that the transaction inserted is not visible.
pub aborted_invisible :
    (db : Db) (id read_ts : ℤ) (ops : List RowOp) (r : Transaction) (j : Rid)
    → r.txn_id ≢ invalid_txn_id
    → IsUnmarked (lookup j db.versions)
    → let (after, t) = written db id read_ts ops in
      sees r (abort_current after t) j ≡ (if contains j t.insert_set then false else sees r db j)
unfolding is_visible
aborted_invisible db id read_ts ops r j valid clean =
    let st = written db id read_ts ops in
    ground (arith, touched db id read_ts ops j, lookup-abort_current st.0 st.1 j)
