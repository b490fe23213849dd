-- ===== src/Txn/Session/Marks.antt =====
-- What the loops of FinalizeCommit and AbortTxn leave at a row.
use chicken_db.Base.{◌≡◌, refl, some, [], ◌∷◌, arith, if◌then◌else◌}
use chicken_db.Base.Eq.{contains}
use chicken_db.Base.Dict.{lookup}
use chicken_db.Txn.Types.{Rid, rid_eq, default_meta}
use chicken_db.Txn.Versions.{
  VersionStore, set_begin_ts, set_end_ts, commit_insert, commit_delete, abort_insert, abort_delete,
}
use chicken_db.Txn.Versions.Lookup.{
  map_meta, unmark, lookup-commit_insert, lookup-commit_delete, lookup-abort_insert,
  lookup-abort_delete,
}
use chicken_db.Txn.Session.{ℤ, List, commit_inserts, commit_deletes, abort_inserts, abort_deletes}

pub lookup-commit_inserts :
    (j : Rid) (rs : List Rid) (ts : ℤ) (s : VersionStore)
    → lookup j (commit_inserts rs ts s)
      ≡ (if contains j rs then map_meta (set_begin_ts ts) (lookup j s) else lookup j s)
unfolding commit_inserts
lookup-commit_inserts j [] ts s = refl
lookup-commit_inserts j (r ∷ rs) ts s =
    ground
      (arith, lookup-commit_inserts j rs ts (commit_insert r ts s), lookup-commit_insert r j ts s)

pub lookup-commit_deletes :
    (j : Rid) (rs : List Rid) (ts : ℤ) (s : VersionStore)
    → lookup j (commit_deletes rs ts s)
      ≡ (if contains j rs then map_meta (set_end_ts ts) (lookup j s) else lookup j s)
unfolding commit_deletes
lookup-commit_deletes j [] ts s = refl
lookup-commit_deletes j (r ∷ rs) ts s =
    ground
      (arith, lookup-commit_deletes j rs ts (commit_delete r ts s), lookup-commit_delete r j ts s)

pub lookup-abort_inserts :
    (j : Rid) (rs : List Rid) (s : VersionStore)
    → lookup j (abort_inserts rs s) ≡ (if contains j rs then some default_meta else lookup j s)
unfolding abort_inserts
lookup-abort_inserts j [] s = refl
lookup-abort_inserts j (r ∷ rs) s =
    ground (arith, lookup-abort_inserts j rs (abort_insert r s), lookup-abort_insert r j s)

pub lookup-abort_deletes :
    (j : Rid) (rs : List Rid) (s : VersionStore)
    → lookup j (abort_deletes rs s)
      ≡ (if contains j rs then map_meta unmark (lookup j s) else lookup j s)
unfolding abort_deletes
lookup-abort_deletes j [] s = refl
lookup-abort_deletes j (r ∷ rs) s =
    ground (arith, lookup-abort_deletes j rs (abort_delete r s), lookup-abort_delete r j s)
