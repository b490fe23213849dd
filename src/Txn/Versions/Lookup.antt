-- ===== src/Txn/Versions/Lookup.antt =====
-- What each call of version_store.cpp leaves at a row, in the form of one lookup law for each.
use chicken_db.Base.{
  ◌≡◌, ◌∙◌, subst, inl, inr, Option, none, some, if◌then◌else◌, Bool-cases, Option-cases,
}
use chicken_db.Base.Eq.{◌==◌}
use chicken_db.Base.Int.{ℤ, int_eq}
use chicken_db.Base.Dict.{lookup, lookup-insert}
use chicken_db.Txn.Types.{
  rid_beq_iff, Rid, rid_eq, VersionMeta, default_meta, invalid_ts, invalid_txn_id,
}
use chicken_db.Txn.Versions.{
  VersionStore, modify, mark_end, set_begin_ts, set_end_ts, on_insert, on_delete, commit_insert,
  commit_delete, abort_insert, abort_delete,
}

abbrev pub map_meta : (VersionMeta → VersionMeta) → Option VersionMeta → Option VersionMeta
map_meta f none = none
map_meta f (some m) = some (f m)

pub lookup-modify :
    (rid j : Rid) (f : VersionMeta → VersionMeta) (s : VersionStore)
    → lookup j (modify rid f s) ≡ (if rid == j then map_meta f (lookup j s) else lookup j s)
lookup-modify rid j f s = elim (Option-cases (lookup rid s)) [
  | inl e ↦ elim (Bool-cases (rid == j)) [
    | inl same ↦
        let at : lookup j s ≡ none =
          subst (λ k. lookup k s ≡ none) ((rid_beq_iff rid j).0 same) e in
        rw (same, at) (rw (e, modify) at)
    | inr other ↦ rw other (rw (e, modify))
  ]
  | inr (m, e) ↦ elim (Bool-cases (rid == j)) [
    | inl same ↦
        let at : lookup j s ≡ some m =
          subst (λ k. lookup k s ≡ some m) ((rid_beq_iff rid j).0 same) e in
        rw (e, modify) (lookup-insert rid j (f m) s ∙ rw (same, at))
    | inr other ↦ rw (e, modify) (lookup-insert rid j (f m) s ∙ rw other)
  ]
]

abbrev pub created : ℤ → VersionMeta
created txn = record default_meta { begin_txn = txn }

pub lookup-on_insert :
    (rid j : Rid) (txn : ℤ) (s : VersionStore)
    → lookup j (on_insert rid txn s) ≡ (if rid == j then some (created txn) else lookup j s)
unfolding on_insert
lookup-on_insert rid j txn s = lookup-insert rid j _ s

pub lookup-on_delete :
    (rid j : Rid) (txn : ℤ) (s : VersionStore)
    → lookup j (on_delete rid txn s)
      ≡ (if rid == j then map_meta (mark_end txn invalid_ts) (lookup j s) else lookup j s)
unfolding on_delete
lookup-on_delete rid j txn s = lookup-modify rid j _ s

pub lookup-commit_insert :
    (rid j : Rid) (ts : ℤ) (s : VersionStore)
    → lookup j (commit_insert rid ts s)
      ≡ (if rid == j then map_meta (set_begin_ts ts) (lookup j s) else lookup j s)
unfolding commit_insert
lookup-commit_insert rid j ts s = lookup-modify rid j _ s

pub lookup-commit_delete :
    (rid j : Rid) (ts : ℤ) (s : VersionStore)
    → lookup j (commit_delete rid ts s)
      ≡ (if rid == j then map_meta (set_end_ts ts) (lookup j s) else lookup j s)
unfolding commit_delete
lookup-commit_delete rid j ts s = lookup-modify rid j _ s

pub lookup-abort_insert :
    (rid j : Rid) (s : VersionStore)
    → lookup j (abort_insert rid s) ≡ (if rid == j then some default_meta else lookup j s)
unfolding abort_insert
lookup-abort_insert rid j s = lookup-insert rid j _ s

abbrev pub unmark : VersionMeta → VersionMeta
unmark m = mark_end invalid_txn_id invalid_ts m

pub lookup-abort_delete :
    (rid j : Rid) (s : VersionStore)
    → lookup j (abort_delete rid s)
      ≡ (if rid == j then map_meta unmark (lookup j s) else lookup j s)
unfolding abort_delete
lookup-abort_delete rid j s = lookup-modify rid j _ s
