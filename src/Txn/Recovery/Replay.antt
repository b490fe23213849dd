-- ===== src/Txn/Recovery/Replay.antt =====
-- What recovery_manager.cpp rebuilds, read off the log.
use chicken_db.Base.{
  ◌≡◌, refl, ◌∙◌, subst, inl, inr, Bool, true, false, ◌&&◌, Option, none, some, List, [], ◌∷◌,
  arith, if◌then◌else◌, Option-cases,
}
use mathlib.Core.Path.{fun_ext}
use chicken_db.Base.Eq.{◌==◌, nat_eq}
use chicken_db.Base.Int.{ℤ, int_eq}
use chicken_db.Base.Dict.{lookup-insert, Dict, lookup}
use chicken_db.Txn.Types.{
  rid_beq_iff, Rid, rid_eq, VersionMeta, LogRecord, LogRecordType, insert, delete, commit,
}
use chicken_db.Txn.Versions.{VersionStore}
use chicken_db.Txn.Recovery.{
  empty_scan, recover_records, read_all, TransactionManager, LogManager, replay, recover,
  replay_write, Scan, scan, scan_record, rid_of, meta_or_default, replay_record,
}

abbrev is_commit : LogRecordType → Bool
is_commit commit = true
is_commit _ = false

abbrev pub is_insert : LogRecordType → Bool
is_insert insert = true
is_insert _ = false

abbrev pub is_delete : LogRecordType → Bool
is_delete delete = true
is_delete _ = false

-- The later of two findings.
abbrev pub later {ℓ} : {A : Type ℓ} → Option A → Option A → Option A
later a none = a
later a (some b) = some b

later-none {ℓ} : {A : Type ℓ} (o : Option A) → later none o ≡ o
later-none none = refl
later-none (some a) = refl

-- The timestamp of the last COMMIT record of a transaction, if the log has one.
unfoldable pub commit_of : ℤ → List LogRecord → Option ℤ
commit_of id [] = none
commit_of id (r ∷ rs) =
    later (if is_commit r.type && r.txn_id == id then some r.commit_ts else none) (commit_of id rs)

-- Who wrote a row last, and when that was committed, among the records that `kind` selects. A
-- record of a transaction that `stamp` has no timestamp for does not count.
abbrev pub stamped_write : (ℤ → Option ℤ) → LogRecord → Option (ℤ × ℤ)
stamped_write stamp r = elim (stamp r.txn_id) [ none ↦ none | some ts ↦ some (r.txn_id, ts) ]

abbrev pub write_at : (LogRecordType → Bool) → (ℤ → Option ℤ) → Rid → LogRecord → Option (ℤ × ℤ)
write_at kind stamp j r = if kind r.type && rid_of r == j then stamped_write stamp r else none

unfoldable pub last_write :
    (LogRecordType → Bool) → (ℤ → Option ℤ) → Rid → List LogRecord → Option (ℤ × ℤ)
last_write kind stamp j [] = none
last_write kind stamp j (r ∷ rs) = later (write_at kind stamp j r) (last_write kind stamp j rs)

-- An entry with the given creation and deletion put into it.
abbrev pub with_writes : Option (ℤ × ℤ) → Option (ℤ × ℤ) → Option VersionMeta → Option VersionMeta
with_writes none none o = o
with_writes (some (id, ts)) none o =
    some (record (meta_or_default o) { begin_txn = id; begin_ts = ts })
with_writes none (some (id, ts)) o = some (record (meta_or_default o) { end_txn = id; end_ts = ts })
with_writes (some (id, ts)) (some (id', ts')) o =
    some (record { begin_txn = id; begin_ts = ts; end_txn = id'; end_ts = ts' })

scan-commits :
    (id : ℤ) (rs : List LogRecord) (s : Scan)
    → lookup id (scan rs s).commits ≡ later (lookup id s.commits) (commit_of id rs)
unfolding scan scan_record commit_of
scan-commits id [] s = refl
scan-commits id (r ∷ rs) s =
    ground
      (arith, scan-commits id rs (scan_record r s), lookup-insert r.txn_id id r.commit_ts s.commits)

abbrev stamps : Dict ℤ ℤ → ℤ → Option ℤ
stamps commits id = lookup id commits

replay_record-entry :
    (commits : Dict ℤ ℤ) (j : Rid) (r : LogRecord) (s : VersionStore)
    → lookup j (replay_record commits r s)
      ≡ with_writes
          (write_at is_insert (stamps commits) j r)
          (write_at is_delete (stamps commits) j r)
          (lookup j s)
unfolding replay_record
replay_record-entry commits j r s = elim (Option-cases (lookup r.txn_id commits)) [
  | inl e ↦ ground arith
  | inr (ts, e) ↦ ground (
    arith,
    lookup-insert (rid_of r) j
        (replay_write r.type r.txn_id ts (meta_or_default (lookup (rid_of r) s))) s,
    rid_beq_iff (rid_of r) j,
  )
]

with_writes-later :
    (a b c d : Option (ℤ × ℤ)) (o : Option VersionMeta)
    → with_writes b d (with_writes a c o) ≡ with_writes (later a b) (later c d) o
with_writes-later a b c d o = ground arith

replay-entry :
    (commits : Dict ℤ ℤ) (j : Rid) (rs : List LogRecord) (s : VersionStore)
    → lookup j (replay commits rs s)
      ≡ with_writes
          (last_write is_insert (stamps commits) j rs)
          (last_write is_delete (stamps commits) j rs)
          (lookup j s)
unfolding replay last_write
replay-entry commits j [] s = refl
replay-entry commits j (r ∷ rs) s =
    replay-entry commits j rs (replay_record commits r s)
    ∙ rw (replay_record-entry commits j r s) (
        with_writes-later (write_at is_insert (stamps commits) j r)
          (last_write is_insert (stamps commits) j rs) (write_at is_delete (stamps commits) j r)
          (last_write is_delete (stamps commits) j rs) (lookup j s))

-- The entry of a row according to the whole log.
abbrev pub logged_entry : List LogRecord → Rid → Option VersionMeta
logged_entry rs j =
    let stamp : ℤ → Option ℤ = λ id. commit_of id rs in
    with_writes (last_write is_insert stamp j rs) (last_write is_delete stamp j rs) none

recover_records-entry :
    (rs : List LogRecord) (m : TransactionManager) (j : Rid)
    → lookup j (recover_records rs [] m).versions ≡ logged_entry rs j
unfolding last_write lookup
recover_records-entry [] m j = refl
recover_records-entry (r ∷ rs) m j =
    let commits = (scan (r ∷ rs) empty_scan).commits in
    let same : stamps commits ≡ (λ id. commit_of id (r ∷ rs)) =
      fun_ext (λ id. scan-commits id (r ∷ rs) empty_scan ∙ later-none (commit_of id (r ∷ rs))) in
    subst
      (λ f.
        lookup j (replay commits (r ∷ rs) [])
        ≡ with_writes (last_write is_insert f j (r ∷ rs)) (last_write is_delete f j (r ∷ rs)) none)
      same (replay-entry commits j (r ∷ rs) [])

-- The entry that recovery rebuilds for a row, from an empty store: it has the creator of the last
-- INSERT record and the deleter of the last DELETE record of the row whose transactions have a
-- COMMIT record, stamped with the last timestamp of those, and no entry where there is no such
-- record.
pub recover-entry :
    (l : LogManager) (m : TransactionManager) (j : Rid)
    → lookup j (recover l [] m).versions ≡ logged_entry (read_all l) j
unfolding recover
recover-entry l m j = recover_records-entry (read_all l) m j
