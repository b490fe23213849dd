-- ===== src/Txn/Recovery/Faults.antt =====
-- What recovery leaves out, and where it sets the counters.
use chicken_db.Base.{◌≡◌, refl, true, none, List, [], ◌∷◌, arith, All}
use chicken_db.Base.Int.{suc_ℤ, ◌≤ℤ◌, ◌<ℤ◌}
use chicken_db.Txn.Types.{rid_beq_iff, rid_eq, Rid, LogRecord, Transaction, commit}
use chicken_db.Txn.Manager.{reset, TransactionManager}
use chicken_db.Txn.Versions.{is_visible}
use chicken_db.Txn.Log.{LogManager, read_all}
use chicken_db.Txn.Recovery.{
  empty_scan, recover_records, Scan, scan, scan_record, recover, is_write, rid_of,
}
use chicken_db.Txn.Recovery.Replay.{commit_of, last_write, recover-entry, is_insert, is_delete}

-- Every write of the row is of a transaction that did not commit.
abbrev pub NeverCommitted : List LogRecord → Rid → List LogRecord → Type 0
NeverCommitted whole j rs =
    All (λ r. is_write r.type ≡ true → rid_of r ≡ j → commit_of r.txn_id whole ≡ none) rs

last_write-none :
    (whole : List LogRecord) (j : Rid) (rs : List LogRecord)
    → NeverCommitted whole j rs
    → (last_write is_insert (λ id. commit_of id whole) j rs ≡ none)
      × (last_write is_delete (λ id. commit_of id whole) j rs ≡ none)
unfolding last_write
last_write-none whole j [] h = (refl, refl)
last_write-none whole j (r ∷ rs) h =
    ground (arith, last_write-none whole j rs h.1, rid_beq_iff (rid_of r) j)

-- A row whose only writers never committed, as after a crash or a rollback, comes back after
-- recovery: it has no entry, so every transaction sees it.
pub uncommitted_row_revived :
    (l : LogManager) (m : TransactionManager) (j : Rid) (r : Transaction)
    → NeverCommitted (read_all l) j (read_all l)
    → is_visible (recover l [] m).versions j r ≡ true
unfolding is_visible
uncommitted_row_revived l m j r h =
    ground (arith, recover-entry l m j, last_write-none (read_all l) j (read_all l) h)

-- Ids and timestamps of the log lie below the counters of `s`.
abbrev pub IsCovered : Scan → LogRecord → Type 0
IsCovered s r = (r.txn_id ≤ℤ s.max_txn) × (r.type ≡ commit → r.commit_ts ≤ℤ s.max_commit)

scan-grows :
    (rs : List LogRecord) (s : Scan)
    → (s.max_txn ≤ℤ (scan rs s).max_txn) × (s.max_commit ≤ℤ (scan rs s).max_commit)
unfolding scan scan_record
scan-grows [] s = omega arith
scan-grows (r ∷ rs) s = ground (arith, scan-grows rs (scan_record r s))

scan-covers : (rs : List LogRecord) (s : Scan) → All (IsCovered (scan rs s)) rs
unfolding scan scan_record
scan-covers [] s = tt
scan-covers (r ∷ rs) s =
    (ground (arith, scan-grows rs (scan_record r s)), scan-covers rs (scan_record r s))

abbrev pub IsBelow : TransactionManager → LogRecord → Type 0
IsBelow m r =
    (r.txn_id <ℤ m.next_txn_id)
    × (r.type ≡ commit → (r.commit_ts ≤ℤ m.last_commit_ts) × (r.commit_ts <ℤ m.next_commit_ts))

covered-IsBelow :
    (s : Scan) (m : TransactionManager) (rs : List LogRecord)
    → All (IsCovered s) rs
    → All (IsBelow (reset (suc_ℤ s.max_txn) s.max_commit m)) rs
unfolding reset
covered-IsBelow s m [] c = tt
covered-IsBelow s m (r ∷ rs) c =
    ((ground (arith, c.0), λ e. ground (arith, c.0.1 e)), covered-IsBelow s m rs c.1)

recover_records-IsBelow :
    (rs : List LogRecord) (m : TransactionManager)
    → All (IsBelow (recover_records rs [] m).manager) rs
recover_records-IsBelow [] m = tt
recover_records-IsBelow (r ∷ rs) m =
    covered-IsBelow (scan (r ∷ rs) empty_scan) m (r ∷ rs) (scan-covers (r ∷ rs) empty_scan)

-- After recovery the next transaction id is above every id of the log, the last commit timestamp
-- at or above that of every COMMIT record, and the next one above it.
pub recover-IsBelow :
    (l : LogManager) (m : TransactionManager) → All (IsBelow (recover l [] m).manager) (read_all l)
unfolding recover
recover-IsBelow l m = recover_records-IsBelow (read_all l) m
