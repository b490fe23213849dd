-- ===== src/Txn/Recovery.antt =====
-- src/transaction/recovery_manager.cpp: the two passes over the log.
pub mod Replay
pub mod Faults
use chicken_db.Base.{ℕ, Bool, true, false, Option, none, some, List, [], ◌∷◌, if◌then◌else◌, length}
use chicken_db.Base.Int.{int_eq, ℤ, pos, suc_ℤ, ltb_ℤ}
use chicken_db.Base.Dict
use chicken_db.Base.Dict.{Dict}
use chicken_db.Txn.Types.{
  rid_eq, Rid, VersionMeta, default_meta, LogRecord, LogRecordType, insert, delete, commit,
}
use chicken_db.Txn.Manager.{TransactionManager, reset}
use chicken_db.Txn.Versions.{VersionStore, set_meta, get_meta}
use chicken_db.Txn.Log.{LogManager, read_all}

pub record Scan : Type 0 where
  pub commits : Dict ℤ ℤ
  pub max_txn : ℤ
  pub max_commit : ℤ

abbrev pub larger : ℤ → ℤ → ℤ
larger a b = if ltb_ℤ b a then a else b

-- One round of the first pass.
unfoldable pub scan_record : LogRecord → Scan → Scan
scan_record r s = elim r.type [
  | commit ↦ record {
    commits = Dict.insert r.txn_id r.commit_ts s.commits;
    max_txn = larger r.txn_id s.max_txn;
    max_commit = larger r.commit_ts s.max_commit;
  }
  | _ ↦ record s { max_txn = larger r.txn_id s.max_txn }
]

unfoldable pub scan : List LogRecord → Scan → Scan
scan [] s = s
scan (r ∷ rs) s = scan rs (scan_record r s)

abbrev pub empty_scan : Scan
empty_scan = record { commits = []; max_txn = pos 0; max_commit = pos 0 }

abbrev pub rid_of : LogRecord → Rid
rid_of r = record { page_no = r.rid_page; row_idx = r.rid_row }

abbrev pub meta_or_default : Option VersionMeta → VersionMeta
meta_or_default none = default_meta
meta_or_default (some m) = m

abbrev pub replay_write : LogRecordType → ℤ → ℤ → VersionMeta → VersionMeta
replay_write insert txn ts m = record m { begin_txn = txn; begin_ts = ts }
replay_write _ txn ts m = record m { end_txn = txn; end_ts = ts }

abbrev pub is_write : LogRecordType → Bool
is_write insert = Bool.true
is_write delete = Bool.true
is_write _ = Bool.false

-- One round of the second pass: the writes of a transaction with no COMMIT are skipped.
unfoldable pub replay_record : Dict ℤ ℤ → LogRecord → VersionStore → VersionStore
unfolding set_meta get_meta
replay_record commits r s =
    if is_write r.type
    then elim (Dict.lookup r.txn_id commits) [
      | none ↦ s
      | some ts ↦
          set_meta (rid_of r)
            (replay_write r.type r.txn_id ts (meta_or_default (get_meta (rid_of r) s))) s
    ]
    else s

unfoldable pub replay : Dict ℤ ℤ → List LogRecord → VersionStore → VersionStore
replay commits [] s = s
replay commits (r ∷ rs) s = replay commits rs (replay_record commits r s)

pub record Recovered : Type 0 where
  pub versions : VersionStore
  pub manager : TransactionManager
  pub count : ℕ

abbrev pub recover_records : List LogRecord → VersionStore → TransactionManager → Recovered
recover_records [] s m = record { versions = s; manager = m; count = 0 }
recover_records (r ∷ rs) s m =
    let pass = scan (r ∷ rs) empty_scan in
    record {
      versions = replay pass.commits (r ∷ rs) s;
      manager = reset (suc_ℤ pass.max_txn) pass.max_commit m;
      count = length pass.commits;
    }

unfoldable pub recover : LogManager → VersionStore → TransactionManager → Recovered
recover l s m = recover_records (read_all l) s m
