-- ===== src/Txn/Types.antt =====
-- src/include/common/rid.h, transaction.h, version_store.h (VersionMeta) and log_record.h.
use chicken_db.Base.{ℕ, ◌≡◌, ◌↔◌, Bool, true, ◌&&◌, List, [], ◌∷◌, ◌++◌, arith}
use chicken_db.Base.Eq.{nat_eq, HasEq, ◌==◌}
use chicken_db.Base.Int.{int_eq, ℤ, negsuc, int_beq_iff}

-- Where a row lies: a data page and a row in it. The table is no part of it.
pub record Rid : Type 0 where
  pub page_no : ℤ
  pub row_idx : ℕ

unfoldable pub rid_beq : Rid → Rid → Bool
rid_beq a b = a.page_no == b.page_no && a.row_idx == b.row_idx

pub rid_beq_iff : (a b : Rid) → (rid_beq a b ≡ true) ↔ (a ≡ b)
unfolding rid_beq
rid_beq_iff a b = ground (arith, int_beq_iff a.page_no b.page_no)

instance abbrev pub rid_eq : HasEq Rid
rid_eq = record { same = rid_beq; same_iff = rid_beq_iff }

abbrev pub invalid_txn_id : ℤ
invalid_txn_id = negsuc 0

abbrev pub invalid_ts : ℤ
invalid_ts = negsuc 0

pub data TransactionState : Type 0 where
  running committed aborted : TransactionState

pub record Transaction : Type 0 where
  pub txn_id : ℤ
  pub read_ts : ℤ
  pub commit_ts : ℤ
  pub state : TransactionState
  pub insert_set : List Rid
  pub delete_set : List Rid

abbrev pub new_transaction : ℤ → ℤ → Transaction
new_transaction id read_ts = record {
  txn_id = id;
  read_ts = read_ts;
  commit_ts = invalid_ts;
  state = running;
  insert_set = [];
  delete_set = [];
}

abbrev pub append_insert : Rid → Transaction → Transaction
append_insert rid t = record t { insert_set = t.insert_set ++ rid ∷ [] }

abbrev pub append_delete : Rid → Transaction → Transaction
append_delete rid t = record t { delete_set = t.delete_set ++ rid ∷ [] }

-- Who created and who deleted a row, and when that was committed.
pub record VersionMeta : Type 0 where
  pub begin_txn : ℤ
  pub begin_ts : ℤ
  pub end_txn : ℤ
  pub end_ts : ℤ

abbrev pub default_meta : VersionMeta
default_meta = record {
  begin_txn = invalid_txn_id;
  begin_ts = invalid_ts;
  end_txn = invalid_txn_id;
  end_ts = invalid_ts;
}

pub data LogRecordType : Type 0 where
  invalid begin insert delete commit abort : LogRecordType

pub record LogRecord : Type 0 where
  pub lsn : ℤ
  pub type : LogRecordType
  pub txn_id : ℤ
  pub table_id : ℕ
  pub rid_page : ℤ
  pub rid_row : ℕ
  pub commit_ts : ℤ

abbrev pub default_record : LogRecord
default_record = record {
  lsn = negsuc 0;
  type = invalid;
  txn_id = invalid_txn_id;
  table_id = 0;
  rid_page = negsuc 0;
  rid_row = 0;
  commit_ts = invalid_ts;
}
