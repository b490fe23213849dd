-- ===== src/Txn/Log.antt =====
-- src/transaction/log_manager.cpp: a file of records of one size, addressed by LSN.
pub mod Durable
use chicken_db.Base.{ℕ, zero, suc, ◌+◌, List, [], ◌∷◌, length}
use chicken_db.Base.Int.{pos}
use chicken_db.Txn.Types.{LogRecord, default_record}

-- `file` is what the kernel holds of the log, `durable` what has reached the disk.
pub record LogManager : Type 0 where
  pub next_lsn : ℕ
  pub file : List LogRecord
  pub durable : List LogRecord

-- A slot that `pwrite` skips reads as zero bytes.
abbrev pub zero_record : LogRecord
zero_record = record default_record {
  lsn = pos 0;
  txn_id = pos 0;
  rid_page = pos 0;
  commit_ts = pos 0;
}

-- pwrite of one record at slot `i`.
unfoldable pub pwrite : List LogRecord → ℕ → LogRecord → List LogRecord
pwrite [] zero r = r ∷ []
pwrite [] (suc i) r = zero_record ∷ pwrite [] i r
pwrite (x ∷ xs) zero r = r ∷ xs
pwrite (x ∷ xs) (suc i) r = x ∷ pwrite xs i r

-- The constructor: the next LSN is the number of records in the file.
unfoldable pub open_log : List LogRecord → LogManager
open_log file = record { next_lsn = length file; file = file; durable = file }

unfoldable pub append : LogRecord → LogManager → LogManager
append r l = record l {
  next_lsn = l.next_lsn + 1;
  file = pwrite l.file l.next_lsn (record r { lsn = pos l.next_lsn });
}

unfoldable pub flush : LogManager → LogManager
flush l = record l { durable = l.file }

unfoldable pub read_all : LogManager → List LogRecord
read_all l = l.file
