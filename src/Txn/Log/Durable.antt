-- ===== src/Txn/Log/Durable.antt =====
-- What the log of log_manager.cpp holds after an append.
use chicken_db.Base.{ℕ, ◌≡◌, refl, ap, List, [], ◌∷◌, ◌++◌, arith, length, length-append}
use chicken_db.Base.Int.{pos}
use chicken_db.Txn.Types.{LogRecord}
use chicken_db.Txn.Log.{LogManager, pwrite, open_log, append, flush}

-- The next LSN is the first free slot.
abbrev pub IsDense : LogManager → Type 0
IsDense l = l.next_lsn ≡ length l.file

pub open_log-IsDense : (file : List LogRecord) → IsDense (open_log file)
unfolding open_log
open_log-IsDense file = refl

pub pwrite_end : (xs : List LogRecord) (r : LogRecord) → pwrite xs (length xs) r ≡ xs ++ r ∷ []
unfolding pwrite
pwrite_end [] r = refl
pwrite_end (x ∷ xs) r = ap (◌∷◌ x) (pwrite_end xs r)

abbrev pub stamped : ℕ → LogRecord → LogRecord
stamped lsn r = record r { lsn = pos lsn }

pub file-append :
    (r : LogRecord) (l : LogManager)
    → IsDense l
    → (append r l).file ≡ l.file ++ stamped (length l.file) r ∷ []
unfolding append
file-append r l d = rw d (pwrite_end l.file (stamped (length l.file) r))

pub append-IsDense : (r : LogRecord) (l : LogManager) → IsDense l → IsDense (append r l)
unfolding append
append-IsDense r l d =
    omega
      (arith, ap length (file-append r l d), length-append l.file (stamped (length l.file) r ∷ []))

pub flush-IsDense : (l : LogManager) → IsDense l → IsDense (flush l)
unfolding flush
flush-IsDense l d = d
