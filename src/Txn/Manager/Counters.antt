-- ===== src/Txn/Manager/Counters.antt =====
-- The counters of transaction_manager.cpp.
use chicken_db.Base.{◌≡◌, refl, arith}
use chicken_db.Base.Int.{ℤ, pos, ◌≤ℤ◌, suc_ℤ}
use chicken_db.Txn.Types.{Transaction}
use chicken_db.Txn.Manager.{TransactionManager, begin, commit, abort, reset, new_manager}

-- Ids start at 1, and the next commit timestamp is the one after the last.
pub record IsSane (m : TransactionManager) : Type 0 where
  pub ids : pos 1 ≤ℤ m.next_txn_id
  pub stamps : pos 0 ≤ℤ m.last_commit_ts
  pub consecutive : m.next_commit_ts ≡ suc_ℤ m.last_commit_ts

pub new_manager-IsSane : IsSane new_manager
new_manager-IsSane = record { ids = omega arith; stamps = omega arith; consecutive = refl }

pub begin-IsSane : (m : TransactionManager) → IsSane m → IsSane (begin m).0
unfolding begin
begin-IsSane m s = ground arith

pub commit-IsSane : (m : TransactionManager) (t : Transaction) → IsSane m → IsSane (commit m t).0
unfolding commit
commit-IsSane m t s = ground arith

pub abort-IsSane : (m : TransactionManager) (t : Transaction) → IsSane m → IsSane (abort m t).0
unfolding abort
abort-IsSane m t s = ground arith

pub reset-IsSane :
    (next last : ℤ) (m : TransactionManager)
    → pos 1 ≤ℤ next
    → pos 0 ≤ℤ last
    → IsSane (reset next last m)
unfolding reset
reset-IsSane next last m h k = record { ids = h; stamps = k; consecutive = refl }
