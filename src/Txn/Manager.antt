-- ===== src/Txn/Manager.antt =====
-- src/transaction/transaction_manager.cpp. Each call runs alone; the counters do not overflow.
pub mod Counters
use chicken_db.Base.{[], if◌then◌else◌}
use chicken_db.Base.Int.{int_eq, ℤ, pos, suc_ℤ, ltb_ℤ}
use chicken_db.Base.Dict
use chicken_db.Base.Dict.{Dict}
use chicken_db.Txn.Types.{Transaction, new_transaction, committed, aborted}

-- A shared pointer to a transaction is the transaction's id, here the value of the active table.
pub record TransactionManager : Type 0 where
  pub next_txn_id : ℤ
  pub next_commit_ts : ℤ
  pub last_commit_ts : ℤ
  pub active_txns : Dict ℤ ℤ

abbrev pub new_manager : TransactionManager
new_manager = record {
  next_txn_id = pos 1;
  next_commit_ts = pos 1;
  last_commit_ts = pos 0;
  active_txns = [];
}

unfoldable pub begin : TransactionManager → TransactionManager × Transaction
begin m = (
  record m {
    next_txn_id = suc_ℤ m.next_txn_id;
    active_txns = Dict.insert m.next_txn_id m.next_txn_id m.active_txns;
  },
  new_transaction m.next_txn_id m.last_commit_ts,
)

-- The compare-exchange loop: with no other thread between, it stores the larger of the two.
unfoldable pub advance : ℤ → ℤ → ℤ
advance last commit_ts = if ltb_ℤ last commit_ts then commit_ts else last

unfoldable pub commit : TransactionManager → Transaction → TransactionManager × Transaction
unfolding advance
commit m t = (
  record m {
    next_commit_ts = suc_ℤ m.next_commit_ts;
    last_commit_ts = advance m.last_commit_ts m.next_commit_ts;
    active_txns = Dict.erase t.txn_id m.active_txns;
  },
  record t { commit_ts = m.next_commit_ts; state = committed },
)

unfoldable pub abort : TransactionManager → Transaction → TransactionManager × Transaction
abort m t =
    (record m { active_txns = Dict.erase t.txn_id m.active_txns }, record t { state = aborted })

unfoldable pub reset : ℤ → ℤ → TransactionManager → TransactionManager
reset next_txn last_commit m = record m {
  next_txn_id = next_txn;
  last_commit_ts = last_commit;
  next_commit_ts = suc_ℤ last_commit;
}
