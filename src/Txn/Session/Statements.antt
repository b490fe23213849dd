-- ===== src/Txn/Session/Statements.antt =====
-- The statements of a session one after another.
use chicken_db.Base.{
  ◌≡◌, refl, sym, ap, ◌∙◌, subst, ◌≢◌, inl, inr, true, false, none, some, List, [], ◌∷◌, ◌++◌,
  arith, if◌then◌else◌, Bool-cases,
}
use chicken_db.Txn.Session.{
  run_ops, run_op, delete_row, insert_row, mark_delete, inserts, deletes, commit_current, Db, RowOp,
  Session, Statement, begins, commits, rollbacks, executes, execute, begin_txn, commit_txn,
  abort_txn,
}
use chicken_db.Base.Eq.{contains, contains-append}
use chicken_db.Base.Int.{pos, ◌≤ℤ◌}
use chicken_db.Txn.Types.{Rid, rid_eq, Transaction, new_transaction}
use chicken_db.Txn.Versions.{is_visible}
use chicken_db.Txn.Manager
use chicken_db.Txn.Session.Atomic.{written, sees, committed_inserts_seen, inserted_hidden}

-- An open BEGIN comes with a transaction.
abbrev pub IsCoherent : Session → Type 0
IsCoherent s = (if s.explicit then elim s.current [ none ↦ false | some _ ↦ true ] else true) ≡ true

-- Every statement, thrown or not, keeps that.
pub execute-IsCoherent : (st : Statement) (s : Session) → IsCoherent s → IsCoherent (execute st s).0
unfolding execute begin_txn commit_txn abort_txn
execute-IsCoherent begins s h = ground arith
execute-IsCoherent commits s h = ground arith
execute-IsCoherent rollbacks s h = ground arith
execute-IsCoherent (executes ops throws) s h = ground arith

-- Outside BEGIN a statement that does not throw leaves no transaction open.
pub autocommit_closes :
    (ops : List RowOp) (s : Session)
    → s.explicit ≡ false
    → ((execute (executes ops false) s).0.current ≡ none)
      × ((execute (executes ops false) s).0.explicit ≡ false)
      × ((execute (executes ops false) s).1 ≡ false)
unfolding execute begin_txn commit_txn
autocommit_closes ops s h = ground arith

abbrev pub idle : Db → Session
idle db = record { db = db; current = none; explicit = false }

run_ops-append :
    (ops next : List RowOp) (st : Db × Transaction)
    → run_ops next (run_ops ops st) ≡ run_ops (ops ++ next) st
unfolding run_ops
run_ops-append [] next st = refl
run_ops-append (op ∷ ops) next st = run_ops-append ops next (run_op op st)

-- A write takes no row out of the insertions, and leaves the transaction manager as it is.
run_op-keeps :
    (j : Rid) (op : RowOp) (st : Db × Transaction)
    → (contains j st.1.insert_set ≡ true → contains j (run_op op st).1.insert_set ≡ true)
      × ((run_op op st).0.manager ≡ st.0.manager)
unfolding run_op delete_row insert_row mark_delete
run_op-keeps j (inserts table rid) (db, t) =
    ((λ h. ground (arith, h, contains-append j t.insert_set (rid ∷ []))), refl)
run_op-keeps j (deletes table rid) (db, t) = elim (Bool-cases (is_visible db.versions rid t)) [
  | inl seen ↦ rw seen ((λ h. h), refl)
  | inr hidden ↦ rw hidden ((λ h. h), refl)
]

run_ops-keeps :
    (j : Rid) (ops : List RowOp) (st : Db × Transaction)
    → (contains j st.1.insert_set ≡ true → contains j (run_ops ops st).1.insert_set ≡ true)
      × ((run_ops ops st).0.manager ≡ st.0.manager)
unfolding run_ops
run_ops-keeps j [] st = ((λ h. h), refl)
run_ops-keeps j (op ∷ ops) st =
    let one = run_op-keeps j op st in
    let rest = run_ops-keeps j ops (run_op op st) in ((λ h. rest.0 (one.0 h)), rest.1 ∙ one.1)

-- The writes `ops` in the transaction that a session without one opens for them.
abbrev pub opened : Db → List RowOp → Db × Transaction
opened db ops =
    written (begin_txn (idle db)).db db.manager.next_txn_id db.manager.last_commit_ts ops

-- The state after a statement that threw and one that did not, where no transaction was open.
after_failure :
    (ops next : List RowOp) (db : Db)
    → ((execute (executes ops true) (idle db)).0.db ≡ (opened db ops).0)
      × ((execute (executes next false) (execute (executes ops true) (idle db)).0).0.db
          ≡ commit_current (opened db (ops ++ next)).0 (opened db (ops ++ next)).1)
unfolding execute begin_txn commit_txn Manager.begin
after_failure ops next db =
    let (m, t) = Manager.begin db.manager in
    let start = (begin_txn (idle db)).db in
    (refl, ap (λ st. commit_current st.0 st.1) (run_ops-append ops next (start, t)))

next_commit_ts-opened :
    (ops : List RowOp) (db : Db)
    → (opened db ops).0.manager.next_commit_ts ≡ db.manager.next_commit_ts
unfolding begin_txn Manager.begin
next_commit_ts-opened ops db =
    let (m, t) = Manager.begin db.manager in
    ap (λ x. x.next_commit_ts)
      (run_ops-keeps (record { page_no = pos 0; row_idx = 0 }) ops ((begin_txn (idle db)).db, t)).1

insert_set-opened :
    (ops next : List RowOp) (db : Db) (j : Rid)
    → contains j (opened db ops).1.insert_set ≡ true
    → contains j (opened db (ops ++ next)).1.insert_set ≡ true
insert_set-opened ops next db j h =
    let t = new_transaction db.manager.next_txn_id db.manager.last_commit_ts in
    let start : Db × Transaction = ((begin_txn (idle db)).db, t) in
    subst (λ st. contains j st.1.insert_set ≡ true) (run_ops-append ops next start)
      ((run_ops-keeps j next (run_ops ops start)).0 h)

-- What a reader sees of a row once a statement threw, and after the next one.
abbrev pub Revealed : List RowOp → List RowOp → Session → Transaction → Rid → Type 0
Revealed ops next s r j =
    let failed = execute (executes ops true) s in
    let after = execute (executes next false) failed.0 in
    (failed.1 ≡ true)
    × (sees r failed.0.db j ≡ false)
    × (after.1 ≡ false)
    × (after.0.current ≡ none)
    × (sees r after.0.db j ≡ true)

module _ (ops next : List RowOp) (db : Db) (r : Transaction) (j : Rid)
    (other : r.txn_id ≢ db.manager.next_txn_id) (sane : pos 0 ≤ℤ db.manager.next_commit_ts)
    (new : db.manager.next_commit_ts ≤ℤ r.read_ts)
    (ins : contains j (opened db ops).1.insert_set ≡ true)
    (del : contains j (opened db (ops ++ next)).1.delete_set ≡ false) where
  revealed :
      sees r (commit_current (opened db (ops ++ next)).0 (opened db (ops ++ next)).1) j ≡ true
  revealed =
      let cts = next_commit_ts-opened (ops ++ next) db in
      committed_inserts_seen ((begin_txn (idle db)).db) db.manager.next_txn_id
        db.manager.last_commit_ts (ops ++ next) r j (subst (λ n. pos 0 ≤ℤ n) (sym cts) sane)
        (subst (λ n. n ≤ℤ r.read_ts) (sym cts) new) (insert_set-opened ops next db j ins) del

  failed_when_idle : Revealed ops next (idle db) r j
  unfolding execute begin_txn commit_txn
  failed_when_idle =
      let ends = after_failure ops next db in
      (
        refl,
        subst (λ x. sees r x j ≡ false) (sym ends.0)
            (inserted_hidden ((begin_txn (idle db)).db) db.manager.next_txn_id
              db.manager.last_commit_ts ops r j other ins),
        refl,
        refl,
        subst (λ x. sees r x j ≡ true) (sym ends.1) revealed,
      )

-- In a session with no BEGIN and no transaction open, a statement throws after its writes, and the
-- next one does not throw. A row that the first one inserted, and neither deleted, is hidden from
-- another transaction before the next one, and after it seen by each whose snapshot is not older
-- than its commit: the next statement commits what the failed one wrote. The commit timestamp is not
-- negative.
pub failed_statement_committed :
    (ops next : List RowOp) (s : Session) (r : Transaction) (j : Rid)
    → s.explicit ≡ false
    → s.current ≡ none
    → r.txn_id ≢ s.db.manager.next_txn_id
    → pos 0 ≤ℤ s.db.manager.next_commit_ts
    → s.db.manager.next_commit_ts ≤ℤ r.read_ts
    → contains j (opened s.db ops).1.insert_set ≡ true
    → contains j (opened s.db (ops ++ next)).1.delete_set ≡ false
    → Revealed ops next s r j
failed_statement_committed ops next s r j h k other sane new ins del =
    let e : idle s.db ≡ s = ground arith in
    subst (λ x. Revealed ops next x r j) e
      (failed_when_idle ops next s.db r j other sane new ins del)
