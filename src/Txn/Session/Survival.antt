-- ===== src/Txn/Session/Survival.antt =====
-- A committed transaction after a crash: what its log records bring back.
use chicken_db.Base.{
  ◌≡◌, refl, ap, ◌∙◌, subst, Bool, false, Option, none, some, List, [], ◌∷◌, ◌++◌, arith,
  if◌then◌else◌, All, length,
}
use chicken_db.Txn.Session.Atomic.{written}
use chicken_db.Txn.Types.{new_transaction, commit, Rid, rid_eq, LogRecord, LogRecordType}
use chicken_db.Txn.Manager.{TransactionManager}
use chicken_db.Base.Eq.{◌==◌, contains, nat_eq}
use chicken_db.Txn.Log.{read_all, append, flush, open_log}
use chicken_db.Base.Int.{int_beq_iff, ℤ, int_eq}
use chicken_db.Txn.Recovery.Replay.{
  recover-entry, with_writes, is_delete, is_insert, commit_of, last_write,
}
use chicken_db.Txn.Recovery.{recover, rid_of}
use chicken_db.Base.Dict.{lookup}
use chicken_db.Txn.Manager
use chicken_db.Txn.Session.{
  Db, RowOp, control_record, commit_current, finalize_commit, LogManager, Transaction,
}
use chicken_db.Txn.Log.Durable.{IsDense, file-append, stamped}
use chicken_db.Txn.Session.Logged.{
  later-none, last_write-append, commit_of-append, IsLogged, run_ops-IsLogged,
}

-- The COMMIT record as the log holds it.
abbrev commit_entry : LogManager → Db → Transaction → LogRecord
commit_entry l db t =
    stamped (length l.file)
      (record (control_record commit t) { commit_ts = db.manager.next_commit_ts })

abbrev log_after : LogManager → Db → Transaction → LogManager
log_after l db t =
    flush (append (record (control_record commit t) { commit_ts = db.manager.next_commit_ts }) l)

log-commit_current :
    (db : Db) (t : Transaction) (l : LogManager)
    → db.log ≡ some l
    → (commit_current db t).log ≡ some (log_after l db t)
unfolding commit_current finalize_commit Manager.commit
log-commit_current db t l e = ground arith

durable-log_after :
    (db : Db) (t : Transaction) (l : LogManager)
    → IsDense l
    → (log_after l db t).durable ≡ l.file ++ commit_entry l db t ∷ []
unfolding flush
durable-log_after db t l d = file-append _ l d

commit_of-commit_entry :
    (db : Db) (t : Transaction) (l : LogManager)
    → commit_of t.txn_id (l.file ++ commit_entry l db t ∷ []) ≡ some db.manager.next_commit_ts
unfolding commit_of
commit_of-commit_entry db t l =
    ground
      (arith, commit_of-append t.txn_id l.file (commit_entry l db t), int_beq_iff t.txn_id t.txn_id)

-- No record of the log is about the row.
abbrev pub IsUnwritten : Rid → List LogRecord → Type 0
IsUnwritten j rs = All (λ r. (rid_of r == j) ≡ false) rs

last_write-IsUnwritten :
    (kind : LogRecordType → Bool) (stamp : ℤ → Option ℤ) (j : Rid) (rs : List LogRecord)
    → IsUnwritten j rs
    → last_write kind stamp j rs ≡ none
unfolding last_write
last_write-IsUnwritten kind stamp j [] h = refl
last_write-IsUnwritten kind stamp j (r ∷ rs) h =
    ground (arith, last_write-IsUnwritten kind stamp j rs h.1)

recovered_entry :
    (db : Db) (t : Transaction) (id cts : ℤ) (j : Rid) (start : List LogRecord)
    (m : TransactionManager)
    → IsUnwritten j start
    → db.manager.next_commit_ts ≡ cts
    → IsLogged id cts j start (db, t)
    → (l : LogManager) × ((commit_current db t).log ≡ some l)
      × (lookup j (recover (open_log l.durable) [] m).versions
          ≡ with_writes
              (if contains j t.insert_set then some (id, cts) else none)
              (if contains j t.delete_set then some (id, cts) else none)
              none)
unfolding open_log read_all
recovered_entry db t id cts j start m fresh ts h =
    let file = h.log.file ++ commit_entry h.log db t ∷ [] in
    let stamp : ℤ → Option ℤ = λ i. commit_of i file in
    let known : stamp id ≡ some cts =
      subst (λ i. stamp i ≡ some cts) h.same_id (commit_of-commit_entry db t h.log ∙ ap some ts) in
    let ins : Option (ℤ × ℤ) = (if contains j t.insert_set then some (id, cts) else none) in
    let del : Option (ℤ × ℤ) = (if contains j t.delete_set then some (id, cts) else none) in
    let entry = commit_entry h.log db t in
    let p : last_write is_insert stamp j file ≡ ins =
      last_write-append is_insert stamp j h.log.file entry
      ∙ (h.inserted stamp known
          ∙ rw (last_write-IsUnwritten is_insert stamp j start fresh) (later-none ins)) in
    let q : last_write is_delete stamp j file ≡ del =
      last_write-append is_delete stamp j h.log.file entry
      ∙ (h.deleted stamp known
          ∙ rw (last_write-IsUnwritten is_delete stamp j start fresh) (later-none del)) in
    (
      log_after h.log db t,
      log-commit_current db t h.log h.present,
      recover-entry (open_log (log_after h.log db t).durable) m j
          ∙ rw (durable-log_after db t h.log h.dense) (λ i. with_writes (p i) (q i) none),
    )

fresh-IsLogged :
    (db : Db) (id read_ts cts : ℤ) (j : Rid) (l : LogManager)
    → db.log ≡ some l
    → IsDense l
    → IsLogged id cts j l.file (db, new_transaction id read_ts)
fresh-IsLogged db id read_ts cts j l e d = record {
  same_id = refl;
  log = l;
  present = e;
  dense = d;
  inserted = λ stamp known. refl;
  deleted = λ stamp known. refl;
}

-- A transaction that has committed survives a crash: its commit leaves the log on disk, and
-- recovery from that log and an empty store gives each row that the earlier log does not mention
-- exactly the creation and the deletion of the transaction, with its commit timestamp.
pub committed_survives :
    (db : Db) (id read_ts : ℤ) (ops : List RowOp) (j : Rid) (l : LogManager)
    (m : TransactionManager)
    → db.log ≡ some l
    → IsDense l
    → IsUnwritten j l.file
    → let (after, t) = written db id read_ts ops in
      let cts = after.manager.next_commit_ts in
      (l' : LogManager) × ((commit_current after t).log ≡ some l')
      × (lookup j (recover (open_log l'.durable) [] m).versions
          ≡ with_writes
              (if contains j t.insert_set then some (id, cts) else none)
              (if contains j t.delete_set then some (id, cts) else none)
              none)
committed_survives db id read_ts ops j l m e d fresh =
    let st = written db id read_ts ops in
    let cts = st.0.manager.next_commit_ts in
    let h =
      run_ops-IsLogged id cts j l.file ops (db, new_transaction id read_ts)
        (fresh-IsLogged db id read_ts cts j l e d) in
    recovered_entry st.0 st.1 id cts j l.file m fresh refl h
