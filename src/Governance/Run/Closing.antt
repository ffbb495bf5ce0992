-- ===== src/Governance/Run/Closing.antt =====
-- `Execute` after the dispatch, where no call fails: the transaction is closed with the outcome of the
-- command, and the audit log has one more record.
use pmux.Base.{
  ℕ, Bool, true, false, ◌≡◌, refl, Option, none, some, List, [], ◌∷◌, ◌++◌, Bytes, bytes_eq,
  Bool-cases, inl, inr, ◌==◌, if◌then◌else◌,
}
use pmux.Base.Assoc.{lookup, insert}
use pmux.Pmuxerr.{Result, ok, Err, Code, other}
use pmux.Files.Quiet.{quiet}
use pmux.Lock.{LockFaults}
use pmux.Journal.{Tx, TxState, Transactions, completed, failed, interrupted, is_closed, is_outcome}
use pmux.Journal.Encoding.{Encoding, IsFaithful, IsTotal}
use pmux.Journal.Store.{commit, fail, interrupt}
use pmux.Journal.Store.Spec.{view, with_state}
use pmux.Journal.Store.Success.{quiet_call, set_state-succeeds}
use pmux.Audit.{
  Entry, Coding, Log, Outcome, succeeded, PrepareFaults, append_entry, is_result, sanitize_entry,
}
use pmux.Audit.Reading as Records
use pmux.Audit.Reading.{records, Logged, kept, logged, append_entry-Logged}
use pmux.Audit.Accept as Acceptance
use pmux.Audit.Accept.{is_complete, append_entry_accepts}
use pmux.Governance.{canonical_error_code, canonical_exit_code, is_canceled_code, is_cancellation}
use pmux.Governance.Run.{
  Reply, World, Faults, Job, audit_entry, append_audit, close_journal, persist_failure, committed,
  dispatched,
}

-- No call fails.
abbrev pub free_lock : LockFaults
free_lock = record {
  private_dir = none;
  open_file = none;
  chmod = none;
  try_lock = none;
  holder = none;
  encode = none;
  truncate = none;
  seek = none;
  write = none;
  sync = none;
  unlock = none;
  close = none;
}

abbrev pub quiet_prepare : PrepareFaults
quiet_prepare = record {
  mkdir = none;
  chmod_dir = none;
  open_file = none;
  chmod = none;
  sync = none;
  close = none;
  sync_dir = none;
}

abbrev pub quiet_faults : ℕ → ℕ → Bytes → ℕ → Faults
quiet_faults first_now now random audit_now = record {
  canceled_before = none;
  locking = free_lock;
  preparing = quiet_prepare;
  beginning = quiet_call first_now now (some random);
  recording = quiet_call first_now now (some random);
  canceled_after = none;
  committing = quiet_call first_now now (some random);
  closing = quiet_call first_now now (some random);
  auditing = quiet;
  audit_now = audit_now;
  release = none;
}

-- What governance makes of what a command returns: the state of the transaction, and the result and
-- the code of the audit record.
abbrev pub closed_state : Bool → TxState
closed_state true = interrupted
closed_state false = failed

abbrev pub outcome_state : Reply × Option Err → TxState
outcome_state (reply, some e) = closed_state (is_cancellation e)
outcome_state (reply, none) =
    if reply.exit_code == 0
    then completed
    else closed_state (is_canceled_code (canonical_exit_code reply.exit_code))

abbrev pub outcome_result : Reply × Option Err → Outcome
outcome_result (reply, some e) = Outcome.failed
outcome_result (reply, none) = if reply.exit_code == 0 then succeeded else Outcome.failed

abbrev pub outcome_code : Reply × Option Err → Code
outcome_code (reply, some e) = canonical_error_code e
outcome_code (reply, none) =
    if reply.exit_code == 0 then other "" else canonical_exit_code reply.exit_code

closed_state-outcome : (b : Bool) → is_outcome (closed_state b) ≡ true
unfolding is_outcome
closed_state-outcome true = refl
closed_state-outcome false = refl

completed-outcome : is_outcome completed ≡ true
unfolding is_outcome
completed-outcome = refl

failed-result : is_result Outcome.failed ≡ true
unfolding is_result
failed-result = refl

succeeded-result : is_result succeeded ≡ true
unfolding is_result
succeeded-result = refl

pub Logged-records :
    {k : Coding} {es : List Entry} {e : Entry} {l : Log} (o : Result (Unit {0}) × Log)
    → Logged k es e l o
    → o.0 ≡ ok tt
    → records k o.1 ≡ ok (es ++ e ∷ [])
Logged-records o (kept x l' h s) q = cc
Logged-records o (logged r l' v h s) q = h

complete_entry :
    (j : Job) (outcome : Outcome) (code : Code)
    → bytes_eq j.id [] ≡ false
    → bytes_eq j.operation [] ≡ false
    → bytes_eq j.target [] ≡ false
    → is_result outcome ≡ true
    → is_complete (audit_entry j.id j.operation j.target outcome code) ≡ true
unfolding is_complete
complete_entry j outcome code a b d r = rw (a, b, d) r

-- The record that the audit log gets.
abbrev pub audited : ℕ → List Bytes → Job → Outcome → Code → Entry
audited now secrets j outcome code =
    sanitize_entry now secrets (audit_entry j.id j.operation j.target outcome code)

module _ (c : Encoding) (k : Coding) (faithful : IsFaithful c) (total : IsTotal c)
    (k_faithful : Records.IsFaithful k) (k_total : Acceptance.IsTotal k)
    (first_now now audit_now : ℕ) (random : Bytes) (j : Job) (with_id : bytes_eq j.id [] ≡ false)
    (with_operation : bytes_eq j.operation [] ≡ false) (with_target : bytes_eq j.target [] ≡ false)
    {S : Type 0} where
  audit_done :
      (outcome : Outcome) (code : Code) (w : World S) (es : List Entry)
      → is_result outcome ≡ true
      → records k w.log ≡ ok es
      → ((append_audit k quiet audit_now j outcome code w).0 ≡ none)
        × (records k (append_audit k quiet audit_now j outcome code w).1.log
            ≡ ok (es ++ audited audit_now w.log.secrets j outcome code ∷ []))
  unfolding append_audit
  audit_done outcome code w es r held =
      let e = audit_entry j.id j.operation j.target outcome code in
      let done : (append_entry k quiet audit_now e w.log).0 ≡ ok tt =
        (append_entry_accepts k k_total audit_now e w.log).1
          (complete_entry j outcome code with_id with_operation with_target r) in
      (
        rw done refl,
        Logged-records _ (append_entry-Logged k k_faithful quiet audit_now e w.log es held) done,
      )

  module _ (w : World S) (txs : Transactions) (tx : Tx) (es : List Entry)
      (held : view c w.journal ≡ ok txs) (there : lookup j.id txs ≡ some tx)
      (still_open : is_closed tx.state_of ≡ false) (listed : records k w.log ≡ ok es) where
    close_done :
        (canceled : Bool)
        → ((close_journal c (quiet_call first_now now (some random)) canceled j.id w.journal).0
            ≡ ok tt)
          × (view c
                (close_journal c (quiet_call first_now now (some random)) canceled j.id w.journal).1
              ≡ ok (insert j.id (with_state (closed_state canceled) tx) txs))
    unfolding close_journal interrupt fail
    close_done true =
        set_state-succeeds c faithful total first_now now (some random) w.journal txs held j.id tx
          there interrupted _ still_open (closed_state-outcome true)
    close_done false =
        set_state-succeeds c faithful total first_now now (some random) w.journal txs held j.id tx
          there failed _ still_open (closed_state-outcome false)

    commit_done :
        ((commit c (quiet_call first_now now (some random)) j.id w.journal).0 ≡ ok tt)
        × (view c (commit c (quiet_call first_now now (some random)) j.id w.journal).1
            ≡ ok (insert j.id (with_state completed tx) txs))
    unfolding commit
    commit_done =
        set_state-succeeds c faithful total first_now now (some random) w.journal txs held j.id tx
          there completed _ still_open completed-outcome

    -- What `Execute` has made of what the command gave.
    pub record Closes (state : TxState) (outcome : Outcome) (code : Code)
        (given : Reply × Option Err) (out : (Reply × Option Err) × World S) : Type 0 where
      pub replied : out.0 ≡ given
      pub settled : view c out.1.journal ≡ ok (insert j.id (with_state state tx) txs)
      pub recorded_by :
          records k out.1.log ≡ ok (es ++ audited audit_now w.log.secrets j outcome code ∷ [])

    failure-Closes :
        (code : Code) (canceled : Bool)
        → let o =
            persist_failure c k (quiet_faults first_now now random audit_now) j code canceled w in
          (o.0 ≡ none)
          × (view c o.1.journal ≡ ok (insert j.id (with_state (closed_state canceled) tx) txs))
          × (records k o.1.log
              ≡ ok (es ++ audited audit_now w.log.secrets j Outcome.failed code ∷ []))
    unfolding persist_failure
    failure-Closes code canceled =
        let (done, seen) = close_done canceled in
        let (quiet_audit, more) =
          audit_done Outcome.failed code
            (record w {
              journal =
                  (close_journal c (quiet_call first_now now (some random)) canceled j.id
                    w.journal).1;
            })
            es failed-result listed in
        (rw done (rw quiet_audit refl), seen, more)

    committed-Closes :
        (reply : Reply)
        → let r = commit c (quiet_call first_now now (some random)) j.id w.journal in
          Closes completed succeeded
            (other "")
            (reply, none)
            (committed c k
              (quiet_faults first_now now random audit_now)
              j
              reply
              r.0
              (record w { journal = r.1 }))
    unfolding committed
    committed-Closes reply =
        let (done, seen) = commit_done in
        let (quiet_audit, more) =
          audit_done succeeded (other "")
            (record w {
              journal = (commit c (quiet_call first_now now (some random)) j.id w.journal).1;
            })
            es succeeded-result listed in
        rw done (record { replied = rw quiet_audit refl; settled = seen; recorded_by = more })

    pub dispatched-Closes :
        (given : Reply × Option Err)
        → Closes
            (outcome_state given)
            (outcome_result given)
            (outcome_code given)
            given
            (dispatched c k (quiet_faults first_now now random audit_now) j (given, w))
    unfolding dispatched
    dispatched-Closes (reply, some e) =
        let (done, seen, more) = failure-Closes (canonical_error_code e) (is_cancellation e) in
        record { replied = rw done refl; settled = seen; recorded_by = more }
    dispatched-Closes (reply, none) = elim (Bool-cases (reply.exit_code == 0)) [
      | inl z ↦ rw z (committed-Closes reply)
      | inr z ↦
          let code : Code = canonical_exit_code reply.exit_code in
          let (done, seen, more) = failure-Closes code (is_canceled_code code) in
          rw z (record { replied = rw done refl; settled = seen; recorded_by = more })
    ]
