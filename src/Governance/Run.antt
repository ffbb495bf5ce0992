-- ===== src/Governance/Run.antt =====
-- `Execute` of internal/runtime/governance.go.
pub mod Begun
pub mod Closing
pub mod Completion
pub mod Dispatch
use pmux.Base.{
  ℕ, Bool, true, false, ◌≡◌, Option, none, some, List, [], ◌∷◌, Bytes, String, codes, ◌==◌,
  if◌then◌else◌,
}
use pmux.Pmuxerr.{
  Result, ok, err, Err, joined, wrap, journal_corrupt, internal, canceled_code, interrupted_code,
  user, config_mutation_conflict, environment, Code, code_text, other,
}
use pmux.Files.{AppendFaults}
use pmux.Lock.{LockFaults, try_acquire, is_busy, join}
use pmux.Journal.{Step, Tx, TxState, in_progress}
use pmux.Journal.Encoding.{Encoding}
use pmux.Journal.Store.{
  Journal, Call, ReadFaults, begin, record_step, commit, fail, interrupt, pending,
}
use pmux.Audit.{
  Entry, Coding, Log, Outcome, succeeded, failed, PrepareFaults, prepare, append_entry,
}
use pmux.Governance.{
  Invocation, is_mutation, mutation_target, canonical_error_code, canonical_exit_code,
  is_canceled_code, is_cancellation,
}

-- What governance reads of an `app.Result`: its exit code; the rest is `body`.
pub record Reply : Type 0 where
  pub exit_code : ℕ
  pub body : Bytes

abbrev pub no_reply : Reply
no_reply = record { exit_code = 0; body = [] }

-- The two logs below the state root, and whatever else commands change.
pub record World (S : Type 0) : Type 0 where
  pub journal : Journal
  pub log : Log
  pub app : S

-- What one `Execute` meets outside: the context's error at its two readings, and each call's faults.
-- `closing` is the call of `Fail` or `Interrupt`, whichever is made.
pub record Faults : Type 0 where
  pub canceled_before : Option Err
  pub locking : LockFaults
  pub preparing : PrepareFaults
  pub beginning : Call
  pub recording : Call
  pub canceled_after : Option Err
  pub committing : Call
  pub closing : Call
  pub auditing : AppendFaults
  pub audit_now : ℕ
  pub release : Option Err

abbrev pub error_of : Result (Unit {0}) → Option Err
error_of (ok u) = none
error_of (err e) = some e

-- `errors.Join` of an error that is not nil and others.
abbrev pub join_to : Err → Option Err → Err
join_to a none = a
join_to a (some b) = joined a b

-- `governancePersistence`.
abbrev pub persistence : Err → String → Err
persistence cause message = wrap cause journal_corrupt internal message

abbrev pub persistence_of : Option Err → String → Option Err
persistence_of none message = none
persistence_of (some cause) message = some (persistence cause message)

-- `canceledGovernance`.
abbrev pub canceled_governance : Err → Err
canceled_governance cause =
    wrap cause canceled_code user "Operation was canceled before command dispatch."

abbrev pub dispatch_step : Bytes → Step
dispatch_step target = record {
  name = codes "dispatch";
  action = codes "execute";
  target = target;
  undo = [];
  at = 0;
}

abbrev pub audit_entry : Bytes → Bytes → Bytes → Outcome → Code → Entry
audit_entry id operation target outcome code = record {
  version = 0;
  timestamp = 0;
  operation = id;
  actor = codes "local";
  command = operation;
  target = target;
  params = [];
  outcome = outcome;
  error_code = codes (code_text code);
}

-- The part of a command's name that `Execute` passes on.
pub record Job : Type 0 where
  pub id : Bytes
  pub operation : Bytes
  pub target : Bytes

abbrev pub or_error : Option Err → Err → Err
or_error none e = e
or_error (some p) e = p

-- `appendAudit`.
unfoldable pub append_audit :
    {S : Type 0} → Coding → AppendFaults → ℕ → Job → Outcome → Code → World S → Option Err × World S
append_audit k f now j outcome code w =
    let (r, l) = append_entry k f now (audit_entry j.id j.operation j.target outcome code) w.log in
    (error_of r, record w { log = l })

-- `journal.Interrupt` or `journal.Fail`.
unfoldable pub close_journal :
    Encoding → Call → Bool → Bytes → Journal → Result (Unit {0}) × Journal
close_journal c call canceled id j =
    if canceled
    then interrupt c call id (codes "operation canceled") j
    else fail c call id (codes "operation failed") j

abbrev pub dispatch_error : Err → Option Err → Err
dispatch_error cause none =
    persistence cause "PMux could not record command dispatch; no mutation was attempted."
dispatch_error cause (some e) =
    persistence (joined cause e) "PMux governance failed before command dispatch."

abbrev pub commit_error : Err → Option Err → Option Err → Err
commit_error e (some t) a =
    persistence (joined e (join_to t a)) "PMux could not persist the operation completion state."
commit_error e none (some a) =
    persistence (joined e a) "PMux could not persist the operation audit record."
commit_error e none none = persistence e "PMux could not commit the operation journal transaction."

module _ {S : Type 0} (c : Encoding) (k : Coding) (f : Faults) where
  -- `persistFailure`.
  unfoldable pub persist_failure : Job → Code → Bool → World S → Option Err × World S
  unfolding append_audit close_journal
  persist_failure j code canceled w =
      let (r, journal') = close_journal c f.closing canceled j.id w.journal in
      let (a, w') =
        append_audit k f.auditing f.audit_now j failed code (record w { journal = journal' }) in
      (
        persistence_of (join (error_of r) a)
            "PMux could not persist governance records for the failed operation.",
        w',
      )

  -- `failBeforeDispatch`.
  unfoldable pub fail_before_dispatch : Job → Err → World S → Err × World S
  unfolding append_audit
  fail_before_dispatch j cause w =
      let (r, journal') = fail c f.closing j.id (codes "dispatch record failed") w.journal in
      let (a, w') =
        append_audit k f.auditing f.audit_now j failed (canonical_error_code cause)
          (record w { journal = journal' }) in
      (dispatch_error cause (join (error_of r) a), w')

  -- `Execute` after a dispatch without error, from the result of `Commit` on.
  unfoldable pub committed :
      Job → Reply → Result (Unit {0}) → World S → (Reply × Option Err) × World S
  unfolding append_audit
  committed j reply (ok u) w =
      let (a, w') = append_audit k f.auditing f.audit_now j succeeded (other "") w in
      ((reply, persistence_of a "PMux could not persist the operation audit record."), w')
  committed j reply (err e) w =
      let (t, journal') = fail c f.closing j.id (codes "completion record failed") w.journal in
      let (a, w') =
        append_audit k f.auditing f.audit_now j failed (canonical_error_code e)
          (record w { journal = journal' }) in
      ((reply, some (commit_error e (error_of t) a)), w')

  -- `Execute` from the return of the inner use cases on.
  unfoldable pub dispatched : Job → (Reply × Option Err) × World S → (Reply × Option Err) × World S
  unfolding persist_failure committed
  dispatched j ((reply, some e), w) =
      let (p, w') = persist_failure j (canonical_error_code e) (is_cancellation e) w in
      ((reply, some (or_error p e)), w')
  dispatched j ((reply, none), w) =
      if reply.exit_code == 0
      then (let (r, journal') = commit c f.committing j.id w.journal in
          committed j reply r (record w { journal = journal' }))
      else (let code = canonical_exit_code reply.exit_code in
          let (p, w') = persist_failure j code (is_canceled_code code) w in ((reply, p), w'))

  module _ (inner : World S → (Reply × Option Err) × World S) where
    -- `Execute` from the second reading of the context on.
    unfoldable pub recorded : Job → Option Err → World S → (Reply × Option Err) × World S
    unfolding persist_failure dispatched
    recorded j (some e) w =
        let canceled = canceled_governance e in
        let (p, w') = persist_failure j (canonical_error_code canceled) true w in
        ((no_reply, some (or_error p canceled)), w')
    recorded j none w = dispatched j (inner w)

    -- `Execute` from the result of `Record` on.
    unfoldable pub stepped : Job → Result (Unit {0}) → World S → (Reply × Option Err) × World S
    unfolding fail_before_dispatch recorded
    stepped j (err e) w = let (x, w') = fail_before_dispatch j e w in ((no_reply, some x), w')
    stepped j (ok u) w = recorded j f.canceled_after w

    -- `Execute` from the result of `Begin` on.
    unfoldable pub begun : Bytes → Result Bytes → World S → (Reply × Option Err) × World S
    unfolding stepped
    begun operation (err e) w = (
      (no_reply, some (persistence e "PMux could not begin the operation journal transaction.")),
      w,
    )
    begun operation (ok id) w =
        let target = mutation_target operation in
        let (r, journal') = record_step c f.recording id (dispatch_step target) w.journal in
        stepped (record { id = id; operation = operation; target = target }) r
          (record w { journal = journal' })

    -- `Execute` from the result of `Prepare` on.
    unfoldable pub prepared : Bytes → Result (Unit {0}) → World S → (Reply × Option Err) × World S
    unfolding begun
    prepared operation (err e) w = (
      (
        no_reply,
        some (
            persistence e
              "PMux could not prepare the operation audit log; no mutation was attempted."),
      ),
      w,
    )
    prepared operation (ok u) w =
        let (r, journal') = begin c f.beginning operation [] w.journal in
        begun operation r (record w { journal = journal' })

    abbrev released : Option Err → (Reply × Option Err) × World S → (Reply × Option Err) × World S
    released (some e) ((reply, none), w) = (
      (
        reply,
        some (
            wrap e config_mutation_conflict environment
              "PMux could not release the mutation lock."),
      ),
      w,
    )
    released r out = out

    -- `Execute` of a mutation from the result of `TryAcquire` on.
    unfoldable pub locked : Bytes → Result (Unit {0}) → World S → (Reply × Option Err) × World S
    unfolding prepared
    locked operation (err e) w = ((no_reply, some e), w)
    locked operation (ok u) w =
        let (r, file) = prepare f.preparing w.log.file in
        released f.release (prepared operation r (record w { log = record w.log { file = file } }))

    unfoldable pub mutate : Bytes → Option Err → World S → (Reply × Option Err) × World S
    unfolding locked try_acquire
    mutate operation (some e) w = ((no_reply, some (canceled_governance e)), w)
    mutate operation none w = locked operation (try_acquire f.locking operation).0 w

    -- `Execute`; `inner` is the router's `Execute` of the same invocation.
    unfoldable pub execute : Invocation → World S → (Reply × Option Err) × World S
    unfolding mutate
    execute i w = if is_mutation i then mutate i.operation f.canceled_before w else inner w
