-- ===== src/Governance/Run/Completion.antt =====
-- `Execute` where no call fails: from the lock to the audit record.
use mathlib.Core.Path.{subst}
use pmux.Base.{
  ℕ, Bool, true, false, ◌≡◌, refl, sym, ap, ◌∙◌, Option, none, some, List, [], ◌∷◌, ◌++◌, Bytes,
  bytes_eq, codes, if◌then◌else◌,
}
use pmux.Base.Assoc.{lookup, insert}
use pmux.Pmuxerr.{ok, Err}
use pmux.Redact.{member, known}
use pmux.Files.{contents, File}
use pmux.Lock.{try_acquire}
use pmux.Journal.{Tx, Transactions, sanitize_map, sanitize_step}
use pmux.Journal.Encoding.{Encoding, IsFaithful, IsTotal}
use pmux.Journal.Store.{Journal, Call, begin, record_step, new_tx_id, dated}
use pmux.Journal.Store.Spec.{view, with_state, with_step, opened}
use pmux.Journal.Store.Begin.{begun_map, new_tx_id-named}
use pmux.Journal.Store.Success.{quiet_call, record_step-succeeds}
use pmux.Journal.Store.Opening.{begin-succeeds}
use pmux.Audit.{Entry, Coding, Log, prepare, parse_entries}
use pmux.Files.Lines.{lines_of}
use pmux.Audit.Reading as Records
use pmux.Audit.Reading.{records}
use pmux.Audit.Accept as Acceptance
use pmux.Governance.{
  Value, Invocation, is_mutation, mutation_target, provider_operations, model_operations,
  service_operations, config_operations, update_operations,
}
use pmux.Governance.Run.{Reply, World, Job, dispatch_step, dispatched, execute}
use pmux.Governance.Run.Begun.{begun_view, begun_there, lookup_inserted, in_progress_open}
use pmux.Governance.Run.Dispatch.{dispatched_app}
use pmux.Governance.Run.Closing.{
  free_lock, quiet_prepare, quiet_faults, outcome_state, outcome_result, outcome_code, audited,
  Closes, dispatched-Closes,
}

if_named :
    (b : Bool) (s t : Bytes)
    → bytes_eq s [] ≡ false
    → bytes_eq t [] ≡ false
    → bytes_eq (if b then s else t) [] ≡ false
if_named true s t h k = h
if_named false s t h k = k

literal_named : (c : ℕ) (s : Bytes) → bytes_eq (c ∷ s) [] ≡ false
unfolding bytes_eq
literal_named c s = refl

target_named : (operation : Bytes) → bytes_eq (mutation_target operation) [] ≡ false
unfolding mutation_target
target_named operation = if_named (bytes_eq operation (codes "setup")) _ _ (literal_named _ _) (
    if_named (member operation provider_operations) _ _ (literal_named _ _) (
      if_named (member operation model_operations) _ _ (literal_named _ _) (
        if_named (bytes_eq operation (codes "doctor")) _ _ (literal_named _ _) (
          if_named (member operation (codes "service.logs" ∷ service_operations)) _ _
            (literal_named _ _)
            (if_named (member operation config_operations) _ _ (literal_named _ _) (
              if_named (member operation update_operations) _ _ (literal_named _ _)
                (literal_named _ _)))))))

nameless :
    (options : List (Bytes × Value))
    → is_mutation (record { operation = []; options = options }) ≡ false
unfolding is_mutation bytes_eq member
nameless options = refl

mutation_named : (i : Invocation) → is_mutation i ≡ true → bytes_eq i.operation [] ≡ false
mutation_named i m = named i.operation refl
  where
    named : (b : Bytes) → i.operation ≡ b → bytes_eq b [] ≡ false
    named [] e =
        let wrong : is_mutation (record { operation = []; options = i.options }) ≡ true =
          subst (λ (b : Bytes). is_mutation (record { operation = b; options = i.options }) ≡ true)
            e m in
        let right = nameless i.options in cc
    named (x ∷ b) e = literal_named x b

lock_taken :
    (operation : Bytes)
    → bytes_eq operation [] ≡ false
    → (try_acquire free_lock operation).0 ≡ ok tt
unfolding try_acquire
lock_taken operation h = rw h refl

prepare_done : (file : File) → (prepare quiet_prepare file).0 ≡ ok tt
unfolding prepare
prepare_done none = refl
prepare_done (some file) = refl

prepare_contents : (file : File) → contents (prepare quiet_prepare file).1 ≡ contents file
unfolding prepare
prepare_contents none = refl
prepare_contents (some file) = refl

-- What `Execute` has done: one run of the command on a world that differs in the logs only, whose
-- outcome is then the state of a transaction under the ID `id` and, with its code, in the one new
-- record of the audit log.
pub record Completes (c : Encoding) (k : Coding) {S : Type 0}
    (inner : World S → (Reply × Option Err) × World S) (w : World S) (id operation : Bytes)
    (es : List Entry) (audit_now : ℕ) (out : (Reply × Option Err) × World S) : Type 0 where
  pub run_on : World S
  pub untouched : run_on.app ≡ w.app
  pub replied : out.0 ≡ (inner run_on).0
  pub ran : out.1.app ≡ (inner run_on).1.app
  pub after : Transactions
  pub tx : Tx
  pub seen : view c out.1.journal ≡ ok after
  pub there : lookup id after ≡ some tx
  pub settled : tx.state_of ≡ outcome_state (inner run_on).0
  pub audited_by :
      records k out.1.log
      ≡ ok (
          es
          ++ audited audit_now w.log.secrets
              (record { id = id; operation = operation; target = mutation_target operation })
              (outcome_result (inner run_on).0)
              (outcome_code (inner run_on).0)
            ∷ [])

module _ (c : Encoding) (k : Coding) (faithful : IsFaithful c) (total : IsTotal c)
    (k_faithful : Records.IsFaithful k) (k_total : Acceptance.IsTotal k)
    (first_now now audit_now : ℕ) (random : Bytes) {S : Type 0}
    (inner : World S → (Reply × Option Err) × World S)
    (leaves : (v : World S) → ((inner v).1.journal ≡ v.journal) × ((inner v).1.log ≡ v.log))
    (i : Invocation) (mutates : is_mutation i ≡ true) (w : World S) (txs : Transactions)
    (es : List Entry) (id : Bytes) (held : view c w.journal ≡ ok txs)
    (listed : records k w.log ≡ ok es)
    (drawn : new_tx_id c (quiet_call first_now now (some random)) ≡ ok id)
    (fresh : lookup id txs ≡ none) where
  abbrev call : Call
  call = quiet_call first_now now (some random)

  abbrev job : Job
  job = record { id = id; operation = i.operation; target = mutation_target i.operation }

  abbrev opened_journal : Journal
  opened_journal = (begin c call i.operation [] w.journal).1

  -- The world on which the command runs.
  abbrev on_record : World S
  on_record = record {
    journal =
        (record_step c call id (dispatch_step (mutation_target i.operation)) opened_journal).1;
    log = record w.log { file = (prepare quiet_prepare w.log.file).1 };
    app = w.app;
  }

  is_fresh : (x : Bytes) → new_tx_id c call ≡ ok x → lookup x txs ≡ none
  is_fresh x e =
      let same : ok id ≡ ok x = sym drawn ∙ e in let one : id ≡ x = cc in rw (← one) fresh

  started : (begin c call i.operation [] w.journal).0 ≡ ok id
  started =
      begin-succeeds c total first_now now random i.operation id [] w.journal txs held
        (mutation_named i mutates) drawn

  abbrev first : Tx
  first = opened id (known i.operation w.journal.secrets) (sanitize_map [] w.journal.secrets) now

  abbrev opened_map : Transactions
  opened_map = begun_map call w.journal id i.operation [] txs

  opened_view : view c opened_journal ≡ ok opened_map
  opened_view = begun_view c faithful w.journal txs held i.operation id call call is_fresh started

  opened_there : lookup id opened_map ≡ some first
  opened_there = begun_there c faithful w.journal txs held i.operation id call call is_fresh started

  abbrev second : Tx
  second =
      with_step
        (dated first_now
          (sanitize_step (dispatch_step (mutation_target i.operation)) opened_journal.secrets))
        first

  step_done :
      ((record_step c call id (dispatch_step (mutation_target i.operation)) opened_journal).0
        ≡ ok tt)
      × (view c on_record.journal ≡ ok (insert id second opened_map))
  step_done =
      record_step-succeeds c faithful total first_now now (some random) opened_journal opened_map
        opened_view id first opened_there (dispatch_step (mutation_target i.operation))
        in_progress_open

  runs :
      execute c k (quiet_faults first_now now random audit_now) inner i w
      ≡ dispatched c k (quiet_faults first_now now random audit_now) job (inner on_record)
  unfolding execute
  runs = rw mutates (
      rw (lock_taken i.operation (mutation_named i mutates))
        (rw (prepare_done w.log.file) (rw started (rw step_done.0 refl))))

  closes :
      Closes c k faithful total k_faithful k_total first_now now audit_now random job
        (new_tx_id-named c call id drawn)
        (mutation_named i mutates)
        (target_named i.operation)
        (inner on_record).1
        (insert id second opened_map)
        second
        es
        (rw (leaves on_record).0 step_done.1)
        (lookup_inserted id second opened_map)
        in_progress_open
        (rw
          (leaves on_record).1
          (ap (λ (s : Bytes). parse_entries k (lines_of s)) (prepare_contents w.log.file) ∙ listed))
        (outcome_state (inner on_record).0)
        (outcome_result (inner on_record).0)
        (outcome_code (inner on_record).0)
        (inner on_record).0
        (dispatched c k (quiet_faults first_now now random audit_now) job (inner on_record))
  closes =
      dispatched-Closes c k faithful total k_faithful k_total first_now now audit_now random job
        (new_tx_id-named c call id drawn) (mutation_named i mutates) (target_named i.operation)
        (inner on_record).1 (insert id second opened_map) second es
        (rw (leaves on_record).0 step_done.1) (lookup_inserted id second opened_map)
        in_progress_open
        (rw (leaves on_record).1
          (ap (λ (s : Bytes). parse_entries k (lines_of s)) (prepare_contents w.log.file) ∙ listed))
        (inner on_record).0

  -- When no call fails, the encodings are faithful and total, and the command itself leaves the two
  -- logs as they are, `Execute` of a mutation on a world whose journal holds `txs` and whose audit log
  -- holds `es`, with a new ID: it runs the command once, on a world that differs in the logs only, and
  -- returns what the command returns; the transaction of that ID is then completed after exit code
  -- 0, interrupted after a cancellation and failed after any other error or code; and the audit log
  -- has one more record, with the ID, the name, the target, the result and the code of the command.
  pub execute-Completes :
      Completes c k inner w id i.operation es audit_now
        (execute c k (quiet_faults first_now now random audit_now) inner i w)
  execute-Completes = subst (Completes c k inner w id i.operation es audit_now) (sym runs) (record {
    run_on = on_record;
    untouched = refl;
    replied = closes.replied;
    ran = dispatched_app c k (quiet_faults first_now now random audit_now) job (inner on_record);
    after =
        insert id (with_state (outcome_state (inner on_record).0) second)
          (insert id second opened_map);
    tx = with_state (outcome_state (inner on_record).0) second;
    seen = closes.settled;
    there = lookup_inserted id _ _;
    settled = refl;
    audited_by =
        closes.recorded_by
        ∙ ap
            (λ (l : Log). ok (
              es
              ++ audited audit_now l.secrets job (outcome_result (inner on_record).0)
                  (outcome_code (inner on_record).0)
                ∷ []))
            (leaves on_record).1;
  })
