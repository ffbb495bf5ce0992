-- ===== src/Governance/Run/Dispatch.antt =====
-- When `Execute` lets a mutation run: only with the lock, and with the dispatch on record.
use pmux.Base.{true, ◌≡◌, refl, Option, none, some, List, [], Bytes, Bool-cases, inl, inr, ◌==◌}
use pmux.Base.Assoc.{lookup}
use pmux.Pmuxerr.{Result, ok, err, Err}
use pmux.Lock.{try_acquire}
use pmux.Journal.{Transactions}
use pmux.Journal.Encoding.{Encoding, IsFaithful}
use pmux.Journal.Store.{begin, record_step, commit, new_tx_id}
use pmux.Journal.Store.Spec.{view}
use pmux.Audit.{Coding, prepare}
use pmux.Governance.{Invocation, is_mutation, mutation_target}
use pmux.Governance.Run.{
  Reply, World, Faults, Job, dispatch_step, append_audit, persist_failure, fail_before_dispatch,
  committed, dispatched, recorded, stepped, begun, prepared, released, locked, mutate, execute,
}
use pmux.Governance.Run.Begun.{IsRecorded, begin_record-IsRecorded}

module _ {S : Type 0} (c : Encoding) (k : Coding) (f : Faults) where
  committed_app :
      (j : Job) (reply : Reply) (r : Result (Unit {0})) (w : World S)
      → (committed c k f j reply r w).1.app ≡ w.app
  unfolding committed append_audit
  committed_app j reply (ok u) w = refl
  committed_app j reply (err e) w = refl

  -- What follows the dispatch changes the two logs only.
  pub dispatched_app :
      (j : Job) (out : (Reply × Option Err) × World S) → (dispatched c k f j out).1.app ≡ out.1.app
  unfolding dispatched persist_failure append_audit
  dispatched_app j ((reply, some e), w) = refl
  dispatched_app j ((reply, none), w) = elim (Bool-cases (reply.exit_code == 0)) [
    | inl e ↦ rw e (committed_app j reply (commit c f.committing j.id w.journal).0 _)
    | inr e ↦ rw e refl
  ]

  module _ (inner : World S → (Reply × Option Err) × World S) where
    -- How `Execute` ends: with an error and everything but the logs as it was, or after one run of
    -- the command on a world in which its dispatch is on record.
    pub data Ends (secrets : List Bytes) (operation : Bytes) (app : S)
        : (Reply × Option Err) × World S → Type 0 where
      refused :
          (e : Err) (out : (Reply × Option Err) × World S)
          → out.0.1 ≡ some e
          → out.1.app ≡ app
          → Ends secrets operation app out
      ran :
          (v : World S) (out : (Reply × Option Err) × World S)
          → (try_acquire f.locking operation).0 ≡ ok tt
          → IsRecorded c secrets f.recording.first_now operation v.journal
          → v.app ≡ app
          → out.1.app ≡ (inner v).1.app
          → Ends secrets operation app out

    module _ (secrets : List Bytes) (operation : Bytes) (app : S) where
      released-Ends :
          (r : Option Err) (out : (Reply × Option Err) × World S)
          → Ends secrets operation app out
          → Ends secrets operation app (released c k f inner r out)
      released-Ends none out h = h
      released-Ends (some e) ((reply, some x), w) h = h
      released-Ends (some e) ((reply, none), w) (refused x out p q) = cc
      released-Ends (some e) ((reply, none), w) (ran v out l p q r) = ran v _ l p q r

      recorded-Ends :
          (try_acquire f.locking operation).0 ≡ ok tt
          → (j : Job) (o : Option Err) (w : World S)
          → IsRecorded c secrets f.recording.first_now operation w.journal
          → w.app ≡ app
          → Ends secrets operation app (recorded c k f inner j o w)
      unfolding recorded persist_failure append_audit
      recorded-Ends l j (some e) w h same = refused _ _ refl same
      recorded-Ends l j none w h same = ran w _ l h same (dispatched_app j (inner w))

      stepped-Ends :
          (try_acquire f.locking operation).0 ≡ ok tt
          → (j : Job) (r : Result (Unit {0})) (w : World S)
          → (r ≡ ok tt → IsRecorded c secrets f.recording.first_now operation w.journal)
          → w.app ≡ app
          → Ends secrets operation app (stepped c k f inner j r w)
      unfolding stepped fail_before_dispatch append_audit
      stepped-Ends l j (err e) w h same = refused _ _ refl same
      stepped-Ends l j (ok u) w h same = recorded-Ends l j f.canceled_after w (h refl) same

      begun-Ends :
          (try_acquire f.locking operation).0 ≡ ok tt
          → (r : Result Bytes) (w : World S)
          → ((id : Bytes)
              → r ≡ ok id
              → (record_step c f.recording id
                  (dispatch_step (mutation_target operation))
                  w.journal).0
                ≡ ok tt
              → IsRecorded c secrets f.recording.first_now operation
                  (record_step c f.recording id
                    (dispatch_step (mutation_target operation))
                    w.journal).1)
          → w.app ≡ app
          → Ends secrets operation app (begun c k f inner operation r w)
      unfolding begun
      begun-Ends l (err e) w h same = refused _ _ refl same
      begun-Ends l (ok id) w h same =
          stepped-Ends l _
            (record_step c f.recording id (dispatch_step (mutation_target operation)) w.journal).0 _
            (h id refl) same

    module _ (faithful : IsFaithful c) (operation : Bytes) (w : World S) (txs : Transactions)
        (held : view c w.journal ≡ ok txs)
        (fresh : (i : Bytes) → new_tx_id c f.beginning ≡ ok i → lookup i txs ≡ none) where
      prepared-Ends :
          (try_acquire f.locking operation).0 ≡ ok tt
          → (r : Result (Unit {0})) (v : World S) → v.journal ≡ w.journal
          → v.app ≡ w.app
          → Ends w.journal.secrets operation w.app (prepared c k f inner operation r v)
      unfolding prepared
      prepared-Ends l (err e) v j same = refused _ _ refl same
      prepared-Ends l (ok u) v j same = rw j (
          begun-Ends w.journal.secrets operation w.app l
            (begin c f.beginning operation [] w.journal).0 _
            (λ id started.
              begin_record-IsRecorded c faithful w.journal txs held operation id f.beginning
                f.recording fresh started)
            same)

      locked-Ends :
          (r : Result (Unit {0}))
          → (try_acquire f.locking operation).0 ≡ r
          → Ends w.journal.secrets operation w.app (locked c k f inner operation r w)
      unfolding locked
      locked-Ends (err e) l = refused _ _ refl refl
      locked-Ends (ok u) l =
          released-Ends w.journal.secrets operation w.app f.release _
            (prepared-Ends l (prepare f.preparing w.log.file).0 _ refl refl)

      mutate-Ends :
          (o : Option Err)
          → Ends w.journal.secrets operation w.app (mutate c k f inner operation o w)
      unfolding mutate
      mutate-Ends (some e) = refused _ _ refl refl
      mutate-Ends none = locked-Ends (try_acquire f.locking operation).0 refl

    -- `Execute` of a mutation with a faithful encoding, on a world whose journal holds `txs`, when the
    -- ID that it draws is not in `txs`, whichever calls fail: it returns an error and has changed
    -- nothing but the two logs; or it holds the lock and has run the command once, on a world that
    -- differs in the logs only and whose journal has a transaction in progress with the command's
    -- name and its dispatch as the only step, both redacted.
    pub execute-Ends :
        IsFaithful c
        → (i : Invocation) (w : World S) (txs : Transactions) → view c w.journal ≡ ok txs
        → ((id : Bytes) → new_tx_id c f.beginning ≡ ok id → lookup id txs ≡ none)
        → is_mutation i ≡ true
        → Ends w.journal.secrets i.operation w.app (execute c k f inner i w)
    unfolding execute
    execute-Ends faithful i w txs held fresh m =
        rw m (mutate-Ends faithful i.operation w txs held fresh f.canceled_before)
