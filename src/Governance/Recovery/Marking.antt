-- ===== src/Governance/Recovery/Marking.antt =====
-- What `recoverInterruptedPending` makes of the two logs.
use mathlib.Core.Path.{subst}
use pmux.Base.{
  ℕ, Bool, true, false, ◌≡◌, refl, sym, ap, ◌∙◌, Option, none, some, List, [], ◌∷◌, ◌++◌, Bytes,
  String, codes, Bool-cases, inl, inr, if◌then◌else◌, append_assoc, append-nil,
}
use pmux.Pmuxerr.{Result, ok, err, Err, ◌>>=◌, interrupted_code}
use pmux.Lock.{try_acquire, is_busy}
use pmux.Journal.{Tx, Transactions, interrupted, is_outcome}
use pmux.Journal.Encoding.{Encoding, IsFaithful}
use pmux.Journal.Store.{Journal, interrupt, pending}
use pmux.Journal.Store.Spec.{view, update, with_state, Refines, unchanged, updated}
use pmux.Journal.Store.Steps.{set_state-Refines}
use pmux.Audit.{Entry, Coding, Log, failed, append_entry}
use pmux.Audit.Reading as Records
use pmux.Audit.Reading.{records, Logged, kept, logged, append_entry-Logged}
use pmux.Governance.{mutation_target}
use pmux.Governance.Run.{World, Job, error_of, append_audit, audit_entry}
use pmux.Governance.Run.Closing.{audited, Logged-records}
use pmux.Governance.Recovery.{
  RecoveryFaults, is_in_progress, and_recover, recover_each, recover_listed, recover_locked,
  recover_unless, unless_busy, recover,
}

-- The transactions of a list that are in progress, interrupted.
unfoldable pub mark_all : List Tx → Transactions → Result Transactions
mark_all [] txs = ok txs
mark_all (tx ∷ more) txs =
    if is_in_progress tx.state_of
    then update tx.id (with_state interrupted) txs >>= mark_all more
    else mark_all more txs

abbrev pub job_of : Tx → Job
job_of tx = record { id = tx.id; operation = tx.operation; target = mutation_target tx.operation }

-- Their audit records.
unfoldable pub audit_all : (Bytes → ℕ) → List Bytes → List Tx → List Entry
audit_all now secrets [] = []
audit_all now secrets (tx ∷ more) =
    if is_in_progress tx.state_of
    then audited (now tx.id) secrets (job_of tx) failed interrupted_code
      ∷ audit_all now secrets more
    else audit_all now secrets more

abbrev reason : Bytes
reason = codes "interrupted mutation recovered at process startup"

interrupted-outcome : is_outcome interrupted ≡ true
unfolding is_outcome
interrupted-outcome = refl

-- A success is an update that the map accepts.
accepted :
    {c : Encoding} {txs : Transactions} {j : Journal} {spec : Result Transactions}
    (o : Result (Unit {0}) × Journal)
    → Refines c txs j spec o
    → o.0 ≡ ok tt
    → (next : Transactions) × (spec ≡ ok next) × (view c o.1 ≡ ok next)
accepted o (unchanged spec x j' h s) e = cc
accepted o (updated next r j' h s) e = (next, refl, h)

secrets_of :
    {k : Coding} {es : List Entry} {e : Entry} {l : Log} (o : Result (Unit {0}) × Log)
    → Logged k es e l o
    → o.1.secrets ≡ l.secrets
secrets_of o (kept x l' h s) = s
secrets_of o (logged r l' v h s) = s

no_error : (r : Result (Unit {0})) → error_of r ≡ none → r ≡ ok tt
no_error (ok u) h = refl
no_error (err e) h = cc

both_done :
    {S : Type 0} (a b : Option Err) (x y : String) (v u : World S) (rest : Option Err × World S)
    → (and_recover a x v (and_recover b y u rest)).0 ≡ none
    → (a ≡ none) × (b ≡ none) × (and_recover a x v (and_recover b y u rest) ≡ rest)
both_done none none x y v u rest h = (refl, refl, refl)
both_done none (some e) x y v u rest h = cc
both_done (some e) b x y v u rest h = cc

module _ {S : Type 0} (c : Encoding) (k : Coding) (f : RecoveryFaults) (faithful : IsFaithful c)
    (k_faithful : Records.IsFaithful k) where
  -- The two logs after the recovery of a list.
  pub record Marks (list : List Tx) (txs : Transactions) (es : List Entry) (secrets : List Bytes)
      (w : World S) : Type 0 where
    pub after : Transactions
    pub marked : mark_all list txs ≡ ok after
    pub seen : view c w.journal ≡ ok after
    pub listed : records k w.log ≡ ok (es ++ audit_all f.audit_now secrets list)

  recover_each-Marks :
      (list : List Tx) (w : World S) (txs : Transactions) (es : List Entry)
      → view c w.journal ≡ ok txs
      → records k w.log ≡ ok es
      → (recover_each c k f list w).0 ≡ none
      → Marks list txs es w.log.secrets (recover_each c k f list w).1
  unfolding recover_each append_audit interrupt mark_all audit_all
  recover_each-Marks [] w txs es held listed h = record {
    after = txs;
    marked = refl;
    seen = held;
    listed = listed ∙ ap (λ (l : List Entry). ok l) (sym (append-nil es));
  }
  recover_each-Marks (tx ∷ list) w txs es held listed h =
      elim (Bool-cases (is_in_progress tx.state_of)) [
        | inr e ↦
            let r = recover_each-Marks list w txs es held listed (rw e at h) in
            rw e (record {
              after = r.after;
              marked = rw e r.marked;
              seen = r.seen;
              listed = rw e r.listed;
            })
        | inl e ↦
            let i = interrupt c (f.interrupting tx.id) tx.id reason w.journal in
            let v : World S = record w { journal = i.1 } in
            let entry =
              audit_entry tx.id tx.operation (mutation_target tx.operation) failed
                interrupted_code in
            let a = append_entry k (f.auditing tx.id) (f.audit_now tx.id) entry w.log in
            let u : World S = record v { log = a.1 } in
            let (ei, ea, same) =
              both_done (error_of i.0) (error_of a.0)
                "PMux could not recover an interrupted mutation journal transaction."
                "PMux could not audit interrupted-mutation recovery." v u
                (recover_each c k f list u) (rw e at h) in
            let (next, spec, seen) =
              accepted i
                (set_state-Refines c faithful (f.interrupting tx.id) w.journal txs held tx.id
                  interrupted reason interrupted-outcome)
                (no_error i.0 ei) in
            let step =
              append_entry-Logged k k_faithful (f.auditing tx.id) (f.audit_now tx.id) entry w.log es
                listed in
            let r =
              recover_each-Marks list u next
                (es
                  ++ audited (f.audit_now tx.id) w.log.secrets (job_of tx) failed interrupted_code
                    ∷ [])
                seen (Logged-records a step (no_error a.0 ea))
                (ap (λ (o : Option Err × World S). o.0) (sym same) ∙ (rw e at h)) in
            rw e (
              subst (λ (o : Option Err × World S). Marks (tx ∷ list) txs es w.log.secrets o.1)
                (sym same)
                (record {
                  after = r.after;
                  marked = rw e (rw spec r.marked);
                  seen = r.seen;
                  listed =
                      r.listed
                      ∙ ap (λ (l : List Entry). ok l) (append_assoc es _ _)
                      ∙ ap
                          (λ (l : List Bytes). ok (
                            es
                            ++ audited (f.audit_now tx.id) w.log.secrets (job_of tx) failed
                                interrupted_code
                              ∷ audit_all f.audit_now l list))
                          (secrets_of a step)
                      ∙ sym (rw e refl);
                }))
      ]

  -- A recovery without error: another process holds the lock and nothing has changed, or the pending
  -- transactions are marked.
  pub data Recovers (w : World S) (txs : Transactions) (es : List Entry) (u : World S)
      : Type 0 where
    left_alone :
        (x : Err)
        → (try_acquire f.locking (codes "startup-recovery")).0 ≡ err x
        → is_busy x ≡ true
        → u ≡ w
        → Recovers w txs es u
    recovered :
        (list : List Tx)
        → (try_acquire f.locking (codes "startup-recovery")).0 ≡ ok tt
        → pending c f.reading w.journal ≡ ok list
        → Marks list txs es w.log.secrets u
        → Recovers w txs es u

  module _ (w : World S) (txs : Transactions) (es : List Entry) (held : view c w.journal ≡ ok txs)
      (listed : records k w.log ≡ ok es) where
    recover_listed-Recovers :
        (r : Result (List Tx))
        → (try_acquire f.locking (codes "startup-recovery")).0 ≡ ok tt
        → pending c f.reading w.journal ≡ r
        → (recover_listed c k f r w).0 ≡ none
        → Recovers w txs es (recover_listed c k f r w).1
    unfolding recover_listed
    recover_listed-Recovers (err e) l p h = cc
    recover_listed-Recovers (ok list) l p h =
        recovered list l p (recover_each-Marks list w txs es held listed h)

    busy_left :
        (x : Err)
        → (try_acquire f.locking (codes "startup-recovery")).0 ≡ err x
        → (b : Bool) → is_busy x ≡ b
        → (unless_busy b x w).0 ≡ none
        → Recovers w txs es (unless_busy b x w).1
    busy_left x l true e h = left_alone x l e refl
    busy_left x l false e h = cc

    recover_locked-Recovers :
        (r : Result (Unit {0}))
        → (try_acquire f.locking (codes "startup-recovery")).0 ≡ r
        → (recover_locked c k f r w).0 ≡ none
        → Recovers w txs es (recover_locked c k f r w).1
    unfolding recover_locked
    recover_locked-Recovers (err x) l h = busy_left x l (is_busy x) refl h
    recover_locked-Recovers (ok u) l h =
        recover_listed-Recovers (pending c f.reading w.journal) l refl h

    recover_unless-Recovers :
        (o : Option Err)
        → (recover_unless c k f o w).0 ≡ none
        → Recovers w txs es (recover_unless c k f o w).1
    unfolding recover_unless
    recover_unless-Recovers (some e) h = cc
    recover_unless-Recovers none h =
        recover_locked-Recovers (try_acquire f.locking (codes "startup-recovery")).0 refl h

    -- If `recoverInterruptedPending`, with faithful encodings, on a world whose journal holds `txs` and
    -- whose audit log holds `es`, returns no error, whichever calls it met: another process held the
    -- lock and nothing has changed; or it held the lock, the transactions that `Pending` listed as in
    -- progress are interrupted in the journal and the others are as they were, and the audit log has
    -- a record of each of them, as interrupted, behind `es`.
    pub recover-Recovers : (recover c k f w).0 ≡ none → Recovers w txs es (recover c k f w).1
    unfolding recover
    recover-Recovers h = recover_unless-Recovers f.canceled h
