-- ===== src/Governance/Recovery.antt =====
-- `recoverInterruptedPending` of internal/runtime/governance.go, which runs when PMux starts.
pub mod Marking
use pmux.Base.{
  ℕ, Bool, true, false, Option, none, some, List, [], ◌∷◌, Bytes, String, codes, if◌then◌else◌,
}
use pmux.Pmuxerr.{Result, ok, err, Err, interrupted_code}
use pmux.Files.{AppendFaults}
use pmux.Lock.{LockFaults, try_acquire, is_busy}
use pmux.Journal.{Tx, TxState, in_progress}
use pmux.Journal.Encoding.{Encoding}
use pmux.Journal.Store.{Call, ReadFaults, interrupt, pending}
use pmux.Audit.{Coding, failed}
use pmux.Governance.{mutation_target}
use pmux.Governance.Run.{World, Job, error_of, persistence, canceled_governance, append_audit}

-- What `recoverInterruptedPending` meets outside, the calls for a transaction by its ID.
pub record RecoveryFaults : Type 0 where
  pub canceled : Option Err
  pub locking : LockFaults
  pub reading : ReadFaults
  pub interrupting : Bytes → Call
  pub auditing : Bytes → AppendFaults
  pub audit_now : Bytes → ℕ

abbrev pub is_in_progress : TxState → Bool
is_in_progress in_progress = true
is_in_progress _ = false

abbrev and_recover :
    {S : Type 0} → Option Err → String → World S → Option Err × World S → Option Err × World S
and_recover (some e) message w next = (some (persistence e message), w)
and_recover none message w next = next

-- Another process that holds the lock owns the recovery.
abbrev pub unless_busy : {S : Type 0} → Bool → Err → World S → Option Err × World S
unless_busy true e w = (none, w)
unless_busy false e w = (some e, w)

module _ {S : Type 0} (c : Encoding) (k : Coding) (f : RecoveryFaults) where
  -- The loop of `recoverInterruptedPending`.
  unfoldable pub recover_each : List Tx → World S → Option Err × World S
  unfolding append_audit mutation_target
  recover_each [] w = (none, w)
  recover_each (tx ∷ txs) w =
      let (r, journal') =
        interrupt c (f.interrupting tx.id) tx.id
          (codes "interrupted mutation recovered at process startup") w.journal in
      let v : World S = record w { journal = journal' } in
      let job : Job = record {
        id = tx.id;
        operation = tx.operation;
        target = mutation_target tx.operation;
      } in
      let (a, u) =
        append_audit k (f.auditing tx.id) (f.audit_now tx.id) job failed interrupted_code v in
      let rest = recover_each txs u in
      let skipped = recover_each txs w in
      if is_in_progress tx.state_of
      then and_recover (error_of r)
          "PMux could not recover an interrupted mutation journal transaction." v
          (and_recover a "PMux could not audit interrupted-mutation recovery." u rest)
      else skipped

  unfoldable pub recover_listed : Result (List Tx) → World S → Option Err × World S
  unfolding recover_each
  recover_listed (err e) w =
      (some (persistence e "PMux could not inspect interrupted operation journal state."), w)
  recover_listed (ok txs) w = recover_each txs w

  unfoldable pub recover_locked : Result (Unit {0}) → World S → Option Err × World S
  unfolding is_busy recover_listed
  recover_locked (err e) w = unless_busy (is_busy e) e w
  recover_locked (ok u) w = recover_listed (pending c f.reading w.journal) w

  unfoldable pub recover_unless : Option Err → World S → Option Err × World S
  unfolding try_acquire recover_locked
  recover_unless (some e) w = (some (canceled_governance e), w)
  recover_unless none w = recover_locked (try_acquire f.locking (codes "startup-recovery")).0 w

  -- `recoverInterruptedPending`.
  unfoldable pub recover : World S → Option Err × World S
  unfolding recover_unless
  recover w = recover_unless f.canceled w
