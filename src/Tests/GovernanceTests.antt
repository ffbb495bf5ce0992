-- ===== src/Tests/GovernanceTests.antt =====
-- The audit log, the lock and governance at concrete inputs.
use mathlib.Core.List.{Memᴰ}
use pmux.Base.{
  ℕ, suc, ◌≡◌, ◌↔◌, ◌⊎◌, refl, Bool, true, false, Option, none, some, [], ◌∷◌, Bytes, codes, All,
  contains, bytes_eq, arith,
}
use pmux.Base.Assoc.{lookup}
use pmux.Pmuxerr.{
  Result, ok, Err, fields, new_error, network, user, first_fields, exit_code, code_exit_code,
  internal_code,
}
use pmux.Files.Quiet.{quiet}
use pmux.Files.{read_lines}
use pmux.Redact.Known.{IsOpaque}
use pmux.Lock.{
  Round, LockFaults, ReleaseFaults, try_acquire, acquire, is_busy, busy_error, outlasts, release,
  with_mutation,
}
use pmux.Lock.Waiting.{acquire-succeeds, Waits}
use pmux.Lock.Mutation.{Mutated, with_mutation-Mutated}
use pmux.Audit.{Entry, Log, succeeded, append_entry, parse_entries, sanitize_entry}
use pmux.Audit.Reading.{records, Logged, append_entry-Logged}
use pmux.Audit.Accept.{append_entry_accepts, is_complete, sanitize_entry-hides, texts, names}
use pmux.Audit.Wire as AuditWire
use pmux.Journal.{Tx, fold}
use pmux.Journal.Store.{new_tx_id, read_loop}
use pmux.Journal.Store.Spec.{view}
use pmux.Journal.Store.Success.{quiet_call}
use pmux.Journal.Wire.{wire, wire-IsFaithful, wire-IsTotal}
use pmux.Governance.{Invocation, is_mutation, canonical_exit_code, canonical_error_code}
use pmux.Governance.Codes.{canonical_exit_code_sound, audited_codes_agree}
use pmux.Governance.Run.{Reply, World, Faults, execute}
use pmux.Governance.Run.Closing.{free_lock, quiet_faults}
use pmux.Governance.Run.Dispatch.{Ends, execute-Ends}
use pmux.Governance.Run.Completion.{Completes, execute-Completes}
use pmux.Journal.{next_sequence, sanitize_map, require_pending, sort_txs, select_pending}
use pmux.Journal.Store.{begin, hex, pending, interrupt}
use pmux.Journal.Wire.Coders.{put_nat, get_nat, put_all, get_all}
use pmux.Files.{append}
use pmux.Redact.{known}
use pmux.Base.Assoc.{insert}
use pmux.Governance.{mutation_target}
use pmux.Governance.Recovery.{RecoveryFaults, recover}
use pmux.Governance.Recovery.Marking.{Recovers, recover-Recovers}
use pmux.Tests.JournalTests.{call, one, one-view, one_map}

abbrev empty_log : Log
empty_log = record { file = none; secrets = [] }

no_records : records AuditWire.wire empty_log ≡ ok []
unfolding read_lines parse_entries
no_records = refl

abbrev an_entry : Entry
an_entry = record {
  version = 0;
  timestamp = 0;
  operation = 1 ∷ [];
  actor = 2 ∷ [];
  command = 3 ∷ [];
  target = 4 ∷ [];
  params = [];
  outcome = succeeded;
  error_code = [];
}

append_entry-Logged_example :
    Logged AuditWire.wire []
      (sanitize_entry 7 [] an_entry)
      empty_log
      (append_entry AuditWire.wire quiet 7 an_entry empty_log)
append_entry-Logged_example =
    append_entry-Logged AuditWire.wire AuditWire.wire-IsFaithful quiet 7 an_entry empty_log []
      no_records

append_entry_accepts_example :
    ((append_entry AuditWire.wire quiet 7 an_entry empty_log).0 ≡ ok tt)
    ↔ (is_complete an_entry ≡ true)
append_entry_accepts_example =
    append_entry_accepts AuditWire.wire AuditWire.wire-IsTotal 7 an_entry empty_log

abbrev secret : Bytes
secret = codes "sk-abcdef-123"

secret-IsOpaque : IsOpaque secret
secret-IsOpaque = omega arith

abbrev leaky : Entry
leaky = record an_entry {
  command = codes "use sk-abcdef-123";
  params = (codes "note", codes "is sk-abcdef-123") ∷ (secret, codes "x") ∷ [];
}

sanitize_entry-hides_example :
    All (λ t. contains t secret ≡ false) (texts (sanitize_entry 7 (secret ∷ []) leaky))
    × (names (sanitize_entry 7 (secret ∷ []) leaky).params ≡ codes "note" ∷ secret ∷ [])
sanitize_entry-hides_example =
    sanitize_entry-hides 7 (secret ∷ []) leaky secret secret-IsOpaque (Memᴰ.head refl)

-- Another process holds the lock in the first round.
abbrev busy_round : Round
busy_round = record { faults = record free_lock { holder = some "pid 7" }; ended = none }

abbrev free_round : Round
free_round = record { faults = free_lock; ended = none }

abbrev taken : Result (Unit {0}) × Bool
taken = (ok tt, true)

second_round : acquire (busy_round ∷ free_round ∷ []) (codes "setup") ≡ some (ok tt, true)
unfolding acquire bytes_eq
second_round = refl

abbrev down : Err
down = new_error network user "down"

-- The mutation counts its runs; its release cannot unlock, but can close.
abbrev count : ℕ → Result (Unit {0}) × ℕ
count n = (ok tt, suc n)

abbrev not_unlocked : ReleaseFaults
not_unlocked = record { unlock = some down; close = none }

counted :
    with_mutation (busy_round ∷ free_round ∷ []) not_unlocked (codes "setup") count 0
    ≡ some (ok tt, (false, 1))
unfolding with_mutation bytes_eq
counted = refl

with_mutation-Mutated_example :
    Mutated (busy_round ∷ free_round ∷ []) (codes "setup") not_unlocked count 0 (ok tt, (false, 1))
with_mutation-Mutated_example =
    with_mutation-Mutated (busy_round ∷ free_round ∷ []) (codes "setup") not_unlocked count 0
      (ok tt, (false, 1)) counted

-- The second release makes no call, and returns the error of the first.
released_once :
    release
      (record { unlock = none; close = some down })
      ((release not_unlocked (record { is_held = true; released = none })).1)
    ≡ (some down, record { is_held = false; released = some (some down) })
unfolding release outlasts
released_once = refl

-- The metadata cannot be written, and neither call of the release succeeds.
abbrev stuck_lock : LockFaults
stuck_lock = record free_lock { write = some down; unlock = some down; close = some down }

stuck_held : (try_acquire stuck_lock (codes "setup")).1 ≡ true
unfolding try_acquire bytes_eq
stuck_held = refl

busy-Waits : Waits (codes "setup") busy_round
unfolding try_acquire bytes_eq is_busy
busy-Waits = record {
  cause = busy_error "pid 7";
  refused = refl;
  still_busy = refl;
  not_ended = refl;
}

lock_free : (try_acquire free_lock (codes "setup")).0 ≡ ok tt
unfolding try_acquire bytes_eq
lock_free = refl

acquire-succeeds_example :
    acquire (busy_round ∷ free_round ∷ []) (codes "setup") ≡ some (ok tt, true)
acquire-succeeds_example =
    acquire-succeeds (busy_round ∷ []) [] free_round (codes "setup") (busy-Waits, tt) lock_free

canonical_code_again :
    (code_exit_code (canonical_exit_code 6) ≡ 6) ⊎ (canonical_exit_code 6 ≡ internal_code)
canonical_code_again = canonical_exit_code_sound 6 (omega arith)

down-fields : first_fields down ≡ some (fields network user "down")
unfolding first_fields
down-fields = refl

audited_codes_agree_example :
    (code_exit_code (canonical_exit_code (exit_code (some down))) ≡ exit_code (some down))
    × (code_exit_code (canonical_error_code down) ≡ exit_code (some down))
audited_codes_agree_example = audited_codes_agree down (fields network user "down") down-fields refl

-- A command that counts its runs and exits with 6.
abbrev counting : World ℕ → (Reply × Option Err) × World ℕ
counting w = ((record { exit_code = 6; body = [] }, none), record w { app = suc w.app })

abbrev setup : Invocation
setup = record { operation = codes "setup"; options = [] }

setup_mutates : is_mutation setup ≡ true
unfolding is_mutation bytes_eq
setup_mutates = refl

abbrev start : World ℕ
start = record { journal = record { file = none; secrets = [] }; log = empty_log; app = 0 }

start_view : view wire start.journal ≡ ok []
unfolding read_lines read_loop fold
start_view = refl

abbrev run_id : Bytes
run_id = 111 ∷ 112 ∷ 95 ∷ 95 ∷ []

run_drawn : new_tx_id wire (quiet_call 3 4 (some [])) ≡ ok run_id
unfolding new_tx_id
run_drawn = refl

unused : (id : Bytes) → lookup {V = Tx} id [] ≡ none
unfolding lookup
unused id = refl

execute-Completes_example :
    Completes wire AuditWire.wire counting start run_id
      (codes "setup")
      []
      5
      (execute wire AuditWire.wire (quiet_faults 3 4 [] 5) counting setup start)
execute-Completes_example =
    execute-Completes wire AuditWire.wire wire-IsFaithful wire-IsTotal AuditWire.wire-IsFaithful
      AuditWire.wire-IsTotal 3 4 5 [] counting (λ _. (refl, refl)) setup setup_mutates start [] []
      run_id start_view no_records run_drawn (unused run_id)

-- Another process holds the lock.
abbrev held_elsewhere : Faults
held_elsewhere = record (quiet_faults 3 4 [] 5) { locking = busy_round.faults }

execute-Ends_example :
    Ends wire AuditWire.wire held_elsewhere counting []
      (codes "setup")
      0
      (execute wire AuditWire.wire held_elsewhere counting setup start)
execute-Ends_example =
    execute-Ends wire AuditWire.wire held_elsewhere counting wire-IsFaithful setup start []
      start_view (λ id _. unused id) setup_mutates

-- A process that ended in the middle of a mutation.
abbrev crashed : World ℕ
crashed = record { journal = one; log = empty_log; app = 0 }

abbrev recovery : RecoveryFaults
recovery = record {
  canceled = none;
  locking = free_lock;
  reading = record { open_file = none; read = none };
  interrupting = λ _. call;
  auditing = λ _. quiet;
  audit_now = λ _. 9;
}

recovery_done : (recover wire AuditWire.wire recovery crashed).0 ≡ none
unfolding recover bytes_eq begin append fold read_lines read_loop put_nat get_nat put_all get_all
    next_sequence hex known sanitize_map lookup insert require_pending append_entry is_complete
    mutation_target pending sort_txs select_pending interrupt
recovery_done = refl

recover-Recovers_example :
    Recovers wire AuditWire.wire recovery wire-IsFaithful AuditWire.wire-IsFaithful crashed one_map
      []
      (recover wire AuditWire.wire recovery crashed).1
recover-Recovers_example =
    recover-Recovers wire AuditWire.wire recovery wire-IsFaithful AuditWire.wire-IsFaithful crashed
      one_map [] one-view no_records recovery_done
