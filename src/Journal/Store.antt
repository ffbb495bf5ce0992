-- ===== src/Journal/Store.antt =====
-- The methods of `Journal`: what they read, check and append.
pub mod Reading
pub mod Accept
pub mod Steps
pub mod Begin
pub mod Pending
pub mod Success
pub mod Opening
pub mod Spec
use pmux.Base.{
  ℕ, zero, suc, ◌+◌, ◌/◌, ◌%◌, ltb, Bool, true, false, ◌&&◌, not, Option, none, some, List, [], ◌∷◌,
  ◌++◌, Bytes, String, ◌==◌, bytes_eq, codes, if◌then◌else◌,
}
use pmux.Pmuxerr.{
  Result, ok, err, ◌>>=◌, ◌>>◌, Err, new_error, wrap, foreign, journal_corrupt, unhandled_internal,
  config_validation_failed, internal, environment, user,
}
use pmux.Redact.{known}
use pmux.Files.{newline, File, Messages, AppendFaults, append, read_lines}
use pmux.Journal.{
  Event, Tx, TxState, Step, EventType, event_version, u64, corrupt, other_state, in_progress,
  completed, failed, interrupted, rolled_back, fold, require_pending, last_sequence, next_sequence,
  sanitize_map, sanitize_step, select_pending, sort_txs,
}
use pmux.Journal.Encoding.{Encoding}

-- `Journal`: the file at its path, and the secrets that it knows.
pub record Journal : Type 0 where
  pub file : File
  pub secrets : List Bytes

-- `RegisterKnownSecrets`, and `WithKnownSecrets` on a new journal.
unfoldable pub register_known_secrets : List Bytes → Journal → Journal
register_known_secrets values j = record j { secrets = j.secrets ++ values }

abbrev pub messages : Messages
messages = record {
  trim_code = journal_corrupt;
  open_for_recovery = "could not open operation journal for recovery";
  inspect = "could not inspect operation journal for recovery";
  inspect_tail = "could not inspect operation journal tail";
  scan_tail = "could not scan operation journal tail";
  remove_torn = "could not remove torn journal record";
  flush_recovery = "could not flush journal recovery";
  append_code = journal_corrupt;
  create_dir = "could not create operation journal directory";
  protect_dir = "could not protect operation journal directory";
  open_for_append = "could not open operation journal for append";
  protect_file = "could not protect operation journal";
  append_record = "could not append operation journal";
  flush = "could not flush operation journal";
  close = "could not close operation journal";
  flush_dir = "could not flush operation journal directory";
}

-- Which calls of `readEvents` fail; a failing read has delivered some bytes before.
pub record ReadFaults : Type 0 where
  pub open_file : Option Err
  pub read : Option (ℕ × Err)

-- What a method meets outside: failing calls, two readings of the clock, and the random bytes.
pub record Call : Type 0 where
  pub reading : ReadFaults
  pub writing : AppendFaults
  pub first_now : ℕ
  pub now : ℕ
  pub random : Option Bytes

-- One line of the file, behind an event with sequence `last`.
unfoldable pub parse_line : Encoding → ℕ → Bytes → Result Event
parse_line c last line = elim (c.decode line) [
  | none ↦ err (corrupt "operation journal contains invalid JSON")
  | some e ↦
      if e.version == event_version && e.sequence == u64 (last + 1) && not (bytes_eq e.tx_id [])
      then ok e
      else err (corrupt "operation journal sequence or version is invalid")
]

unfoldable pub read_loop : Encoding → ℕ → List Bytes → Result (List Event)
unfolding parse_line
read_loop c last [] = ok []
read_loop c last (line ∷ lines) =
    parse_line c last line >>= λ e. read_loop c e.sequence lines >>= λ events. ok (e ∷ events)

-- A read that fails in the middle: the unterminated rest is parsed too, and then the error returned.
unfoldable pub read_broken : Encoding → List Bytes × Bytes → Err → Result (List Event)
unfolding read_loop parse_line
read_broken c (lines, rest) e = read_loop c 0 lines >>= λ events.
    (if bytes_eq rest [] then ok tt else parse_line c (last_sequence 0 events) rest >>= λ _. ok tt)
    >> err (wrap e journal_corrupt environment "could not read operation journal")

-- `readEvents`; at the end of the file an unterminated rest is skipped.
unfoldable pub read_events : Encoding → ReadFaults → File → Result (List Event)
unfolding read_loop read_broken
read_events c f none = ok []
read_events c f (some file) = elim f.open_file [
  | some e ↦ err (wrap e journal_corrupt environment "could not open operation journal")
  | none ↦ elim f.read [
    | none ↦ read_loop c 0 (read_lines file).0
    | some (n, e) ↦ read_broken c (read_lines (pmux.Base.take n file)) e
  ]
]

-- `append` of an event.
unfoldable pub append_event : Encoding → AppendFaults → Event → File → Result (Unit {0}) × File
unfolding append
append_event c f e file = elim (c.encode e) [
  | none ↦ (
    err (
        wrap (foreign "json: unsupported value") unhandled_internal internal
          "could not encode operation journal record"),
    file,
  )
  | some payload ↦ append messages f (payload ++ newline ∷ []) file
]

-- The append at the end of a method, if nothing failed before.
unfoldable pub store_event : Encoding → Call → Journal → Result Event → Result (Unit {0}) × Journal
unfolding append_event
store_event c call j (err e) = (err e, j)
store_event c call j (ok e) =
    let (r, g) = append_event c call.writing e j.file in (r, record j { file = g })

hex_digit : ℕ → ℕ
hex_digit n = if ltb n 10 then n + 48 else n + 87

-- `hex.EncodeToString`.
unfoldable pub hex : Bytes → Bytes
unfolding hex_digit
hex [] = []
hex (b ∷ bytes) = hex_digit (b / 16) ∷ hex_digit (b % 16) ∷ hex bytes

-- `newTxID`.
unfoldable pub new_tx_id : Encoding → Call → Result Bytes
unfolding hex
new_tx_id c call = elim call.random [
  | none ↦ err (
      wrap (foreign "rand: read failed") unhandled_internal internal
        "could not create operation ID")
  | some suffix ↦ ok (codes "op_" ++ (c.stamp call.first_now ++ (codes "_" ++ hex suffix)))
]

-- The events that the methods append, behind the events that they have read.
abbrev pub begin_event : Call → Journal → List Event → Bytes → Bytes → List (Bytes × Bytes) → Event
begin_event call j events id operation metadata = record {
  version = event_version;
  sequence = next_sequence events;
  timestamp = call.now;
  type = EventType.begin;
  tx_id = id;
  operation = known operation j.secrets;
  metadata = sanitize_map metadata j.secrets;
  step_of = none;
  state_of = in_progress;
  reason = [];
}

abbrev pub dated : ℕ → Step → Step
dated now s = if s.at == 0 then record s { at = now } else s

abbrev pub step_event : Call → Journal → List Event → Bytes → Step → Event
step_event call j events id s = record {
  version = event_version;
  sequence = next_sequence events;
  timestamp = call.now;
  type = EventType.step;
  tx_id = id;
  operation = [];
  metadata = [];
  step_of = some (dated call.first_now (sanitize_step s j.secrets));
  state_of = other_state [];
  reason = [];
}

abbrev pub state_event : Call → Journal → List Event → Bytes → TxState → Bytes → Event
state_event call j events id s reason = record {
  version = event_version;
  sequence = next_sequence events;
  timestamp = call.now;
  type = EventType.state;
  tx_id = id;
  operation = [];
  metadata = [];
  step_of = none;
  state_of = s;
  reason = known reason j.secrets;
}

-- `Begin` up to its append: the ID and the event.
unfoldable pub prepare_begin :
    Encoding → Call → Bytes → List (Bytes × Bytes) → Journal → Result (Bytes × Event)
unfolding new_tx_id read_events
prepare_begin c call operation metadata j =
    if bytes_eq operation []
    then err (new_error config_validation_failed user "journal operation cannot be empty")
    else do
      id ← new_tx_id c call
      events ← read_events c call.reading j.file
      ok (id, begin_event call j events id operation metadata)

-- `Begin`.
unfoldable pub begin :
    Encoding → Call → Bytes → List (Bytes × Bytes) → Journal → Result Bytes × Journal
unfolding prepare_begin store_event
begin c call operation metadata j =
    let prepared = prepare_begin c call operation metadata j in
    let (r, j') = store_event c call j (prepared >>= λ p. ok p.1) in
    (r >> (prepared >>= λ p. ok p.0), j')

unfoldable pub prepare_record : Encoding → Call → Bytes → Step → Journal → Result Event
unfolding read_events
prepare_record c call id s j = do
  events ← read_events c call.reading j.file
  require_pending events id
  ok (step_event call j events id s)

-- `Record`.
unfoldable pub record_step : Encoding → Call → Bytes → Step → Journal → Result (Unit {0}) × Journal
unfolding prepare_record store_event
record_step c call id s j = store_event c call j (prepare_record c call id s j)

unfoldable pub prepare_state : Encoding → Call → Bytes → TxState → Bytes → Journal → Result Event
unfolding read_events
prepare_state c call id s reason j = do
  events ← read_events c call.reading j.file
  require_pending events id
  ok (state_event call j events id s reason)

-- `setState`.
unfoldable pub set_state :
    Encoding → Call → Bytes → TxState → Bytes → Journal → Result (Unit {0}) × Journal
unfolding prepare_state store_event
set_state c call id s reason j = store_event c call j (prepare_state c call id s reason j)

-- `Commit`, `Rollback`, `Interrupt` and `Fail`.
unfoldable pub commit : Encoding → Call → Bytes → Journal → Result (Unit {0}) × Journal
unfolding set_state
commit c call id = set_state c call id completed []

unfoldable pub rollback : Encoding → Call → Bytes → Journal → Result (Unit {0}) × Journal
unfolding set_state
rollback c call id = set_state c call id rolled_back []

unfoldable pub interrupt : Encoding → Call → Bytes → Bytes → Journal → Result (Unit {0}) × Journal
unfolding set_state
interrupt c call id reason = set_state c call id interrupted reason

unfoldable pub fail : Encoding → Call → Bytes → Bytes → Journal → Result (Unit {0}) × Journal
unfolding set_state
fail c call id reason = set_state c call id failed reason

-- `Pending`.
unfoldable pub pending : Encoding → ReadFaults → Journal → Result (List Tx)
unfolding read_events
pending c f j = do
  events ← read_events c f j.file
  txs ← fold events
  ok (sort_txs (select_pending txs))
