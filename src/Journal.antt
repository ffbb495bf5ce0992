-- ===== src/Journal.antt =====
-- internal/journal/journal.go and internal/domain/journal/journal.go: the operation journal, a file
-- of JSON lines from which the transactions are folded.
pub mod Encoding
pub mod Fold
pub mod History
pub mod Store
pub mod Wire
pub mod Order
use pmux.Base.{
  ℕ, ◌+◌, ◌%◌, ◌^◌, Bool, true, false, ◌&&◌, ◌||◌, not, Option, none, some, List, [], ◌∷◌, ◌++◌,
  Bytes, String, ◌==◌, bytes_eq, bytes_lt, ltb, codes, map, if◌then◌else◌,
}
use pmux.Base.Assoc.{lookup, insert}
use pmux.Pmuxerr.{
  Result, ok, err, ◌>>=◌, ◌>>◌, Err, new_error, journal_corrupt, config_mutation_conflict, internal,
  environment,
}
use pmux.Redact.{known, redact_map}

-- The strings of `Tx.State` and of `event.State`.
pub data TxState : Type 0 where
  in_progress completed failed interrupted rolled_back : TxState
  other_state : Bytes → TxState

-- `event.Type`.
pub data EventType : Type 0 where
  begin step state : EventType
  other_type : Bytes → EventType

pub record Step : Type 0 where
  pub name : Bytes
  pub action : Bytes
  pub target : Bytes
  pub undo : List (Bytes × Bytes)
  pub at : ℕ

-- Times are nanoseconds since the zero time.
pub record Event : Type 0 where
  pub version : ℕ
  pub sequence : ℕ  -- uint64
  pub timestamp : ℕ
  pub type : EventType
  pub tx_id : Bytes
  pub operation : Bytes
  pub metadata : List (Bytes × Bytes)
  pub step_of : Option Step
  pub state_of : TxState
  pub reason : Bytes

pub record Tx : Type 0 where
  pub id : Bytes
  pub operation : Bytes
  pub metadata : List (Bytes × Bytes)
  pub steps : List Step
  pub state_of : TxState
  pub began_at : ℕ

abbrev pub Transactions : Type 0
Transactions = List (Bytes × Tx)

abbrev pub event_version : ℕ
event_version = 1

abbrev pub u64 : ℕ → ℕ
u64 n = n % 2 ^ 64

-- `corrupt`.
abbrev pub corrupt : String → Err
corrupt message = new_error journal_corrupt internal message

-- `tx.State == StateCompleted || tx.State == StateRolledBack`.
unfoldable pub is_closed : TxState → Bool
is_closed completed = true
is_closed rolled_back = true
is_closed _ = false

-- The states that a state event may bring.
unfoldable pub is_outcome : TxState → Bool
is_outcome completed = true
is_outcome failed = true
is_outcome interrupted = true
is_outcome rolled_back = true
is_outcome _ = false

abbrev begun : Event → Tx
begun e = record {
  id = e.tx_id;
  operation = e.operation;
  metadata = e.metadata;
  steps = [];
  state_of = in_progress;
  began_at = e.timestamp;
}

fold_begin : Event → Transactions → Option Tx → Result Transactions
fold_begin e txs (some _) = err (corrupt "duplicate journal transaction")
fold_begin e txs none = ok (insert e.tx_id (begun e) txs)

fold_step : Event → Transactions → Option Tx → Option Step → Result Transactions
fold_step e txs none _ = err (corrupt "journal step has no transaction")
fold_step e txs (some tx) none = err (corrupt "journal step has no transaction")
fold_step e txs (some tx) (some s) =
    if is_closed tx.state_of
    then err (corrupt "journal step follows a closed transaction")
    else ok (insert e.tx_id (record tx { steps = tx.steps ++ s ∷ [] }) txs)

fold_state : Event → Transactions → Option Tx → Result Transactions
unfolding is_closed is_outcome
fold_state e txs none = err (corrupt "journal state has no transaction")
fold_state e txs (some tx) =
    if is_closed tx.state_of
    then err (corrupt "journal state follows a closed transaction")
    else if is_outcome e.state_of
    then ok (insert e.tx_id (record tx { state_of = e.state_of }) txs)
    else err (corrupt "journal contains an invalid transaction state")

fold_type : EventType → Event → Transactions → Result Transactions
unfolding fold_begin fold_step fold_state
fold_type begin e txs = fold_begin e txs (lookup e.tx_id txs)
fold_type step e txs = fold_step e txs (lookup e.tx_id txs) e.step_of
fold_type state e txs = fold_state e txs (lookup e.tx_id txs)
fold_type (other_type _) e txs = err (corrupt "journal contains an unknown event")

-- One round of the loop of `fold`.
unfoldable pub fold_event : Transactions → Event → Result Transactions
unfolding fold_type
fold_event txs e = fold_type e.type e txs

unfoldable pub fold_from : Transactions → List Event → Result Transactions
unfolding fold_event
fold_from txs [] = ok txs
fold_from txs (e ∷ events) = fold_event txs e >>= λ next. fold_from next events

-- `fold`.
unfoldable pub fold : List Event → Result Transactions
unfolding fold_from
fold events = fold_from [] events

-- `requirePending`.
unfoldable pub pending_tx : Option Tx → Result (Unit {0})
unfolding is_closed
pending_tx none = err (corrupt "journal transaction does not exist")
pending_tx (some tx) =
    if is_closed tx.state_of
    then err
        (new_error config_mutation_conflict environment "journal transaction is already closed")
    else ok tt

unfoldable pub require_pending : List Event → Bytes → Result (Unit {0})
unfolding fold pending_tx
require_pending events id = fold events >>= λ txs. pending_tx (lookup id txs)

-- The sequence of the last event, 0 if there is none.
unfoldable pub last_sequence : ℕ → List Event → ℕ
last_sequence last [] = last
last_sequence last (e ∷ events) = last_sequence e.sequence events

-- `nextSequence`.
unfoldable pub next_sequence : List Event → ℕ
unfolding last_sequence
next_sequence [] = 1
next_sequence (e ∷ events) = u64 (last_sequence e.sequence events + 1)

-- `sanitizeMap`, of which an empty map stands for the nil one.
unfoldable pub sanitize_map : List (Bytes × Bytes) → List Bytes → List (Bytes × Bytes)
unfolding known redact_map
sanitize_map input secrets = map (λ p. (p.0, known p.1 secrets)) (redact_map input)

-- `sanitizeStep`.
unfoldable pub sanitize_step : Step → List Bytes → Step
unfolding known sanitize_map
sanitize_step s secrets = record s {
  name = known s.name secrets;
  action = known s.action secrets;
  target = known s.target secrets;
  undo = sanitize_map s.undo secrets;
}

-- `Pending` lists these.
unfoldable pub is_pending : TxState → Bool
is_pending in_progress = true
is_pending interrupted = true
is_pending failed = true
is_pending _ = false

-- The order of `Pending`: by time, then by ID.
unfoldable pub tx_less : Tx → Tx → Bool
tx_less a b = if a.began_at == b.began_at then bytes_lt a.id b.id else ltb a.began_at b.began_at

-- `sort.Slice` by `tx_less`, which orders transactions with distinct IDs totally.
unfoldable pub insert_tx : Tx → List Tx → List Tx
unfolding tx_less
insert_tx t [] = t ∷ []
insert_tx t (u ∷ ts) = if tx_less u t then u ∷ insert_tx t ts else t ∷ u ∷ ts

unfoldable pub sort_txs : List Tx → List Tx
unfolding insert_tx
sort_txs [] = []
sort_txs (t ∷ ts) = insert_tx t (sort_txs ts)

unfoldable pub select_pending : Transactions → List Tx
unfolding is_pending
select_pending [] = []
select_pending ((id, tx) ∷ txs) =
    let rest = select_pending txs in if is_pending tx.state_of then tx ∷ rest else rest
