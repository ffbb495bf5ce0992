-- ===== src/Tests/JournalTests.antt =====
-- A journal that is opened, written, torn and closed.
use mathlib.Core.List.{Memᴰ}
use pmux.Base.{◌↔◌, ◌≡◌, refl, true, false, none, some, [], ◌∷◌, Bytes, bytes_eq}
use pmux.Base.Assoc.{lookup, insert}
use pmux.Pmuxerr.{ok, err, foreign, new_error, config_mutation_conflict, environment}
use pmux.Files.{append, read_lines}
use pmux.Files.Quiet.{quiet}
use pmux.Redact.{known}
use pmux.Journal.History.{history_kept, closed_forever}
use pmux.Journal.Fold.{Keeps}
use pmux.Journal.{
  Event, Tx, Transactions, Step, in_progress, completed, failed, sanitize_map, sanitize_step,
  sort_txs, select_pending, is_closed, is_outcome, fold, require_pending, next_sequence,
}
use pmux.Journal.Wire.{wire, wire-IsFaithful, wire-IsTotal}
use pmux.Journal.Wire.Coders.{put_nat, get_nat, put_all, get_all}
use pmux.Journal.Store.{
  begin_event, state_event, Journal, pending, dated, begin, record_step, set_state, new_tx_id, Call,
  read_loop, hex,
}
use pmux.Journal.Store.Spec.{view, update, Refines, with_step, with_state, opened}
use pmux.Journal.Store.Success.{
  quiet_call, set_state-succeeds, record_step-succeeds, closed_refused,
}
use pmux.Journal.Store.Steps.{record_step-Refines, set_state-Refines}
use pmux.Journal.Store.Begin.{begin-Refines, begun_map, forget, ReturnsOnly}
use pmux.Journal.Store.Pending.{IsChronological, IsUnfinished, pending_exact}

abbrev pub empty : Journal
empty = record { file = none; secrets = [] }

abbrev pub call : Call
call = quiet_call 3 4 (some [])

abbrev pub id : Bytes
id = 111 ∷ 112 ∷ 95 ∷ 95 ∷ []

abbrev pub one : Journal
one = (begin wire call (5 ∷ []) [] empty).1

pub one-view : view wire one ≡ ok ((id, opened id (5 ∷ []) [] 4) ∷ [])
unfolding begin append fold read_lines read_loop put_nat get_nat put_all get_all bytes_eq
    next_sequence hex known sanitize_map lookup insert
one-view = refl

empty-view : view wire empty ≡ ok []
unfolding read_lines read_loop fold
empty-view = refl

drawn : new_tx_id wire call ≡ ok id
unfolding new_tx_id
drawn = refl

absent : lookup {V = Tx} id [] ≡ none
unfolding lookup
absent = refl

begin-Refines_example :
    Refines wire [] empty
      (ok (begun_map call empty id (5 ∷ []) [] []))
      (forget (begin wire call (5 ∷ []) [] empty).0, (begin wire call (5 ∷ []) [] empty).1)
    × ReturnsOnly id (begin wire call (5 ∷ []) [] empty).0
begin-Refines_example =
    begin-Refines wire wire-IsFaithful call empty [] empty-view (5 ∷ []) id [] drawn absent

abbrev pub one_map : Transactions
one_map = (id, opened id (5 ∷ []) [] 4) ∷ []

there : lookup id one_map ≡ some (opened id (5 ∷ []) [] 4)
unfolding lookup bytes_eq
there = refl

still_open : is_closed in_progress ≡ false
unfolding is_closed
still_open = refl

completes : is_outcome completed ≡ true
unfolding is_outcome
completes = refl

abbrev a_step : Step
a_step = record { name = 1 ∷ []; action = 2 ∷ []; target = []; undo = []; at = 0 }

-- A write that is torn after one byte and then fails.
abbrev torn_call : Call
torn_call = record call { writing = record quiet { write = some (1, foreign "no space") } }

record_step-Refines_example :
    Refines wire one_map one
      (update id (with_step (dated 3 (sanitize_step a_step one.secrets))) one_map)
      (record_step wire torn_call id a_step one)
record_step-Refines_example =
    record_step-Refines wire wire-IsFaithful torn_call one one_map one-view id a_step

set_state-Refines_example :
    Refines wire one_map one
      (update id (with_state completed) one_map)
      (set_state wire torn_call id completed [] one)
set_state-Refines_example =
    set_state-Refines wire wire-IsFaithful torn_call one one_map one-view id completed [] completes

-- The torn write is not seen: the journal still holds what it held.
torn_view : view wire (record_step wire torn_call id a_step one).1 ≡ ok one_map
unfolding record_step begin append fold read_lines read_loop put_nat get_nat put_all get_all
    bytes_eq next_sequence hex known sanitize_map sanitize_step lookup insert require_pending
torn_view = refl

set_state-succeeds_example :
    ((set_state wire call id completed [] one).0 ≡ ok tt)
    × (view wire (set_state wire call id completed [] one).1
        ≡ ok (insert id (with_state completed (opened id (5 ∷ []) [] 4)) one_map))
set_state-succeeds_example =
    set_state-succeeds wire wire-IsFaithful wire-IsTotal 3 4 (some []) one one_map one-view id
      (opened id (5 ∷ []) [] 4) there completed [] still_open completes

record_step-succeeds_example :
    ((record_step wire call id a_step one).0 ≡ ok tt)
    × (view wire (record_step wire call id a_step one).1
        ≡ ok (
            insert id
              (with_step (dated 3 (sanitize_step a_step one.secrets)) (opened id (5 ∷ []) [] 4))
              one_map))
record_step-succeeds_example =
    record_step-succeeds wire wire-IsFaithful wire-IsTotal 3 4 (some []) one one_map one-view id
      (opened id (5 ∷ []) [] 4) there a_step still_open

-- The journal after the commit, and its map.
abbrev two : Journal
two = (set_state wire call id completed [] one).1

abbrev done_tx : Tx
done_tx = with_state completed (opened id (5 ∷ []) [] 4)

abbrev two_map : Transactions
two_map = (id, done_tx) ∷ []

inserted : insert id done_tx one_map ≡ two_map
unfolding insert bytes_eq
inserted = refl

two-view : view wire two ≡ ok two_map
two-view = rw (← inserted) set_state-succeeds_example.1

done_there : lookup id two_map ≡ some done_tx
unfolding lookup bytes_eq
done_there = refl

now_closed : is_closed completed ≡ true
unfolding is_closed
now_closed = refl

closed_refused_example :
    (record_step wire call id a_step two ≡ (
      err (new_error config_mutation_conflict environment "journal transaction is already closed"),
      two,
    ))
    × (set_state wire call id failed [] two ≡ (
      err (new_error config_mutation_conflict environment "journal transaction is already closed"),
      two,
    ))
closed_refused_example =
    closed_refused wire wire-IsFaithful wire-IsTotal 3 4 (some []) two two_map two-view id done_tx
      done_there a_step failed [] now_closed

listed :
    pending wire (record { open_file = none; read = none }) one ≡ ok (opened id (5 ∷ []) [] 4 ∷ [])
unfolding pending begin append fold read_lines read_loop put_nat get_nat put_all get_all bytes_eq
    next_sequence hex known sanitize_map lookup insert sort_txs select_pending
listed = refl

pending_exact_example :
    IsChronological (opened id (5 ∷ []) [] 4 ∷ [])
    × ((x : Tx)
        → Memᴰ x (opened id (5 ∷ []) [] 4 ∷ [])
          ↔ ((k : Bytes) × (lookup k one_map ≡ some x) × IsUnfinished x.state_of))
pending_exact_example =
    pending_exact wire (record { open_file = none; read = none }) one one_map
      (opened id (5 ∷ []) [] 4 ∷ []) one-view listed

-- Two events behind the first: a failure, and then a commit.
abbrev opened_event : Event
opened_event = begin_event call empty [] id (5 ∷ []) []

abbrev failed_event : Event
failed_event = state_event call empty (opened_event ∷ []) id failed []

abbrev completed_event : Event
completed_event = state_event call empty (opened_event ∷ failed_event ∷ []) id completed []

fold_one : fold (opened_event ∷ []) ≡ ok one_map
unfolding fold lookup insert known sanitize_map
fold_one = refl

fold_two : fold (opened_event ∷ completed_event ∷ []) ≡ ok two_map
unfolding fold lookup insert bytes_eq known sanitize_map
fold_two = refl

history_kept_example : (t : Tx) × (lookup id two_map ≡ some t) × Keeps (opened id (5 ∷ []) [] 4) t
history_kept_example =
    history_kept (opened_event ∷ []) (completed_event ∷ []) one_map two_map fold_one fold_two id
      (opened id (5 ∷ []) [] 4) there

-- Another transaction behind the commit.
abbrev other_id : Bytes
other_id = 111 ∷ 112 ∷ 95 ∷ 96 ∷ []

abbrev other_event : Event
other_event = begin_event call empty (opened_event ∷ completed_event ∷ []) other_id (6 ∷ []) []

abbrev three_map : Transactions
three_map = insert other_id (opened other_id (6 ∷ []) [] 4) two_map

fold_three : fold (opened_event ∷ completed_event ∷ other_event ∷ []) ≡ ok three_map
unfolding fold lookup insert bytes_eq known sanitize_map
fold_three = refl

closed_forever_example : lookup id three_map ≡ some done_tx
closed_forever_example =
    closed_forever (opened_event ∷ completed_event ∷ []) (other_event ∷ []) two_map three_map
      fold_two fold_three id done_tx done_there now_closed
