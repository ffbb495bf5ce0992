-- ===== src/Journal/Store/Steps.antt =====
-- `Record` and `setState` refine the map of transactions, whatever call fails and wherever a write
-- is torn.
use mathlib.Core.Path.{subst}
use pmux.Base.{true, false, ◌≡◌, refl, some, List, Bytes, arith}
use pmux.Base.Assoc.{lookup, insert}
use pmux.Pmuxerr.{ok, ◌>>◌, >>=-eq-ok}
use pmux.Journal.{
  Event, Tx, TxState, Step, Transactions, is_closed, is_outcome, fold_event, require_pending,
  sanitize_step,
}
use pmux.Journal.Encoding.{Encoding, IsFaithful}
use pmux.Journal.Store.{
  Journal, Call, read_events, prepare_record, record_step, prepare_state, set_state, dated,
  step_event, state_event,
}
use pmux.Journal.Store.Reading.{next_sequence-last}
use pmux.Journal.Store.Spec.{view, update, update-open, with_step, with_state, Refines}
use pmux.Journal.Store.Accept.{Accepts, store_event-Refines, seen, named_of_there, checked}

fold-step_event :
    (call : Call) (j : Journal) (events : List Event) (id : Bytes) (s : Step) (txs : Transactions)
    (tx : Tx)
    → lookup id txs ≡ some tx
    → is_closed tx.state_of ≡ false
    → fold_event txs (step_event call j events id s)
      ≡ ok (insert id (with_step (dated call.first_now (sanitize_step s j.secrets)) tx) txs)
unfolding fold_event
fold-step_event call j events id s txs tx l o = ground arith

fold-state_event :
    (call : Call) (j : Journal) (events : List Event) (id : Bytes) (s : TxState) (reason : Bytes)
    (txs : Transactions) (tx : Tx)
    → lookup id txs ≡ some tx
    → is_closed tx.state_of ≡ false
    → is_outcome s ≡ true
    → fold_event txs (state_event call j events id s reason) ≡ ok (insert id (with_state s tx) txs)
unfolding fold_event
fold-state_event call j events id s reason txs tx l o out = ground arith

module _ (c : Encoding) (faithful : IsFaithful c) (call : Call) (j : Journal) (txs : Transactions)
    (held : view c j ≡ ok txs) where
  record-Accepts :
      (id : Bytes) (s : Step) (e : Event)
      → prepare_record c call id s j ≡ ok e
      → Accepts c j txs
          (update id (with_step (dated call.first_now (sanitize_step s j.secrets))) txs)
          e
  unfolding prepare_record
  record-Accepts id s e h =
      let (events, r, q) =
        >>=-eq-ok (read_events c call.reading j.file)
          (λ events. require_pending events id >> ok (step_event call j events id s)) h in
      let (u, pend, same) =
        >>=-eq-ok (require_pending events id) (λ _. ok (step_event call j events id s)) q in
      let (reads, folds) = seen c call j txs held events r in
      let (tx, l, o) = checked c call j txs held events id u folds pend in
      let one : step_event call j events id s ≡ e = cc in
      subst
        (λ (x : Event).
          Accepts c j txs
            (update id (with_step (dated call.first_now (sanitize_step s j.secrets))) txs) x)
        one
        (record {
          events = events;
          next = insert id (with_step (dated call.first_now (sanitize_step s j.secrets)) tx) txs;
          reads = reads;
          folds = folds;
          fits = record {
            right_version = refl;
            in_sequence = next_sequence-last events;
            named = named_of_there c call j txs held events id tx reads folds l;
          };
          goes = fold-step_event call j events id s txs tx l o;
          agrees = update-open id _ txs tx l o;
        })

  state-Accepts :
      (id : Bytes) (s : TxState) (reason : Bytes) (e : Event)
      → is_outcome s ≡ true
      → prepare_state c call id s reason j ≡ ok e
      → Accepts c j txs (update id (with_state s) txs) e
  unfolding prepare_state
  state-Accepts id s reason e out h =
      let (events, r, q) =
        >>=-eq-ok (read_events c call.reading j.file)
          (λ events. require_pending events id >> ok (state_event call j events id s reason)) h in
      let (u, pend, same) =
        >>=-eq-ok (require_pending events id) (λ _. ok (state_event call j events id s reason)) q in
      let (reads, folds) = seen c call j txs held events r in
      let (tx, l, o) = checked c call j txs held events id u folds pend in
      let one : state_event call j events id s reason ≡ e = cc in
      subst (λ (x : Event). Accepts c j txs (update id (with_state s) txs) x) one
        (record {
          events = events;
          next = insert id (with_state s tx) txs;
          reads = reads;
          folds = folds;
          fits = record {
            right_version = refl;
            in_sequence = next_sequence-last events;
            named = named_of_there c call j txs held events id tx reads folds l;
          };
          goes = fold-state_event call j events id s reason txs tx l o out;
          agrees = update-open id _ txs tx l o;
        })

  -- `Record` with a faithful encoding, on a journal that holds `txs`, whichever calls fail: it returns
  -- an error and the journal still holds `txs`, or the journal holds `txs` with the step, redacted and
  -- dated, behind the steps of its transaction, which `txs` holds open; a success is the latter, and
  -- the known secrets stay.
  pub record_step-Refines :
      (id : Bytes) (s : Step)
      → Refines c txs j
          (update id (with_step (dated call.first_now (sanitize_step s j.secrets))) txs)
          (record_step c call id s j)
  unfolding record_step
  record_step-Refines id s =
      store_event-Refines c faithful call j txs held _ (prepare_record c call id s j)
        (record-Accepts id s)

  -- `setState` to one of the four outcomes with a faithful encoding, on a journal that holds `txs`,
  -- whichever calls fail: it returns an error and the journal still holds `txs`, or the journal holds
  -- `txs` with the new state in its transaction, which `txs` holds open; a success is the latter, and
  -- the known secrets stay.
  pub set_state-Refines :
      (id : Bytes) (s : TxState) (reason : Bytes)
      → is_outcome s ≡ true
      → Refines c txs j (update id (with_state s) txs) (set_state c call id s reason j)
  unfolding set_state
  set_state-Refines id s reason out =
      store_event-Refines c faithful call j txs held _ (prepare_state c call id s reason j)
        (λ e. state-Accepts id s reason e out)
