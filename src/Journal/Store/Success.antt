-- ===== src/Journal/Store/Success.antt =====
-- The methods of the journal where no call fails: they succeed on an open transaction, and refuse a
-- closed or absent one with the journal untouched.
use pmux.Base.{ℕ, true, false, ◌≡◌, refl, ap, ◌∙◌, Option, none, some, List, [], ◌∷◌, ◌++◌, Bytes}
use pmux.Base.Assoc.{lookup, insert}
use pmux.Pmuxerr.{Result, ok, err, >>=-eq-ok, new_error, config_mutation_conflict, environment}
use pmux.Files.{File, newline, read_lines}
use pmux.Files.Quiet.{quiet, append-quiet}
use pmux.Journal.{
  Event, Tx, TxState, Step, Transactions, is_closed, is_outcome, fold, require_pending, pending_tx,
  sanitize_step,
}
use pmux.Journal.Encoding.{Encoding, IsFaithful, IsTotal}
use pmux.Journal.Store.{
  Journal, Call, read_events, read_loop, append_event, store_event, prepare_record, record_step,
  prepare_state, set_state, state_event, step_event, messages, dated,
}
use pmux.Journal.Store.Reading.{read_all}
use pmux.Journal.Store.Spec.{
  view, update, update-open, with_step, with_state, Refines, unchanged, updated,
}
use pmux.Journal.Store.Steps.{record_step-Refines, set_state-Refines}

-- A call in which nothing fails.
abbrev pub quiet_call : ℕ → ℕ → Option Bytes → Call
quiet_call first_now now random = record {
  reading = record { open_file = none; read = none };
  writing = quiet;
  first_now = first_now;
  now = now;
  random = random;
}

pub read_events-quiet :
    (c : Encoding) (file : File)
    → read_events c (record { open_file = none; read = none }) file ≡ read_all c file
unfolding read_events read_loop read_lines
read_events-quiet c none = refl
read_events-quiet c (some file) = refl

-- A success can only be the update that the map accepts.
pub success_updates :
    (c : Encoding) (txs : Transactions) (j : Journal) (spec : Result Transactions)
    (o : Result (Unit {0}) × Journal) (next : Transactions)
    → Refines c txs j spec o
    → o.0 ≡ ok tt
    → spec ≡ ok next
    → view c o.1 ≡ ok next
success_updates c txs j spec o next (unchanged _ x j' h s) e same = cc
success_updates c txs j spec o next (updated mid r j' h s) e same =
    let one : mid ≡ next = cc in h ∙ ap ok one

pub append_event-quiet :
    (c : Encoding) → IsTotal c → (e : Event) (file : File) → (append_event c quiet e file).0 ≡ ok tt
unfolding append_event
append_event-quiet c total e file =
    let (b, p) = total e in rw (p, append_event) (append-quiet messages (b ++ newline ∷ []) file)

module _ (c : Encoding) (faithful : IsFaithful c) (total : IsTotal c) (first_now now : ℕ)
    (random : Option Bytes) (j : Journal) (txs : Transactions) (held : view c j ≡ ok txs)
    (id : Bytes) (tx : Tx) (there : lookup id txs ≡ some tx) where
  store_event-quiet :
      (e : Event) → (store_event c (quiet_call first_now now random) j (ok e)).0 ≡ ok tt
  unfolding store_event
  store_event-quiet e = append_event-quiet c total e j.file

  -- The events that the methods read.
  events_read :
      (events : List Event) × (read_events c (record { open_file = none; read = none }) j.file
        ≡ ok events)
      × (fold events ≡ ok txs)
  events_read =
      let (events, r, q) = >>=-eq-ok (read_all c j.file) fold held in
      (events, read_events-quiet c j.file ∙ r, q)

  lets_through :
      (events : List Event)
      → fold events ≡ ok txs
      → is_closed tx.state_of ≡ false
      → require_pending events id ≡ ok tt
  unfolding require_pending pending_tx
  lets_through events f o = rw f (rw there (rw o))

  refuses :
      (events : List Event)
      → fold events ≡ ok txs
      → is_closed tx.state_of ≡ true
      → require_pending events id
        ≡ err
            (new_error config_mutation_conflict environment "journal transaction is already closed")
  unfolding require_pending pending_tx
  refuses events f o = rw f (rw there (rw o))

  -- When no call fails and the encoding is faithful and total, `setState` of an open transaction of
  -- the journal to one of the four outcomes succeeds, and the journal then holds that state.
  pub set_state-succeeds :
      (s : TxState) (reason : Bytes)
      → is_closed tx.state_of ≡ false
      → is_outcome s ≡ true
      → ((set_state c (quiet_call first_now now random) id s reason j).0 ≡ ok tt)
        × (view c (set_state c (quiet_call first_now now random) id s reason j).1
            ≡ ok (insert id (with_state s tx) txs))
  set_state-succeeds s reason o out = (
    done,
    success_updates c txs j (update id (with_state s) txs)
        (set_state c (quiet_call first_now now random) id s reason j)
        (insert id (with_state s tx) txs)
        (set_state-Refines c faithful (quiet_call first_now now random) j txs held id s reason out)
        done (update-open id (with_state s) txs tx there o),
  )
    where
      done : (set_state c (quiet_call first_now now random) id s reason j).0 ≡ ok tt
      done =
          let (events, r, f) = events_read in
          unfold set_state prepare_state in
          rw r (
            rw (lets_through events f o) (
              store_event-quiet
                (state_event (quiet_call first_now now random) j events id s reason)))

  -- When no call fails and the encoding is faithful and total, `Record` on an open transaction of the
  -- journal succeeds, and the journal then holds the step, redacted and dated, behind the others.
  pub record_step-succeeds :
      (s : Step)
      → is_closed tx.state_of ≡ false
      → ((record_step c (quiet_call first_now now random) id s j).0 ≡ ok tt)
        × (view c (record_step c (quiet_call first_now now random) id s j).1
            ≡ ok (insert id (with_step (dated first_now (sanitize_step s j.secrets)) tx) txs))
  record_step-succeeds s o = (
    done,
    success_updates c txs j
        (update id (with_step (dated first_now (sanitize_step s j.secrets))) txs)
        (record_step c (quiet_call first_now now random) id s j)
        (insert id (with_step (dated first_now (sanitize_step s j.secrets)) tx) txs)
        (record_step-Refines c faithful (quiet_call first_now now random) j txs held id s) done
        (update-open id (with_step (dated first_now (sanitize_step s j.secrets))) txs tx there o),
  )
    where
      done : (record_step c (quiet_call first_now now random) id s j).0 ≡ ok tt
      done =
          let (events, r, f) = events_read in
          unfold record_step prepare_record in
          rw r (
            rw (lets_through events f o)
              (store_event-quiet (step_event (quiet_call first_now now random) j events id s)))

  -- When no call fails and the encoding is faithful and total, `Record` and `setState` on a
  -- transaction that the journal holds as completed or rolled back return the conflict error and
  -- leave the journal as it is.
  pub closed_refused :
      (s : Step) (t : TxState) (reason : Bytes)
      → is_closed tx.state_of ≡ true
      → (record_step c (quiet_call first_now now random) id s j ≡ (
        err (
            new_error config_mutation_conflict environment "journal transaction is already closed"),
        j,
      ))
        × (set_state c (quiet_call first_now now random) id t reason j ≡ (
          err (
              new_error config_mutation_conflict environment
                "journal transaction is already closed"),
          j,
        ))
  closed_refused s t reason o =
      let (events, r, f) = events_read in
      (
        unfold record_step prepare_record store_event in rw r (rw (refuses events f o)),
        unfold set_state prepare_state store_event in rw r (rw (refuses events f o)),
      )
