-- ===== src/Journal/Store/Opening.antt =====
-- `Begin` where no call fails: it succeeds on a journal that is not corrupt.
use pmux.Base.{ℕ, false, ◌≡◌, refl, ap, ◌∙◌, some, List, [], Bytes, bytes_eq}
use pmux.Pmuxerr.{Result, ok, err, >>=-eq-ok}
use pmux.Journal.{Event, Transactions, fold}
use pmux.Journal.Encoding.{Encoding, IsTotal}
use pmux.Journal.Store.{
  Journal, Call, read_events, begin, prepare_begin, store_event, new_tx_id, begin_event,
}
use pmux.Journal.Store.Reading.{read_all}
use pmux.Journal.Store.Spec.{view}
use pmux.Journal.Store.Success.{quiet_call, read_events-quiet, append_event-quiet}

abbrev id_of : Result Bytes → Bytes
id_of (ok id) = id
id_of (err e) = []

module _ (c : Encoding) (total : IsTotal c) (first_now now : ℕ) (random operation id : Bytes)
    (metadata : List (Bytes × Bytes)) (j : Journal) where
  abbrev call : Call
  call = quiet_call first_now now (some random)

  prepare_begin-quiet :
      (events : List Event)
      → bytes_eq operation [] ≡ false
      → read_events c call.reading j.file ≡ ok events
      → new_tx_id c call ≡ ok id
      → prepare_begin c call operation metadata j
        ≡ ok (id, begin_event call j events id operation metadata)
  unfolding prepare_begin
  prepare_begin-quiet events named reads drawn =
      rw (named, reads)
        (ap
          (λ (r : Result Bytes).
            ok (id_of r, begin_event call j events (id_of r) operation metadata))
          drawn)

  -- When no call fails and the encoding is total, `Begin` of a named operation on a journal that is
  -- not corrupt succeeds with the ID that it draws.
  pub begin-succeeds :
      (txs : Transactions)
      → view c j ≡ ok txs
      → bytes_eq operation [] ≡ false
      → new_tx_id c call ≡ ok id
      → (begin c call operation metadata j).0 ≡ ok id
  unfolding begin store_event
  begin-succeeds txs held named drawn =
      let (events, reads, _) = >>=-eq-ok (read_all c j.file) fold held in
      rw (prepare_begin-quiet events named (read_events-quiet c j.file ∙ reads) drawn) (
        rw (append_event-quiet c total (begin_event call j events id operation metadata) j.file)
          refl)
