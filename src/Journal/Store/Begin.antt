-- ===== src/Journal/Store/Begin.antt =====
-- `Begin` refines the map of transactions.
use mathlib.Core.Path.{subst}
use pmux.Base.{false, ◌≡◌, refl, sym, ◌∙◌, none, List, [], Bytes, bytes_eq, arith}
use pmux.Base.Assoc.{lookup, insert}
use pmux.Pmuxerr.{Result, ok, err, ◌>>=◌, ◌>>◌, >>=-eq-ok, unless-eq-ok}
use pmux.Redact.{known}
use pmux.Journal.{Event, Transactions, fold_event, sanitize_map}
use pmux.Journal.Encoding.{Encoding, IsFaithful}
use pmux.Journal.Store.{
  Journal, Call, read_events, store_event, prepare_begin, begin, new_tx_id, begin_event,
}
use pmux.Journal.Store.Reading.{next_sequence-last}
use pmux.Journal.Store.Spec.{view, opened, Refines, unchanged}
use pmux.Journal.Store.Accept.{Accepts, store_event-Refines, seen}

-- What `Begin` makes of the transactions.
abbrev pub begun_map :
    Call → Journal → Bytes → Bytes → List (Bytes × Bytes) → Transactions → Transactions
begun_map call j id operation metadata txs =
    insert id (opened id (known operation j.secrets) (sanitize_map metadata j.secrets) call.now) txs

fold-begin_event :
    (call : Call) (j : Journal) (events : List Event) (id operation : Bytes)
    (metadata : List (Bytes × Bytes)) (txs : Transactions)
    → lookup id txs ≡ none
    → fold_event txs (begin_event call j events id operation metadata)
      ≡ ok (
          insert id
            (opened id (known operation j.secrets) (sanitize_map metadata j.secrets) call.now)
            txs)
unfolding fold_event
fold-begin_event call j events id operation metadata txs l = rw l

pub new_tx_id-named :
    (c : Encoding) (call : Call) (id : Bytes) → new_tx_id c call ≡ ok id → bytes_eq id [] ≡ false
unfolding new_tx_id bytes_eq
new_tx_id-named c call id h = ground arith

-- The outcome of a method without the value that it returns.
abbrev pub forget : Result Bytes → Result (Unit {0})
forget (ok _) = ok tt
forget (err x) = err x

abbrev pub ReturnsOnly : Bytes → Result Bytes → Type 0
ReturnsOnly id (ok x) = x ≡ id
ReturnsOnly id (err x) = Unit

forget-then : (r : Result (Unit {0})) (b : Bytes) → forget (r >> ok b) ≡ r
forget-then (ok u) b = refl
forget-then (err x) b = refl

returns-then : (id b : Bytes) → b ≡ id → (r : Result (Unit {0})) → ReturnsOnly id (r >> ok b)
returns-then id b e (ok u) = e
returns-then id b e (err x) = tt

module _ (c : Encoding) (faithful : IsFaithful c) (call : Call) (j : Journal) (txs : Transactions)
    (held : view c j ≡ ok txs) (operation id : Bytes) (metadata : List (Bytes × Bytes))
    (made : new_tx_id c call ≡ ok id) (fresh : lookup id txs ≡ none) where
  begin-Accepts :
      (made_id : Bytes) (e : Event)
      → prepare_begin c call operation metadata j ≡ ok (made_id, e)
      → (made_id ≡ id) × Accepts c j txs (ok (begun_map call j id operation metadata txs)) e
  unfolding prepare_begin
  begin-Accepts made_id e h =
      let (b, chain) = unless-eq-ok (bytes_eq operation []) _ _ h in
      let (i, m, q) =
        >>=-eq-ok (new_tx_id c call)
          (λ i. read_events c call.reading j.file >>= λ events.
            ok (i, begin_event call j events i operation metadata))
          chain in
      let (events, r, same) =
        >>=-eq-ok (read_events c call.reading j.file)
          (λ events. ok (i, begin_event call j events i operation metadata)) q in
      let (reads, folds) = seen c call j txs held events r in
      let one : i ≡ made_id = cc in
      let two : begin_event call j events i operation metadata ≡ e = cc in
      let ids : i ≡ id = cc in
      (
        sym one ∙ ids,
        subst (λ (x : Event). Accepts c j txs (ok (begun_map call j id operation metadata txs)) x)
            two
            (subst
              (λ (y : Bytes).
                Accepts c j txs (ok (begun_map call j id operation metadata txs))
                  (begin_event call j events y operation metadata))
              (sym ids)
              (record {
                events = events;
                next = begun_map call j id operation metadata txs;
                reads = reads;
                folds = folds;
                fits = record {
                  right_version = refl;
                  in_sequence = next_sequence-last events;
                  named = new_tx_id-named c call id made;
                };
                goes = fold-begin_event call j events id operation metadata txs fresh;
                agrees = refl;
              })),
      )

  begun_Refines :
      (p : Result (Bytes × Event))
      → prepare_begin c call operation metadata j ≡ p
      → let (r, j') = store_event c call j (p >>= λ q. ok q.1) in
        Refines c txs j
          (ok (begun_map call j id operation metadata txs))
          (forget (r >> (p >>= λ q. ok q.0)), j')
        × ReturnsOnly id (r >> (p >>= λ q. ok q.0))
  begun_Refines (err x) prep =
      (unfold store_event in unchanged _ x j held refl, unfold store_event in tt)
  begun_Refines (ok (made_id, e)) prep =
      let (same, a) = begin-Accepts made_id e prep in
      (
        rw forget-then (
            store_event-Refines c faithful call j txs held _ (ok e) (λ x eq.
              let ex : e ≡ x = cc in
              subst
                (λ (x : Event). Accepts c j txs (ok (begun_map call j id operation metadata txs)) x)
                ex a)),
        returns-then id made_id same _,
      )

  -- `Begin` with a faithful encoding, on a journal that holds `txs`, when the ID that it draws is not
  -- in `txs`, whichever calls fail: it returns an error and the journal still holds `txs`, or the
  -- journal holds `txs` with a transaction in progress under that ID, its operation and metadata
  -- redacted; a success is the latter and returns that ID, and the known secrets stay.
  pub begin-Refines :
      Refines c txs j
        (ok (begun_map call j id operation metadata txs))
        (forget (begin c call operation metadata j).0, (begin c call operation metadata j).1)
      × ReturnsOnly id (begin c call operation metadata j).0
  unfolding begin
  begin-Refines = begun_Refines (prepare_begin c call operation metadata j) refl
