-- ===== src/Journal/Store/Accept.antt =====
-- What makes an event acceptable to the journal, and what its append does to the transactions.
use mathlib.Core.Path.{subst}
use pmux.Base.{
  false, ◌≡◌, refl, sym, ap, ◌∙◌, Option, none, some, List, [], ◌∷◌, ◌++◌, Bytes, bytes_eq,
  bytes_eq_sound, Bool-cases, inl, inr,
}
use pmux.Base.Assoc.{lookup}
use pmux.Pmuxerr.{Result, ok, err, unless-eq-ok}
use pmux.Files.{File, contents}
use pmux.Files.Lines.{lines_of}
use pmux.Journal.{
  Event, Tx, Transactions, is_closed, fold, fold_event, fold_from, pending_tx, require_pending,
  last_sequence,
}
use pmux.Journal.Fold.{fold_from-append, fold_from-unnamed}
use pmux.Journal.Encoding.{Encoding, IsFaithful}
use pmux.Journal.Store.{Journal, Call, read_events, store_event}
use pmux.Journal.Store.Reading.{
  read_all, read_events-read_all, Fits, read_loop-named, Stored, append_event-Stored,
}
use pmux.Journal.Store.Spec.{view, Refines, unchanged, updated}

fold_snoc :
    (events : List Event) (e : Event) (txs next : Transactions)
    → fold events ≡ ok txs
    → fold_event txs e ≡ ok next
    → fold (events ++ e ∷ []) ≡ ok next
unfolding fold fold_from
fold_snoc events e txs next h k = rw fold_from-append (rw h (rw k))

-- A transaction that `requirePending` lets through is there and open.
pending_tx-open :
    (o : Option Tx) (u : Unit {0})
    → pending_tx o ≡ ok u
    → (tx : Tx) × (o ≡ some tx) × (is_closed tx.state_of ≡ false)
unfolding pending_tx
pending_tx-open none u h = cc
pending_tx-open (some tx) u h = (tx, refl, (unless-eq-ok (is_closed tx.state_of) _ (ok tt) h).0)

module _ (c : Encoding) (j : Journal) (txs : Transactions) where
  -- An event that the journal may append and what it makes of the transactions.
  pub record Accepts (spec : Result Transactions) (e : Event) : Type 0 where
    pub events : List Event
    pub next : Transactions
    pub reads : read_all c j.file ≡ ok events
    pub folds : fold events ≡ ok txs
    pub fits : Fits (last_sequence 0 events) e
    pub goes : fold_event txs e ≡ ok next
    pub agrees : spec ≡ ok next

module _ (c : Encoding) (faithful : IsFaithful c) (call : Call) (j : Journal)
    (txs : Transactions) where
  of_Stored :
      (spec : Result Transactions) (e : Event) (a : Accepts c j txs spec e)
      {o : Result (Unit {0}) × File}
      → Stored c a.events e o
      → Refines c txs j spec (o.0, record j { file = o.1 })
  of_Stored spec e a (Stored.lost x g h) =
      unchanged spec x (record j { file = g }) (rw h a.folds) refl
  of_Stored spec e a (Stored.stored r g h) =
      subst (λ (s : Result Transactions). Refines c txs j s (r, record j { file = g }))
        (sym a.agrees)
        (updated a.next r (record j { file = g })
          (rw h (fold_snoc a.events e txs a.next a.folds a.goes)) refl)

  pub store_event-Refines :
      (held : view c j ≡ ok txs) (spec : Result Transactions) (p : Result Event)
      → ((e : Event) → p ≡ ok e → Accepts c j txs spec e)
      → Refines c txs j spec (store_event c call j p)
  unfolding store_event
  store_event-Refines held spec (err x) good = unchanged spec x j held refl
  store_event-Refines held spec (ok e) good =
      let a = good e refl in
      of_Stored spec e a
        (append_event-Stored c faithful e a.events a.fits j.file a.reads call.writing)

module _ (c : Encoding) (call : Call) (j : Journal) (txs : Transactions)
    (held : view c j ≡ ok txs) where
  -- What a method has read is what the view was made of.
  pub seen :
      (events : List Event)
      → read_events c call.reading j.file ≡ ok events
      → (read_all c j.file ≡ ok events) × (fold events ≡ ok txs)
  seen events h =
      let reads = read_events-read_all c call.reading j.file events h in (reads, rw reads at held)

  -- An open transaction has a name.
  pub named_of_there :
      (events : List Event) (id : Bytes) (tx : Tx)
      → read_all c j.file ≡ ok events
      → fold events ≡ ok txs
      → lookup id txs ≡ some tx
      → bytes_eq id [] ≡ false
  named_of_there events id tx reads folds l = elim (Bool-cases (bytes_eq id [])) [
    | inr e ↦ e
    | inl e ↦
        let empty : id ≡ [] = bytes_eq_sound id [] e in
        let absent : lookup [] txs ≡ none =
          unfold fold lookup in
          fold_from-unnamed [] txs events []
            (read_loop-named c 0 (lines_of (contents j.file)) events reads) folds in
        let both : some tx ≡ none = sym l ∙ ap (λ (b : Bytes). lookup b txs) empty ∙ absent in cc
  ]

  -- What `requirePending` establishes.
  pub checked :
      (events : List Event) (id : Bytes) (u : Unit {0})
      → fold events ≡ ok txs
      → require_pending events id ≡ ok u
      → (tx : Tx) × (lookup id txs ≡ some tx) × (is_closed tx.state_of ≡ false)
  unfolding require_pending
  checked events id u folds h = pending_tx-open (lookup id txs) u (rw folds at h)
