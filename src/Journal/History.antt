-- ===== src/Journal/History.antt =====
-- What later events leave of a transaction.
use mathlib.Core.Path.{subst}
use pmux.Base.{
  true, ◌≡◌, refl, sym, ap, ◌∙◌, none, some, List, [], ◌∷◌, ◌++◌, Bytes, bytes_eq, bytes_eq_sound,
  Bool-cases, inl, inr, append-nil,
}
use pmux.Base.Assoc.{lookup, insert, lookup-insert}
use pmux.Pmuxerr.{Result, ok, ◌>>=◌, >>=-eq-ok}
use pmux.Journal.{Event, Tx, Transactions, is_closed, fold_event, fold_from, fold}
use pmux.Journal.Fold.{
  TxStep, opens, adds, moves, fold_event-TxStep, fold_from-append, Keeps, Keeps-refl, Keeps-trans,
}

-- `after` is what became of `before`: itself if that was committed or rolled back, and else a
-- transaction with the same description and at least the same steps.
record Follows (before after : Tx) : Type 0 where
  keeps : Keeps before after
  final : is_closed before.state_of ≡ true → after ≡ before

Follows-refl : (tx : Tx) → Follows tx tx
Follows-refl tx = record { keeps = Keeps-refl tx; final = λ _. refl }

Follows-trans : {a b c : Tx} → Follows a b → Follows b c → Follows a c
Follows-trans {a} {b} {c} p q = record {
  keeps = Keeps-trans p.keeps q.keeps;
  final = λ h.
      let same : b ≡ a = p.final h in
      q.final (subst (λ (t : Tx). is_closed t.state_of ≡ true) (sym same) h) ∙ same;
}

-- Under an insertion each key has what it had, or what was inserted.
lookup_after :
    (k id : Bytes) (v tx old : Tx) (txs : Transactions)
    → lookup k txs ≡ some old
    → Follows old v
    → lookup id txs ≡ some tx
    → (after : Tx) × (lookup id (insert k v txs) ≡ some after) × Follows tx after
lookup_after k id v tx old txs l f h = elim (Bool-cases (bytes_eq k id)) [
  | inl e ↦
      let same : k ≡ id = bytes_eq_sound k id e in
      let both : some old ≡ some tx = sym l ∙ ap (λ (b : Bytes). lookup b txs) same ∙ h in
      let one : old ≡ tx = cc in
      (v, lookup-insert k id v txs ∙ (rw e), subst (λ (t : Tx). Follows t v) one f)
  | inr e ↦ (tx, lookup-insert k id v txs ∙ (rw e h), Follows-refl tx)
]

TxStep-Follows :
    {txs next : Transactions} (id : Bytes) (tx : Tx)
    → TxStep txs next
    → lookup id txs ≡ some tx
    → (after : Tx) × (lookup id next ≡ some after) × Follows tx after
TxStep-Follows {txs} id tx (opens new fresh s p) h = elim (Bool-cases (bytes_eq new.id id)) [
  | inl e ↦
      let same : new.id ≡ id = bytes_eq_sound new.id id e in
      let both : none ≡ some tx = sym fresh ∙ ap (λ (b : Bytes). lookup b txs) same ∙ h in cc
  | inr e ↦ (tx, lookup-insert new.id id new txs ∙ (rw e h), Follows-refl tx)
]
TxStep-Follows {txs} id tx (adds k old s l c) h =
    lookup_after k id _ tx old txs l
      (record {
        keeps = record {
          same_id = refl;
          same_operation = refl;
          same_metadata = refl;
          same_start = refl;
          added = s ∷ [];
          more_steps = refl;
        };
        final = λ d. cc;
      })
      h
TxStep-Follows {txs} id tx (moves k old s l c o) h =
    lookup_after k id _ tx old txs l
      (record {
        keeps = record {
          same_id = refl;
          same_operation = refl;
          same_metadata = refl;
          same_start = refl;
          added = [];
          more_steps = sym (append-nil old.steps);
        };
        final = λ d. cc;
      })
      h

fold_from-Follows :
    (txs next : Transactions) (events : List Event) (id : Bytes) (tx : Tx)
    → fold_from txs events ≡ ok next
    → lookup id txs ≡ some tx
    → (after : Tx) × (lookup id next ≡ some after) × Follows tx after
unfolding fold_from
fold_from-Follows txs next [] id tx h l =
    let same : txs ≡ next = cc in (tx, rw (← same) l, Follows-refl tx)
fold_from-Follows txs next (e ∷ events) id tx h l =
    let (mid, p, q) = >>=-eq-ok (fold_event txs e) (λ m. fold_from m events) h in
    let (t, l', f) = TxStep-Follows id tx (fold_event-TxStep txs mid e p) l in
    let (after, l'', g) = fold_from-Follows mid next events id t q l' in
    (after, l'', Follows-trans f g)

module _ (xs ys : List Event) (txs next : Transactions) (before : fold xs ≡ ok txs)
    (after : fold (xs ++ ys) ≡ ok next) (id : Bytes) (tx : Tx)
    (there : lookup id txs ≡ some tx) where
  follows : (t : Tx) × (lookup id next ≡ some t) × Follows tx t
  unfolding fold
  follows =
      fold_from-Follows txs next ys id tx
        (ap (λ (r : Result Transactions). r >>= λ mid. fold_from mid ys) (sym before)
          ∙ sym (fold_from-append [] xs ys)
          ∙ after)
        there

  -- A transaction that is completed or rolled back in the fold of some events is the same in the fold
  -- of more of them, if both folds succeed.
  pub closed_forever : is_closed tx.state_of ≡ true → lookup id next ≡ some tx
  closed_forever c = let (t, l, f) = follows in l ∙ ap some (f.final c)

  -- If the fold of some events and the fold of more of them succeed, a transaction of the first is in
  -- the second, with the same ID, operation, metadata and start, and with its steps in front.
  pub history_kept : (t : Tx) × (lookup id next ≡ some t) × Keeps tx t
  history_kept = let (t, l, f) = follows in (t, l, f.keeps)
