-- ===== src/Journal/Fold.antt =====
-- `fold`: how an event moves the transactions, and what no event can undo.
use pmux.Base.{
  true, false, ◌≡◌, refl, sym, ap, ◌∙◌, Option, none, some, List, [], ◌∷◌, ◌++◌, Bytes, arith, All,
  bytes_eq, Bool-cases, inl, inr, ◌⊎◌, if◌then◌else◌, append_assoc, append-nil,
}
use pmux.Base.Assoc.{lookup, insert, lookup-insert}
use pmux.Pmuxerr.{>>=-eq-ok, unless-eq-ok, Result, ok, err, ◌>>=◌}
use pmux.Journal.{
  Event, Tx, TxState, Step, Transactions, EventType, begin, step, state, begun, is_closed,
  is_outcome, fold_event, fold_type, fold_begin, fold_step, fold_state, fold_from, in_progress,
  corrupt, other_type,
}

-- What one event of the journal does to the transactions.
pub data TxStep (txs : Transactions) : Transactions → Type 0 where
  opens :
      (tx : Tx)
      → lookup tx.id txs ≡ none
      → tx.state_of ≡ in_progress
      → tx.steps ≡ []
      → TxStep txs (insert tx.id tx txs)
  adds :
      (id : Bytes) (tx : Tx) (s : Step)
      → lookup id txs ≡ some tx
      → is_closed tx.state_of ≡ false
      → TxStep txs (insert id (record tx { steps = tx.steps ++ s ∷ [] }) txs)
  moves :
      (id : Bytes) (tx : Tx) (s : TxState)
      → lookup id txs ≡ some tx
      → is_closed tx.state_of ≡ false
      → is_outcome s ≡ true
      → TxStep txs (insert id (record tx { state_of = s }) txs)

fold_begin-TxStep :
    (e : Event) (txs next : Transactions) (o : Option Tx)
    → lookup e.tx_id txs ≡ o
    → fold_begin e txs o ≡ ok next
    → TxStep txs next
unfolding fold_begin
fold_begin-TxStep e txs next (some _) l h = cc
fold_begin-TxStep e txs next none l h =
    let same : insert e.tx_id (begun e) txs ≡ next = cc in rw (← same) (opens (begun e) l refl refl)

abbrev added : Event → Tx → Step → Transactions → Transactions
added e tx s txs = insert e.tx_id (record tx { steps = tx.steps ++ s ∷ [] }) txs

fold_step-TxStep :
    (e : Event) (txs next : Transactions) (o : Option Tx) (s : Option Step)
    → lookup e.tx_id txs ≡ o
    → fold_step e txs o s ≡ ok next
    → TxStep txs next
unfolding fold_step
fold_step-TxStep e txs next none s l h = cc
fold_step-TxStep e txs next (some tx) none l h = cc
fold_step-TxStep e txs next (some tx) (some s) l h =
    let (c, k) = unless-eq-ok (is_closed tx.state_of) _ (ok (added e tx s txs)) h in
    let same : added e tx s txs ≡ next = cc in rw (← same) (adds e.tx_id tx s l c)

fold_state-TxStep :
    (e : Event) (txs next : Transactions) (o : Option Tx)
    → lookup e.tx_id txs ≡ o
    → fold_state e txs o ≡ ok next
    → TxStep txs next
unfolding fold_state
fold_state-TxStep e txs next none l h = cc
fold_state-TxStep e txs next (some tx) l h =
    let (c, k) = unless-eq-ok (is_closed tx.state_of) _ _ h in
    moved (Bool-cases (is_outcome e.state_of)) c k
  where
    moved :
        (is_outcome e.state_of ≡ true) ⊎ (is_outcome e.state_of ≡ false)
        → is_closed tx.state_of ≡ false
        → (if is_outcome e.state_of
            then ok (insert e.tx_id (record tx { state_of = e.state_of }) txs)
            else err (corrupt "journal contains an invalid transaction state"))
          ≡ ok next
        → TxStep txs next
    moved (inl o) c k =
        let h : ok (insert e.tx_id (record tx { state_of = e.state_of }) txs) ≡ ok next =
          rw o at k in
        let same : insert e.tx_id (record tx { state_of = e.state_of }) txs ≡ next = cc in
        rw (← same) (moves e.tx_id tx e.state_of l c o)
    moved (inr o) c k =
        let h : err (corrupt "journal contains an invalid transaction state") ≡ ok next =
          rw o at k in
        cc

fold_type-TxStep :
    (t : EventType) (e : Event) (txs next : Transactions)
    → fold_type t e txs ≡ ok next
    → TxStep txs next
unfolding fold_type
fold_type-TxStep begin e txs next h = fold_begin-TxStep e txs next _ refl h
fold_type-TxStep step e txs next h = fold_step-TxStep e txs next _ _ refl h
fold_type-TxStep state e txs next h = fold_state-TxStep e txs next _ refl h
fold_type-TxStep (other_type b) e txs next h = cc

-- An event that `fold` accepts opens a transaction, adds a step to an open one, or moves an open one.
pub fold_event-TxStep :
    (txs next : Transactions) (e : Event) → fold_event txs e ≡ ok next → TxStep txs next
unfolding fold_event
fold_event-TxStep txs next e h = fold_type-TxStep e.type e txs next h

fold_begin-other :
    (e : Event) (txs next : Transactions) (k : Bytes) (o : Option Tx)
    → bytes_eq e.tx_id k ≡ false
    → fold_begin e txs o ≡ ok next
    → lookup k next ≡ lookup k txs
unfolding fold_begin
fold_begin-other e txs next k (some _) off h = cc
fold_begin-other e txs next k none off h =
    let same : insert e.tx_id (begun e) txs ≡ next = cc in
    rw (← same) (lookup-insert e.tx_id k _ txs ∙ (rw off))

fold_step-other :
    (e : Event) (txs next : Transactions) (k : Bytes) (o : Option Tx) (s : Option Step)
    → bytes_eq e.tx_id k ≡ false
    → fold_step e txs o s ≡ ok next
    → lookup k next ≡ lookup k txs
unfolding fold_step
fold_step-other e txs next k none s off h = cc
fold_step-other e txs next k (some tx) none off h = cc
fold_step-other e txs next k (some tx) (some s) off h =
    let (c, g) = unless-eq-ok (is_closed tx.state_of) _ (ok (added e tx s txs)) h in
    let same : added e tx s txs ≡ next = cc in
    rw (← same) (lookup-insert e.tx_id k _ txs ∙ (rw off))

fold_state-other :
    (e : Event) (txs next : Transactions) (k : Bytes) (o : Option Tx)
    → bytes_eq e.tx_id k ≡ false
    → fold_state e txs o ≡ ok next
    → lookup k next ≡ lookup k txs
unfolding fold_state
fold_state-other e txs next k none off h = cc
fold_state-other e txs next k (some tx) off h =
    ground (arith, lookup-insert e.tx_id k (record tx { state_of = e.state_of }) txs)

fold_type-other :
    (t : EventType) (e : Event) (txs next : Transactions) (k : Bytes)
    → bytes_eq e.tx_id k ≡ false
    → fold_type t e txs ≡ ok next
    → lookup k next ≡ lookup k txs
unfolding fold_type
fold_type-other begin e txs next k off h = fold_begin-other e txs next k _ off h
fold_type-other step e txs next k off h = fold_step-other e txs next k _ _ off h
fold_type-other state e txs next k off h = fold_state-other e txs next k _ off h
fold_type-other (other_type b) e txs next k off h = cc

-- An event touches no transaction but its own.
pub fold_event-other :
    (txs next : Transactions) (e : Event) (k : Bytes)
    → bytes_eq e.tx_id k ≡ false
    → fold_event txs e ≡ ok next
    → lookup k next ≡ lookup k txs
unfolding fold_event
fold_event-other txs next e k off h = fold_type-other e.type e txs next k off h

-- A key that no event names is not there.
pub fold_from-unnamed :
    (txs next : Transactions) (events : List Event) (k : Bytes)
    → All (λ e. bytes_eq e.tx_id k ≡ false) events
    → fold_from txs events ≡ ok next
    → lookup k next ≡ lookup k txs
unfolding fold_from
fold_from-unnamed txs next [] k off h = let same : txs ≡ next = cc in rw same
fold_from-unnamed txs next (e ∷ events) k off h =
    let (mid, p, q) = >>=-eq-ok (fold_event txs e) (λ m. fold_from m events) h in
    fold_from-unnamed mid next events k off.1 q ∙ fold_event-other txs mid e k off.0 p

pub fold_from-append :
    (txs : Transactions) (xs ys : List Event)
    → fold_from txs (xs ++ ys) ≡ (fold_from txs xs >>= λ mid. fold_from mid ys)
unfolding fold_from
fold_from-append txs [] ys = refl
fold_from-append txs (e ∷ xs) ys = by_event (fold_event txs e) (λ next. fold_from-append next xs ys)
  where
    by_event :
        (r : Result Transactions)
        → ((next : Transactions)
            → fold_from next (xs ++ ys) ≡ (fold_from next xs >>= λ mid. fold_from mid ys))
        → (r >>= λ next. fold_from next (xs ++ ys))
          ≡ ((r >>= λ next. fold_from next xs) >>= λ mid. fold_from mid ys)
    by_event (ok next) ih = ih next
    by_event (err x) ih = refl

-- A step keeps what was committed or rolled back, and the steps that were recorded.
pub record Keeps (before after : Tx) : Type 0 where
  pub same_id : after.id ≡ before.id
  pub same_operation : after.operation ≡ before.operation
  pub same_metadata : after.metadata ≡ before.metadata
  pub same_start : after.began_at ≡ before.began_at
  pub added : List Step
  pub more_steps : after.steps ≡ before.steps ++ added

pub Keeps-refl : (tx : Tx) → Keeps tx tx
Keeps-refl tx = record {
  same_id = refl;
  same_operation = refl;
  same_metadata = refl;
  same_start = refl;
  added = [];
  more_steps = sym (append-nil tx.steps);
}

pub Keeps-trans : {a b c : Tx} → Keeps a b → Keeps b c → Keeps a c
Keeps-trans {a} {b} {c} p q = record {
  same_id = q.same_id ∙ p.same_id;
  same_operation = q.same_operation ∙ p.same_operation;
  same_metadata = q.same_metadata ∙ p.same_metadata;
  same_start = q.same_start ∙ p.same_start;
  added = p.added ++ q.added;
  more_steps =
      q.more_steps
      ∙ ap (λ (l : List Step). l ++ q.added) p.more_steps
      ∙ append_assoc a.steps p.added q.added;
}
