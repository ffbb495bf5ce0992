-- ===== src/Journal/Store/Pending.antt =====
-- `Pending`: what it returns of a journal that it can read.
use mathlib.Core.List.{Memᴰ}
use pmux.Base.{
  true, false, ◌<◌, ◌≡◌, ◌↔◌, ◌⊎◌, inl, inr, refl, some, List, [], ◌∷◌, Bytes, bytes_lt, All, arith,
}
use pmux.Base.Assoc.{lookup}
use pmux.Pmuxerr.{ok, ◌>>=◌, >>=-eq-ok}
use pmux.Journal.{
  Tx, TxState, in_progress, interrupted, failed, completed, rolled_back, other_state, tx_less,
  Transactions, is_pending, fold, select_pending, sort_txs,
}
use pmux.Journal.Order.{IsOrdered, pending_list}
use pmux.Journal.Encoding.{Encoding}
use pmux.Journal.Store.{Journal, ReadFaults, read_events, pending}
use pmux.Journal.Store.Reading.{read_events-read_all}
use pmux.Journal.Store.Spec.{view}

-- The second transaction began later, or at the same time and its ID is not the smaller one.
abbrev pub Follows : Tx → Tx → Type 0
Follows t u = (t.began_at < u.began_at) ⊎ ((t.began_at ≡ u.began_at) × (bytes_lt u.id t.id ≡ false))

-- Every transaction follows all those before it.
abbrev pub IsChronological : List Tx → Type 0
IsChronological [] = Unit
IsChronological (t ∷ ts) = All (Follows t) ts × IsChronological ts

abbrev pub IsUnfinished : TxState → Type 0
IsUnfinished s = (s ≡ in_progress) ⊎ ((s ≡ interrupted) ⊎ (s ≡ failed))

tx_less-Follows : (t u : Tx) → tx_less u t ≡ false → Follows t u
unfolding tx_less
tx_less-Follows t u h = ground arith

All-Follows : (t : Tx) (ts : List Tx) → All (λ u. tx_less u t ≡ false) ts → All (Follows t) ts
All-Follows t [] h = tt
All-Follows t (u ∷ ts) h = (tx_less-Follows t u h.0, All-Follows t ts h.1)

IsOrdered-IsChronological : (ts : List Tx) → IsOrdered ts → IsChronological ts
IsOrdered-IsChronological [] h = tt
IsOrdered-IsChronological (t ∷ ts) h = (All-Follows t ts h.0, IsOrdered-IsChronological ts h.1)

finished :
    (s : TxState)
    → (s ≡ in_progress → ⊥)
    → (s ≡ interrupted → ⊥)
    → (s ≡ failed → ⊥)
    → IsUnfinished s
    → false ≡ true
finished s a b c (inl e) = absurd (a e)
finished s a b c (inr (inl e)) = absurd (b e)
finished s a b c (inr (inr e)) = absurd (c e)

is_pending-IsUnfinished : (s : TxState) → (is_pending s ≡ true) ↔ IsUnfinished s
unfolding is_pending
is_pending-IsUnfinished in_progress = (λ _. inl refl, λ _. refl)
is_pending-IsUnfinished interrupted = (λ _. inr (inl refl), λ _. refl)
is_pending-IsUnfinished failed = (λ _. inr (inr refl), λ _. refl)
is_pending-IsUnfinished completed = (λ h. cc, finished completed (λ e. cc) (λ e. cc) (λ e. cc))
is_pending-IsUnfinished rolled_back = (λ h. cc, finished rolled_back (λ e. cc) (λ e. cc) (λ e. cc))
is_pending-IsUnfinished (other_state b) =
    (λ h. cc, finished (other_state b) (λ e. cc) (λ e. cc) (λ e. cc))

-- If `Pending` of a journal that holds `txs` succeeds, its list is in order of start time and then ID
-- and holds exactly the transactions of `txs` that are in progress, interrupted or failed.
pub pending_exact :
    (c : Encoding) (f : ReadFaults) (j : Journal) (txs : Transactions) (out : List Tx)
    → view c j ≡ ok txs
    → pending c f j ≡ ok out
    → IsChronological out
      × ((x : Tx)
          → Memᴰ x out ↔ ((id : Bytes) × (lookup id txs ≡ some x) × IsUnfinished x.state_of))
unfolding pending
pending_exact c f j txs out held h =
    let (events, r, q) =
      >>=-eq-ok (read_events c f j.file)
        (λ events. fold events >>= λ t. ok (sort_txs (select_pending t))) h in
    let (t, folds, same) = >>=-eq-ok (fold events) (λ t. ok (sort_txs (select_pending t))) q in
    let seen : fold events ≡ ok txs = rw (read_events-read_all c f j.file events r) at held in
    let one : t ≡ txs = cc in
    let list : sort_txs (select_pending txs) ≡ out = cc in
    let (ordered, exact) = pending_list events txs seen in
    let p : (s : TxState) → (is_pending s ≡ true) ↔ IsUnfinished s = is_pending-IsUnfinished in
    rw (← list) (
      IsOrdered-IsChronological (sort_txs (select_pending txs)) ordered,
      λ x. (
        λ m. let (id, l, q) = (exact x).0 m in (id, l, (p x.state_of).0 q),
        λ (id, l, q). (exact x).1 (id, l, (p x.state_of).1 q),
      ),
    )
