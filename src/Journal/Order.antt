-- ===== src/Journal/Order.antt =====
-- The order in which `Pending` lists transactions.
use mathlib.Core.Path.{subst}
use mathlib.Core.List.{Memᴰ}
use pmux.Base.{
  true, false, ◌≡◌, sym, ap, ◌∙◌, some, List, [], ◌∷◌, Bytes, arith, All, bytes_lt_between,
  bytes_lt_irrefl, bytes_lt_trans, Bool-cases, inl, inr, ◌↔◌,
}
use pmux.Base.Assoc.{lookup, IsMap, insert-IsMap, lookup_of_mem, mem_of_lookup}
use pmux.Pmuxerr.{ok, >>=-eq-ok}
use pmux.Journal.{
  Event, Tx, Transactions, tx_less, insert_tx, sort_txs, select_pending, is_pending, fold_event,
  fold_from, fold,
}
use pmux.Journal.Fold.{TxStep, opens, adds, moves, fold_event-TxStep}

-- No transaction of the list is listed before one that precedes it in time, or at the same time by ID.
abbrev pub IsOrdered : List Tx → Type 0
IsOrdered [] = Unit
IsOrdered (t ∷ ts) = All (λ u. tx_less u t ≡ false) ts × IsOrdered ts

tx_less_asym : (a b : Tx) → tx_less a b ≡ true → tx_less b a ≡ false
unfolding tx_less
tx_less_asym a b h = ground (arith, bytes_lt_trans a.id b.id a.id, bytes_lt_irrefl a.id)

tx_less_between : (a b c : Tx) → tx_less a b ≡ false → tx_less b c ≡ false → tx_less a c ≡ false
unfolding tx_less
tx_less_between a b c h k = ground (arith, bytes_lt_between a.id b.id c.id)

All-insert_tx : (P : Tx → Type 0) (t : Tx) (ts : List Tx) → P t → All P ts → All P (insert_tx t ts)
unfolding insert_tx
All-insert_tx P t [] h a = (h, tt)
All-insert_tx P t (u ∷ ts) h a = elim (Bool-cases (tx_less u t)) [
  | inl e ↦ rw e (a.0, All-insert_tx P t ts h a.1)
  | inr e ↦ rw e (h, (a.0, a.1))
]

All-between :
    (t u : Tx) (ts : List Tx)
    → tx_less u t ≡ false
    → All (λ v. tx_less v u ≡ false) ts
    → All (λ v. tx_less v t ≡ false) ts
All-between t u [] h a = tt
All-between t u (v ∷ ts) h a = (tx_less_between v u t a.0 h, All-between t u ts h a.1)

insert_tx-IsOrdered : (t : Tx) (ts : List Tx) → IsOrdered ts → IsOrdered (insert_tx t ts)
unfolding insert_tx
insert_tx-IsOrdered t [] h = (tt, tt)
insert_tx-IsOrdered t (u ∷ ts) h = elim (Bool-cases (tx_less u t)) [
  | inl e ↦ rw e (
    All-insert_tx (λ v. tx_less v u ≡ false) t ts (tx_less_asym u t e) h.0,
    insert_tx-IsOrdered t ts h.1,
  )
  | inr e ↦ rw e ((e, All-between t u ts e h.0), (h.0, h.1))
]

pub sort_txs-IsOrdered : (ts : List Tx) → IsOrdered (sort_txs ts)
unfolding sort_txs
sort_txs-IsOrdered [] = tt
sort_txs-IsOrdered (t ∷ ts) = insert_tx-IsOrdered t (sort_txs ts) (sort_txs-IsOrdered ts)

-- Sorting keeps the members.
mem-insert_tx : (x t : Tx) (ts : List Tx) → Memᴰ x (t ∷ ts) → Memᴰ x (insert_tx t ts)
unfolding insert_tx
mem-insert_tx x t [] m = m
mem-insert_tx x t (u ∷ ts) m = elim (Bool-cases (tx_less u t)) [
  | inl e ↦ rw e (moved m (mem-insert_tx x t ts))
  | inr e ↦ rw e m
]
  where
    moved :
        Memᴰ x (t ∷ u ∷ ts)
        → (Memᴰ x (t ∷ ts) → Memᴰ x (insert_tx t ts))
        → Memᴰ x (u ∷ insert_tx t ts)
    moved (Memᴰ.head e) f = Memᴰ.tail (f (Memᴰ.head e))
    moved (Memᴰ.tail (Memᴰ.head e)) f = Memᴰ.head e
    moved (Memᴰ.tail (Memᴰ.tail p)) f = Memᴰ.tail (f (Memᴰ.tail p))

mem_of_mem-insert_tx : (x t : Tx) (ts : List Tx) → Memᴰ x (insert_tx t ts) → Memᴰ x (t ∷ ts)
unfolding insert_tx
mem_of_mem-insert_tx x t [] m = m
mem_of_mem-insert_tx x t (u ∷ ts) m = elim (Bool-cases (tx_less u t)) [
  | inl e ↦ moved (rw e at m) (mem_of_mem-insert_tx x t ts)
  | inr e ↦ rw e at m
]
  where
    swapped : Memᴰ x (t ∷ ts) → Memᴰ x (t ∷ u ∷ ts)
    swapped (Memᴰ.head e) = Memᴰ.head e
    swapped (Memᴰ.tail p) = Memᴰ.tail (Memᴰ.tail p)

    moved :
        Memᴰ x (u ∷ insert_tx t ts)
        → (Memᴰ x (insert_tx t ts) → Memᴰ x (t ∷ ts))
        → Memᴰ x (t ∷ u ∷ ts)
    moved (Memᴰ.head e) f = Memᴰ.tail (Memᴰ.head e)
    moved (Memᴰ.tail p) f = swapped (f p)

tail_map :
    {x t : Tx} {ts us : List Tx} → (Memᴰ x ts → Memᴰ x us) → Memᴰ x (t ∷ ts) → Memᴰ x (t ∷ us)
tail_map f (Memᴰ.head e) = Memᴰ.head e
tail_map f (Memᴰ.tail p) = Memᴰ.tail (f p)

pub mem-sort_txs : (x : Tx) (ts : List Tx) → Memᴰ x (sort_txs ts) ↔ Memᴰ x ts
unfolding sort_txs
mem-sort_txs x [] = (λ m. m, λ m. m)
mem-sort_txs x (t ∷ ts) =
    let (there, back) = mem-sort_txs x ts in
    (
      λ m. tail_map there (mem_of_mem-insert_tx x t (sort_txs ts) m),
      λ m. mem-insert_tx x t (sort_txs ts) (tail_map back m),
    )

-- `select_pending` selects exactly the pending entries.
abbrev pub Selected : Tx → Transactions → Type 0
Selected x txs = (id : Bytes) × Memᴰ (id, x) txs × (is_pending x.state_of ≡ true)

later : {x : Tx} {e : Bytes × Tx} {txs : Transactions} → Selected x txs → Selected x (e ∷ txs)
later (id, m, p) = (id, Memᴰ.tail m, p)

select_pending_sound : (x : Tx) (txs : Transactions) → Memᴰ x (select_pending txs) → Selected x txs
unfolding select_pending
select_pending_sound x [] m = elim m [ ]
select_pending_sound x ((k, t) ∷ txs) m = elim (Bool-cases (is_pending t.state_of)) [
  | inl e ↦ chosen e (rw e at m) (select_pending_sound x txs)
  | inr e ↦ later (select_pending_sound x txs (rw e at m))
]
  where
    chosen :
        is_pending t.state_of ≡ true
        → Memᴰ x (t ∷ select_pending txs)
        → (Memᴰ x (select_pending txs) → Selected x txs)
        → Selected x ((k, t) ∷ txs)
    chosen e (Memᴰ.head same) f = (
      k,
      Memᴰ.head (ap (λ (y : Tx). (k, y)) same),
      ap (λ (y : Tx). is_pending y.state_of) same ∙ e,
    )
    chosen e (Memᴰ.tail p) f = later (f p)

select_pending-complete :
    (x : Tx) (id : Bytes) (txs : Transactions)
    → Memᴰ (id, x) txs
    → is_pending x.state_of ≡ true
    → Memᴰ x (select_pending txs)
unfolding select_pending
select_pending-complete x id [] m p = elim m [ ]
select_pending-complete x id ((k, t) ∷ txs) (Memᴰ.head e) p =
    let same : x ≡ t = ap (λ (y : Bytes × Tx). y.1) e in
    let q : is_pending t.state_of ≡ true = ap (λ (y : Tx). is_pending y.state_of) (sym same) ∙ p in
    rw q (Memᴰ.head same)
select_pending-complete x id ((k, t) ∷ txs) (Memᴰ.tail m) p =
    let there : Memᴰ x (select_pending txs) = select_pending-complete x id txs m p in
    elim (Bool-cases (is_pending t.state_of)) [
      | inl e ↦ rw e (Memᴰ.tail there)
      | inr e ↦ rw e there
    ]

TxStep-IsMap : {txs next : Transactions} → TxStep txs next → IsMap txs → IsMap next
TxStep-IsMap {txs} (opens tx l s p) h = insert-IsMap tx.id tx txs h
TxStep-IsMap {txs} (adds id tx s l c) h = insert-IsMap id _ txs h
TxStep-IsMap {txs} (moves id tx s l c o) h = insert-IsMap id _ txs h

fold_from-IsMap :
    (txs next : Transactions) (events : List Event)
    → fold_from txs events ≡ ok next
    → IsMap txs
    → IsMap next
unfolding fold_from
fold_from-IsMap txs next [] h m = let same : txs ≡ next = cc in subst IsMap same m
fold_from-IsMap txs next (e ∷ events) h m =
    let (mid, p, q) = >>=-eq-ok (fold_event txs e) (λ t. fold_from t events) h in
    fold_from-IsMap mid next events q (TxStep-IsMap (fold_event-TxStep txs mid e p) m)

fold-IsMap : (events : List Event) (txs : Transactions) → fold events ≡ ok txs → IsMap txs
unfolding fold
fold-IsMap events txs h = fold_from-IsMap [] txs events h tt

-- The sorted pending transactions of a folded journal: in order, and exactly those that its map has
-- in a pending state.
pub pending_list :
    (events : List Event) (txs : Transactions)
    → fold events ≡ ok txs
    → IsOrdered (sort_txs (select_pending txs))
      × ((x : Tx)
          → Memᴰ x (sort_txs (select_pending txs))
            ↔ ((id : Bytes) × (lookup id txs ≡ some x) × (is_pending x.state_of ≡ true)))
pending_list events txs h = (
  sort_txs-IsOrdered (select_pending txs),
  λ x. (
    λ m.
        let (id, e, p) = select_pending_sound x txs ((mem-sort_txs x (select_pending txs)).0 m) in
        (id, lookup_of_mem id x txs (fold-IsMap events txs h) e, p),
    λ (id, l, p).
        (mem-sort_txs x (select_pending txs)).1
          (select_pending-complete x id txs (mem_of_lookup id x txs l) p),
  ),
)
