-- ===== src/Base/Sorting.antt =====
-- Lists sorted by a string, as `slices.SortFunc` with `strings.Compare` leaves them when the strings
-- are distinct.
use mathlib.Core.Path.{◌≡◌, refl}
use mathlib.Core.Logic.{◌↔◌, inl, inr}
use mathlib.Core.Bool.{true, false}
use mathlib.Core.List.{List, [], ◌∷◌, Memᴰ, Permᴰ}
use pmux.Base.Tests.{Bool-cases, if◌then◌else◌}
use pmux.Base.Lists.{All}
use pmux.Base.Text.{Bytes, bytes_lt, bytes_lt_irrefl, bytes_lt_trans, bytes_lt_between}

bytes_lt_asym : (s t : Bytes) → bytes_lt s t ≡ true → bytes_lt t s ≡ false
bytes_lt_asym s t h = elim (Bool-cases (bytes_lt t s)) [
  | inr e ↦ e
  | inl e ↦ let x = bytes_lt_trans s t s h e in let y = bytes_lt_irrefl s in cc
]

perm_same : {A : Type 0} (xs : List A) → Permᴰ xs xs
perm_same [] = Permᴰ.nil
perm_same (x ∷ xs) = Permᴰ.cons refl (perm_same xs)

module _ {A : Type 0} (key : A → Bytes) where
  unfoldable pub insert_by : A → List A → List A
  insert_by x [] = x ∷ []
  insert_by x (y ∷ ys) =
      let rest = insert_by x ys in if bytes_lt (key y) (key x) then y ∷ rest else x ∷ y ∷ ys

  unfoldable pub sort_by : List A → List A
  unfolding insert_by
  sort_by [] = []
  sort_by (x ∷ xs) = insert_by x (sort_by xs)

  -- No element stands before one with a smaller key.
  abbrev pub IsSorted : List A → Type 0
  IsSorted [] = Unit
  IsSorted (x ∷ xs) = All (λ y. bytes_lt (key y) (key x) ≡ false) xs × IsSorted xs

  All-insert_by : (P : A → Type 0) (x : A) (ys : List A) → P x → All P ys → All P (insert_by x ys)
  unfolding insert_by
  All-insert_by P x [] h a = (h, tt)
  All-insert_by P x (y ∷ ys) h a = elim (Bool-cases (bytes_lt (key y) (key x))) [
    | inl e ↦ rw e (a.0, All-insert_by P x ys h a.1)
    | inr e ↦ rw e (h, (a.0, a.1))
  ]

  pub All-sort_by : (P : A → Type 0) (xs : List A) → All P xs → All P (sort_by xs)
  unfolding sort_by
  All-sort_by P [] a = tt
  All-sort_by P (x ∷ xs) a = All-insert_by P x (sort_by xs) a.0 (All-sort_by P xs a.1)

  below-All :
      (x y : A) (zs : List A)
      → bytes_lt (key y) (key x) ≡ false
      → All (λ z. bytes_lt (key z) (key y) ≡ false) zs
      → All (λ z. bytes_lt (key z) (key x) ≡ false) zs
  below-All x y [] h a = tt
  below-All x y (z ∷ zs) h a =
      (bytes_lt_between (key z) (key y) (key x) a.0 h, below-All x y zs h a.1)

  insert_by-IsSorted : (x : A) (ys : List A) → IsSorted ys → IsSorted (insert_by x ys)
  unfolding insert_by
  insert_by-IsSorted x [] h = (tt, tt)
  insert_by-IsSorted x (y ∷ ys) h = elim (Bool-cases (bytes_lt (key y) (key x))) [
    | inl e ↦ rw e (
      All-insert_by (λ z. bytes_lt (key z) (key y) ≡ false) x ys (bytes_lt_asym (key y) (key x) e)
          h.0,
      insert_by-IsSorted x ys h.1,
    )
    | inr e ↦ rw e ((e, below-All x y ys e h.0), (h.0, h.1))
  ]

  pub sort_by-IsSorted : (xs : List A) → IsSorted (sort_by xs)
  unfolding sort_by
  sort_by-IsSorted [] = tt
  sort_by-IsSorted (x ∷ xs) = insert_by-IsSorted x (sort_by xs) (sort_by-IsSorted xs)

  insert_by-Perm : (x : A) (ys : List A) → Permᴰ (x ∷ ys) (insert_by x ys)
  unfolding insert_by
  insert_by-Perm x [] = Permᴰ.cons refl Permᴰ.nil
  insert_by-Perm x (y ∷ ys) = elim (Bool-cases (bytes_lt (key y) (key x))) [
    | inl e ↦ rw e (Permᴰ.trans (Permᴰ.swap refl refl) (Permᴰ.cons refl (insert_by-Perm x ys)))
    | inr e ↦ rw e (perm_same (x ∷ y ∷ ys))
  ]

  -- Sorting gives the same elements as often.
  pub sort_by-Perm : (xs : List A) → Permᴰ xs (sort_by xs)
  unfolding sort_by
  sort_by-Perm [] = Permᴰ.nil
  sort_by-Perm (x ∷ xs) =
      Permᴰ.trans (Permᴰ.cons refl (sort_by-Perm xs)) (insert_by-Perm x (sort_by xs))

  mem-insert_by : (a x : A) (ys : List A) → Memᴰ a (x ∷ ys) → Memᴰ a (insert_by x ys)
  unfolding insert_by
  mem-insert_by a x [] m = m
  mem-insert_by a x (y ∷ ys) m = elim (Bool-cases (bytes_lt (key y) (key x))) [
    | inl e ↦ rw e (moved m (mem-insert_by a x ys))
    | inr e ↦ rw e m
  ]
    where
      moved :
          Memᴰ a (x ∷ y ∷ ys)
          → (Memᴰ a (x ∷ ys) → Memᴰ a (insert_by x ys))
          → Memᴰ a (y ∷ insert_by x ys)
      moved (Memᴰ.head e) f = Memᴰ.tail (f (Memᴰ.head e))
      moved (Memᴰ.tail (Memᴰ.head e)) f = Memᴰ.head e
      moved (Memᴰ.tail (Memᴰ.tail p)) f = Memᴰ.tail (f (Memᴰ.tail p))

  mem_of_mem-insert_by : (a x : A) (ys : List A) → Memᴰ a (insert_by x ys) → Memᴰ a (x ∷ ys)
  unfolding insert_by
  mem_of_mem-insert_by a x [] m = m
  mem_of_mem-insert_by a x (y ∷ ys) m = elim (Bool-cases (bytes_lt (key y) (key x))) [
    | inl e ↦ moved (rw e at m) (mem_of_mem-insert_by a x ys)
    | inr e ↦ rw e at m
  ]
    where
      swapped : Memᴰ a (x ∷ ys) → Memᴰ a (x ∷ y ∷ ys)
      swapped (Memᴰ.head e) = Memᴰ.head e
      swapped (Memᴰ.tail p) = Memᴰ.tail (Memᴰ.tail p)

      moved :
          Memᴰ a (y ∷ insert_by x ys)
          → (Memᴰ a (insert_by x ys) → Memᴰ a (x ∷ ys))
          → Memᴰ a (x ∷ y ∷ ys)
      moved (Memᴰ.head e) f = Memᴰ.tail (Memᴰ.head e)
      moved (Memᴰ.tail p) f = swapped (f p)

  onto : {a x : A} {xs ys : List A} → (Memᴰ a xs → Memᴰ a ys) → Memᴰ a (x ∷ xs) → Memᴰ a (x ∷ ys)
  onto f (Memᴰ.head e) = Memᴰ.head e
  onto f (Memᴰ.tail p) = Memᴰ.tail (f p)

  -- Sorting keeps the members.
  pub mem-sort_by : (a : A) (xs : List A) → Memᴰ a (sort_by xs) ↔ Memᴰ a xs
  unfolding sort_by
  mem-sort_by a [] = (λ m. m, λ m. m)
  mem-sort_by a (x ∷ xs) = (
    λ m. onto (mem-sort_by a xs).0 (mem_of_mem-insert_by a x (sort_by xs) m),
    λ m. mem-insert_by a x (sort_by xs) (onto (mem-sort_by a xs).1 m),
  )
