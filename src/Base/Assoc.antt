-- ===== src/Base/Assoc.antt =====
-- Go maps with string keys, as association lists.
use mathlib.Core.Path.{◌≡◌, refl, sym, ap, ap₂, ◌∙◌, subst}
use mathlib.Core.Logic.{inl, inr}
use mathlib.Core.Option.{Option, none, some}
use mathlib.Core.List.{List, [], ◌∷◌, Memᴰ}
use native.Mathlib.Omega.{arith}
use pmux.Base.Tests.{Bool-cases, if◌then◌else◌}
use pmux.Base.Text.{Bytes, bytes_eq, bytes_eq_iff, bytes_eq_sound, bytes_eq_symm, bytes_eq_refl}

module _ {ℓ} {V : Type ℓ} where
  unfoldable pub lookup : Bytes → List (Bytes × V) → Option V
  lookup key [] = none
  lookup key ((k, value) ∷ rest) = if bytes_eq k key then some value else lookup key rest

  -- `m[k] = v`.
  unfoldable pub insert : Bytes → V → List (Bytes × V) → List (Bytes × V)
  insert key new [] = (key, new) ∷ []
  insert key new ((k, value) ∷ rest) =
      if bytes_eq k key then (key, new) ∷ rest else (k, value) ∷ insert key new rest

  -- `delete(m, k)`, and the removal of a file.
  unfoldable pub remove : Bytes → List (Bytes × V) → List (Bytes × V)
  remove key [] = []
  remove key ((k, value) ∷ rest) =
      let others = remove key rest in if bytes_eq k key then others else (k, value) ∷ others

  pub lookup-remove :
      (k j : Bytes) (m : List (Bytes × V))
      → lookup j (remove k m) ≡ (if bytes_eq k j then none else lookup j m)
  unfolding lookup remove
  lookup-remove k j [] = ground arith
  lookup-remove k j ((i, w) ∷ m) =
      ground (arith, bytes_eq_iff k j, bytes_eq_iff i k, bytes_eq_iff i j, lookup-remove k j m)

  -- A write is seen at its key, and nowhere else.
  pub lookup-insert :
      (k j : Bytes) (v : V) (m : List (Bytes × V))
      → lookup j (insert k v m) ≡ (if bytes_eq k j then some v else lookup j m)
  unfolding lookup insert
  lookup-insert k j v [] = refl
  lookup-insert k j v ((i, w) ∷ m) =
      ground (arith, bytes_eq_iff k j, bytes_eq_iff i k, bytes_eq_iff i j, lookup-insert k j v m)

  -- A map has one entry for a key.
  abbrev pub IsMap : List (Bytes × V) → Type ℓ
  IsMap [] = Unit
  IsMap ((k, v) ∷ m) = (lookup k m ≡ none) × IsMap m

  pub insert-IsMap : (k : Bytes) (v : V) (m : List (Bytes × V)) → IsMap m → IsMap (insert k v m)
  unfolding insert
  insert-IsMap k v [] h = (unfold lookup in refl, tt)
  insert-IsMap k v ((j, w) ∷ m) h = elim (Bool-cases (bytes_eq j k)) [
    | inl e ↦ rw e (subst (λ (b : Bytes). lookup b m ≡ none) (bytes_eq_sound j k e) h.0, h.1)
    | inr e ↦ rw e (lookup-insert k j v m ∙ (rw (bytes_eq_symm j k e) h.0), insert-IsMap k v m h.1)
  ]

  -- The entries of a map are what its lookups find.
  pub lookup_of_mem :
      (k : Bytes) (v : V) (m : List (Bytes × V)) → IsMap m → Memᴰ (k, v) m → lookup k m ≡ some v
  unfolding lookup
  lookup_of_mem k v [] h p = elim p [ ]
  lookup_of_mem k v ((j, w) ∷ m) h (Memᴰ.head e) =
      let same : k ≡ j = ap (λ (p : Bytes × V). p.0) e in
      let value : v ≡ w = ap (λ (p : Bytes × V). p.1) e in rw (same, value) (rw (bytes_eq_refl j))
  lookup_of_mem k v ((j, w) ∷ m) h (Memᴰ.tail p) =
      let there : lookup k m ≡ some v = lookup_of_mem k v m h.1 p in
      elim (Bool-cases (bytes_eq j k)) [
        | inl e ↦
            let both : none ≡ some v =
              sym h.0 ∙ ap (λ (b : Bytes). lookup b m) (bytes_eq_sound j k e) ∙ there in
            cc
        | inr e ↦ rw e there
      ]

  pub mem_of_lookup :
      (k : Bytes) (v : V) (m : List (Bytes × V)) → lookup k m ≡ some v → Memᴰ (k, v) m
  unfolding lookup
  mem_of_lookup k v [] h = cc
  mem_of_lookup k v ((j, w) ∷ m) h = elim (Bool-cases (bytes_eq j k)) [
    | inl e ↦
        let found : some w ≡ some v = rw e at h in
        let value : w ≡ v = cc in
        Memᴰ.head (ap₂ (λ (b : Bytes) (x : V). (b, x)) (sym (bytes_eq_sound j k e)) (sym value))
    | inr e ↦ Memᴰ.tail (mem_of_lookup k v m (rw e at h))
  ]
