-- ===== src/Base/Text.antt =====
-- Go strings and byte slices as lists of bytes: equality, order, prefixes and occurrences.
use Prim.Native.Nat.{ℕ, ◌<◌, compare, Ordering}
use native.Mathlib.Decide.{dec_lt}
use Prim.Native.Char.{Char, char, code, IsScalar}
use Prim.Native.String.{String}
use mathlib.Core.Path.{◌≡◌, refl}
use mathlib.Core.Logic.{◌↔◌, inl, inr, dite}
use mathlib.Core.Bool.{Bool, true, false, ◌&&◌, ◌||◌}
use mathlib.Core.List.{List, [], ◌∷◌, ◌++◌}
use native.Mathlib.Omega.{arith}
use pmux.Base.Tests.{Bool-cases, ◌==◌, ltb}
use pmux.Base.Lists.{length, drop}

-- The bytes of a Go string or of a file.
abbrev pub Bytes : Type 0
Bytes = List ℕ

-- The bytes of an ASCII literal.
abbrev pub codes : String → Bytes
codes String.[] = []
codes (String.◌∷◌ letter text) = code letter ∷ codes text

pub ascii-IsScalar : (n : ℕ) → n < 128 → IsScalar n
ascii-IsScalar n h = rw (lt_of n h) tt
  where
    lt_of : (n : ℕ) → n < 128 → compare n 55296 ≡ Ordering.lt
    lt_of n h = ground arith

char_of : ℕ → Char
unfolding dec_lt
char_of n = dite (dec_lt n 128) (λ h. char n (ascii-IsScalar n h)) (λ _. char 65533 tt)

-- The text of ASCII bytes; other bytes become U+FFFD.
unfoldable pub text_of : Bytes → String
unfolding char_of
text_of [] = String.[]
text_of (c ∷ s) = String.◌∷◌ (char_of c) (text_of s)

-- Equality of strings.
unfoldable pub bytes_eq : Bytes → Bytes → Bool
bytes_eq [] [] = true
bytes_eq (a ∷ s) (b ∷ t) = a == b && bytes_eq s t
bytes_eq _ _ = false

pub bytes_eq_refl : (s : Bytes) → bytes_eq s s ≡ true
unfolding bytes_eq
bytes_eq_refl [] = refl
bytes_eq_refl (a ∷ s) = ground (arith, bytes_eq_refl s)

pub bytes_eq_sound : (s t : Bytes) → bytes_eq s t ≡ true → s ≡ t
unfolding bytes_eq
bytes_eq_sound [] [] h = refl
bytes_eq_sound (a ∷ s) (b ∷ t) h = ground (arith, bytes_eq_sound s t)
bytes_eq_sound [] (b ∷ t) h = cc
bytes_eq_sound (a ∷ s) [] h = cc

pub bytes_eq_iff : (s t : Bytes) → (bytes_eq s t ≡ true) ↔ (s ≡ t)
bytes_eq_iff s t = (bytes_eq_sound s t, λ e. rw e (bytes_eq_refl t))

pub bytes_eq_symm : (s t : Bytes) → bytes_eq s t ≡ false → bytes_eq t s ≡ false
unfolding bytes_eq
bytes_eq_symm [] [] h = h
bytes_eq_symm [] (b ∷ t) h = refl
bytes_eq_symm (a ∷ s) [] h = refl
bytes_eq_symm (a ∷ s) (b ∷ t) h = ground (arith, bytes_eq_symm s t)

-- `s < t` on strings: byte by byte.
unfoldable pub bytes_lt : Bytes → Bytes → Bool
bytes_lt [] [] = false
bytes_lt [] (b ∷ t) = true
bytes_lt (a ∷ s) [] = false
bytes_lt (a ∷ s) (b ∷ t) = ltb a b || (a == b && bytes_lt s t)

pub bytes_lt_irrefl : (s : Bytes) → bytes_lt s s ≡ false
unfolding bytes_lt
bytes_lt_irrefl [] = refl
bytes_lt_irrefl (a ∷ s) = ground (arith, bytes_lt_irrefl s)

pub bytes_lt_connected : (s t : Bytes) → bytes_lt s t ≡ false → bytes_lt t s ≡ false → s ≡ t
unfolding bytes_lt
bytes_lt_connected [] [] h k = refl
bytes_lt_connected [] (b ∷ t) h k = cc
bytes_lt_connected (a ∷ s) [] h k = cc
bytes_lt_connected (a ∷ s) (b ∷ t) h k = ground (arith, bytes_lt_connected s t)

pub bytes_lt_trans :
    (s t u : Bytes) → bytes_lt s t ≡ true → bytes_lt t u ≡ true → bytes_lt s u ≡ true
unfolding bytes_lt
bytes_lt_trans [] [] u h k = cc
bytes_lt_trans [] (b ∷ t) [] h k = cc
bytes_lt_trans [] (b ∷ t) (c ∷ u) h k = refl
bytes_lt_trans (a ∷ s) [] u h k = cc
bytes_lt_trans (a ∷ s) (b ∷ t) [] h k = cc
bytes_lt_trans (a ∷ s) (b ∷ t) (c ∷ u) h k = ground (arith, bytes_lt_trans s t u)

-- `strings.HasPrefix t s`.
unfoldable pub has_prefix : Bytes → Bytes → Bool
has_prefix t [] = true
has_prefix [] (a ∷ s) = false
has_prefix (b ∷ t) (a ∷ s) = a == b && has_prefix t s

-- `strings.Contains t s`.
unfoldable pub contains : Bytes → Bytes → Bool
unfolding has_prefix
contains [] s = has_prefix [] s
contains (b ∷ t) s = has_prefix (b ∷ t) s || contains t s

pub has_prefix_split : (t s : Bytes) → has_prefix t s ≡ true → s ++ drop (length s) t ≡ t
unfolding has_prefix
has_prefix_split t [] h = refl
has_prefix_split [] (a ∷ s) h = cc
has_prefix_split (b ∷ t) (a ∷ s) h = ground (arith, has_prefix_split t s)

-- The order is total up to equality: what lies between two texts is above one or below the other.
pub bytes_lt_between :
    (s t u : Bytes) → bytes_lt s t ≡ false → bytes_lt t u ≡ false → bytes_lt s u ≡ false
bytes_lt_between s t u h k = elim (Bool-cases (bytes_lt s u)) [
  | inr e ↦ e
  | inl e ↦ elim (Bool-cases (bytes_lt t s)) [
    | inl p ↦ let x = bytes_lt_trans t s u p e in cc
    | inr p ↦ let same : s ≡ t = bytes_lt_connected s t h p in rw same k
  ]
]
