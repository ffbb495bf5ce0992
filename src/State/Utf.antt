-- ===== src/State/Utf.antt =====
-- What `strings.Split` and `utf8.RuneCountInString` do on the bytes of a mask.
use pmux.Base.{
  ℕ, zero, suc, Bool, true, false, ◌&&◌, List, [], ◌∷◌, Bytes, leb, has_prefix, if◌then◌else◌,
}
use pmux.Redact.{ellipsis}

abbrev pub in_front : ℕ → List Bytes → List Bytes
in_front c [] = (c ∷ []) ∷ []
in_front c (part ∷ parts) = (c ∷ part) ∷ parts

-- `strings.Split(s, "…")`; `skip` counts the bytes of an ellipsis still to drop.
unfoldable pub split_from : ℕ → Bytes → List Bytes
split_from skip [] = [] ∷ []
split_from (suc skip) (c ∷ s) = split_from skip s
split_from zero (c ∷ s) = elim (has_prefix (c ∷ s) ellipsis) [
  | true ↦ [] ∷ split_from 2 s
  | false ↦ in_front c (split_from zero s)
]

unfoldable pub split_mask : Bytes → List Bytes
unfolding split_from
split_mask s = split_from zero s

abbrev is_in : ℕ → ℕ → ℕ → Bool
is_in lo hi c = leb lo c && leb c hi

-- The bytes behind the first one of a rune are in the range of continuations.
abbrev continues : ℕ → Bytes → Bool
continues zero s = true
continues (suc n) [] = false
continues (suc n) (c ∷ s) = is_in 128 191 c && continues n s

-- A rune whose second byte is in a range, with `more` bytes behind it; an encoding that is not valid
-- is a rune of one byte.
abbrev rune_behind : ℕ → ℕ → ℕ → Bytes → ℕ
rune_behind lo hi more [] = 0
rune_behind lo hi more (c ∷ s) = if is_in lo hi c && continues more s then suc more else 0

-- How many bytes of the first rune are behind its first byte.
unfoldable pub bytes_behind : ℕ → Bytes → ℕ
bytes_behind c s =
    if is_in 194 223 c
    then rune_behind 128 191 0 s
    else if is_in 224 224 c
    then rune_behind 160 191 1 s
    else if is_in 237 237 c
    then rune_behind 128 159 1 s
    else if is_in 225 239 c
    then rune_behind 128 191 1 s
    else if is_in 240 240 c
    then rune_behind 144 191 2 s
    else if is_in 241 243 c
    then rune_behind 128 191 2 s
    else if is_in 244 244 c
    then rune_behind 128 143 2 s
    else 0

unfoldable pub runes_from : ℕ → Bytes → ℕ
unfolding bytes_behind
runes_from skip [] = 0
runes_from (suc skip) (c ∷ s) = runes_from skip s
runes_from zero (c ∷ s) = suc (runes_from (bytes_behind c s) s)

-- `utf8.RuneCountInString`.
unfoldable pub rune_count : Bytes → ℕ
unfolding runes_from
rune_count s = runes_from zero s
