-- ===== src/Redact/Masking.antt =====
-- `Mask` and `Map` of internal/redact/redact.go: how much of a sensitive value they show.
use pmux.Base.{
  Bytes, true, List, [], ◌∷◌, ◌++◌, ◌-◌, ◌<◌, ◌≤◌, length, take, drop, arith, ◌≡◌, refl, ◌∙◌, sym,
}
use pmux.Redact.{mask, ellipsis, stars, is_sensitive_key, redact_map}

-- Two values that agree in what may be shown of them: nothing but emptiness up to eleven bytes, the
-- first seven and the last four bytes above.
pub data SameVisible (v w : Bytes) : Type 0 where
  both_empty : v ≡ [] → w ≡ [] → SameVisible v w
  both_short : 0 < length v → length v ≤ 11 → 0 < length w → length w ≤ 11 → SameVisible v w
  both_long :
      11 < length v
      → 11 < length w
      → take 7 v ≡ take 7 w
      → drop (length v - 4) v ≡ drop (length w - 4) w
      → SameVisible v w

mask_short : (v : Bytes) → 0 < length v → length v ≤ 11 → mask v ≡ stars
unfolding mask
mask_short [] h k = absurd (omega arith)
mask_short (c ∷ v) h k = ground arith

mask_shown : (v : Bytes) → 11 < length v → mask v ≡ take 7 v ++ (ellipsis ++ drop (length v - 4) v)
unfolding mask
mask_shown [] h = absurd (omega arith)
mask_shown (c ∷ v) h = ground arith

pub mask-SameVisible : (v w : Bytes) → SameVisible v w → mask v ≡ mask w
mask-SameVisible v w (both_empty p q) = rw (p, q)
mask-SameVisible v w (both_short h k h' k') = mask_short v h k ∙ sym (mask_short w h' k')
mask-SameVisible v w (both_long h k p q) = mask_shown v h ∙ rw (p, q) (sym (mask_shown w k))

-- Two maps with the same keys, whose values are equal under keys that are not sensitive and agree in
-- what may be shown under keys that are.
pub data SameMap : List (Bytes × Bytes) → List (Bytes × Bytes) → Type 0 where
  none_left : SameMap [] []
  plain :
      {l m : List (Bytes × Bytes)} (k v : Bytes) → SameMap l m → SameMap ((k, v) ∷ l) ((k, v) ∷ m)
  sensitive :
      {l m : List (Bytes × Bytes)} (k v w : Bytes)
      → is_sensitive_key k ≡ true
      → SameVisible v w
      → SameMap l m
      → SameMap ((k, v) ∷ l) ((k, w) ∷ m)

-- Two maps with the same keys in order have the same image under `Map` if they have the same values
-- at the keys that are not sensitive, and if at the others the values are both empty, both of one to
-- eleven bytes, or longer with the same first seven and last four bytes.
pub redact_map-hides : {l m : List (Bytes × Bytes)} → SameMap l m → redact_map l ≡ redact_map m
unfolding redact_map
redact_map-hides none_left = refl
redact_map-hides (plain k v r) = rw (redact_map-hides r)
redact_map-hides (sensitive k v w s h r) = rw s (rw (mask-SameVisible v w h, redact_map-hides r))
