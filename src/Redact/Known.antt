-- ===== src/Redact/Known.antt =====
-- `Known` of internal/redact/redact.go: what it removes and what it leaves alone.
use pmux.Base.{
  Bytes, true, false, List, [], ◌∷◌, ◌++◌, ℕ, zero, suc, ◌-◌, ◌<◌, ◌≤◌, length, has_prefix,
  contains, arith, ◌≡◌, ◌≢◌, refl, All, ◌⊎◌, inl, inr, codes, Bool-cases, ◌∙◌, ap, sym,
}
use mathlib.Core.List.{Memᴰ}
use pmux.Redact.{redacted, replace_all, redact_one, known}

-- A secret that `<redacted>` cannot take part in: longer than the word and free of its brackets.
pub record IsOpaque (s : Bytes) : Type 0 where
  pub long : 8 < length s
  pub no_open : All (λ c. c ≢ b'<') s
  pub no_close : All (λ c. c ≢ b'>') s

-- A word with no `>` and longer than `w` is no prefix of `w` followed by `>`.
no_prefix_over_close :
    (w x s : Bytes)
    → length w < length s
    → All (λ c. c ≢ b'>') s
    → has_prefix (w ++ b'>' ∷ x) s ≡ false
unfolding has_prefix
no_prefix_over_close w x [] h a = absurd (omega arith)
no_prefix_over_close [] x (c ∷ s) h a = ground (arith, a.0)
no_prefix_over_close (b ∷ w) x (c ∷ s) h a =
    ground (arith, no_prefix_over_close w x s (omega arith) a.1)

no_prefix_open :
    (x s : Bytes) → 0 < length s → All (λ c. c ≢ b'<') s → has_prefix (b'<' ∷ x) s ≡ false
unfolding has_prefix
no_prefix_open x [] h a = absurd (omega arith)
no_prefix_open x (c ∷ s) h a = ground (arith, a.0)

contains_redacted_step :
    (w x s : Bytes) → length w ≤ 8 → IsOpaque s → contains (w ++ b'>' ∷ x) s ≡ contains x s
unfolding contains
contains_redacted_step [] x s h o =
    ground (arith, no_prefix_over_close [] x s (omega (arith, o.long)) o.no_close)
contains_redacted_step (b ∷ w) x s h o = ground (
  arith,
  no_prefix_over_close (b ∷ w) x s (omega (arith, o.long)) o.no_close,
  contains_redacted_step w x s (omega arith) o,
)

-- `<redacted>` in front of a text brings in no occurrence.
contains-redacted : (x s : Bytes) → IsOpaque s → contains (redacted ++ x) s ≡ contains x s
unfolding contains
contains-redacted x s o = ground (
  arith,
  no_prefix_open (codes "redacted" ++ b'>' ∷ x) s (omega (arith, o.long)) o.no_open,
  contains_redacted_step (codes "redacted") x s (omega arith) o,
)

prefix_of_replace_all :
    (secret t s : Bytes)
    → All (λ c. c ≢ b'<') s
    → has_prefix (replace_all zero secret t) s ≡ true
    → has_prefix t s ≡ true
unfolding has_prefix replace_all
prefix_of_replace_all secret t [] a h = refl
prefix_of_replace_all secret [] (d ∷ s) a h = h
prefix_of_replace_all secret (c ∷ t) (d ∷ s) a h =
    ground (arith, a.0, prefix_of_replace_all secret t s a.1)

copied_no_prefix :
    (secret : Bytes) (c : ℕ) (t s : Bytes)
    → All (λ b. b ≢ b'<') s
    → has_prefix (c ∷ t) s ≡ false
    → has_prefix (c ∷ replace_all zero secret t) s ≡ false
unfolding has_prefix
copied_no_prefix secret c t [] a h = h
copied_no_prefix secret c t (d ∷ s) a h = ground (arith, prefix_of_replace_all secret t s a.1)

no_prefix_of_contains :
    (c : ℕ) (t s : Bytes)
    → contains (c ∷ t) s ≡ false
    → (has_prefix (c ∷ t) s ≡ false) × (contains t s ≡ false)
unfolding contains
no_prefix_of_contains c t s h = ground arith

-- What the other side of the induction says of the text that is left.
rest_free :
    (secret : Bytes) (c : ℕ) (t s : Bytes)
    → (secret ≡ s) ⊎ (contains (c ∷ t) s ≡ false)
    → (secret ≡ s) ⊎ (contains t s ≡ false)
rest_free secret c t s (inl e) = inl e
rest_free secret c t s (inr e) = inr (no_prefix_of_contains c t s e).1

here_free :
    (secret : Bytes) (c : ℕ) (t s : Bytes)
    → (secret ≡ s) ⊎ (contains (c ∷ t) s ≡ false)
    → has_prefix (c ∷ t) secret ≡ false
    → has_prefix (c ∷ t) s ≡ false
here_free secret c t s (inl e) h = rw e at h
here_free secret c t s (inr e) h = (no_prefix_of_contains c t s e).0

contains_cons :
    (c : ℕ) (t s : Bytes)
    → has_prefix (c ∷ t) s ≡ false
    → contains t s ≡ false
    → contains (c ∷ t) s ≡ false
unfolding contains
contains_cons c t s h k = ground arith

nothing_in_empty : (s : Bytes) → IsOpaque s → contains [] s ≡ false
unfolding contains
nothing_in_empty [] o = absurd (omega (arith, o.long))
nothing_in_empty (d ∷ s) o = unfold has_prefix in refl

-- One replacement leaves no occurrence of its own secret, and brings in none of another.
contains-replace_all :
    (k : ℕ) (secret t s : Bytes)
    → IsOpaque s
    → (secret ≡ s) ⊎ (contains t s ≡ false)
    → contains (replace_all k secret t) s ≡ false
unfolding replace_all
contains-replace_all k secret [] s o h = nothing_in_empty s o
contains-replace_all (suc k) secret (c ∷ t) s o h =
    contains-replace_all k secret t s o (rest_free secret c t s h)
contains-replace_all zero secret (c ∷ t) s o h = elim (Bool-cases (has_prefix (c ∷ t) secret)) [
  | inl p ↦
      rw (p, replace_all)
        (contains-redacted (replace_all (length secret - 1) secret t) s o
          ∙ contains-replace_all (length secret - 1) secret t s o (rest_free secret c t s h))
  | inr p ↦
      rw (p, replace_all)
        (contains_cons c (replace_all zero secret t) s
          (copied_no_prefix secret c t s o.no_open (here_free secret c t s h p))
          (contains-replace_all zero secret t s o (rest_free secret c t s h)))
]

contains-redact_one :
    (secret t s : Bytes)
    → IsOpaque s
    → (secret ≡ s) ⊎ (contains t s ≡ false)
    → contains (redact_one secret t) s ≡ false
unfolding redact_one
contains-redact_one [] t s o (inl e) = absurd (omega (arith, o.long, ap length e))
contains-redact_one [] t s o (inr h) = h
contains-redact_one (d ∷ secret) t s o h = contains-replace_all zero (d ∷ secret) t s o h

-- Later rounds of the loop bring no secret back.
known_stays_free :
    (secrets : List Bytes) (t s : Bytes)
    → IsOpaque s
    → contains t s ≡ false
    → contains (known t secrets) s ≡ false
unfolding known
known_stays_free [] t s o h = h
known_stays_free (secret ∷ secrets) t s o h =
    known_stays_free secrets (redact_one secret t) s o (contains-redact_one secret t s o (inr h))

-- A secret that is opaque (see `IsOpaque`) and one of those given to `Known` is absent from the text
-- that it returns, whatever the text and the other secrets are.
pub known-removes_secrets :
    (text s : Bytes) (secrets : List Bytes)
    → IsOpaque s
    → Memᴰ s secrets
    → contains (known text secrets) s ≡ false
unfolding known
known-removes_secrets text s [] o m = elim m [ ]
known-removes_secrets text s (secret ∷ secrets) o (Memᴰ.head e) =
    known_stays_free secrets (redact_one secret text) s o
      (contains-redact_one secret text s o (inl (sym e)))
known-removes_secrets text s (secret ∷ secrets) o (Memᴰ.tail m) =
    known-removes_secrets (redact_one secret text) s secrets o m

replace_all-free : (secret t : Bytes) → contains t secret ≡ false → replace_all zero secret t ≡ t
unfolding replace_all
replace_all-free secret [] h = refl
replace_all-free secret (c ∷ t) h =
    rw ((no_prefix_of_contains c t secret h).0, replace_all)
      (ap (λ (r : Bytes). c ∷ r) (replace_all-free secret t (no_prefix_of_contains c t secret h).1))

redact_one-free :
    (secret t : Bytes) → (secret ≡ []) ⊎ (contains t secret ≡ false) → redact_one secret t ≡ t
unfolding redact_one
redact_one-free [] t h = refl
redact_one-free (d ∷ secret) t (inl e) = cc
redact_one-free (d ∷ secret) t (inr h) = replace_all-free (d ∷ secret) t h

-- A text in which no non-empty secret occurs is returned as it is.
pub known-unchanged :
    (text : Bytes) (secrets : List Bytes)
    → All (λ s. (s ≡ []) ⊎ (contains text s ≡ false)) secrets
    → known text secrets ≡ text
unfolding known
known-unchanged text [] h = refl
known-unchanged text (s ∷ secrets) h =
    rw (redact_one-free s text h.0) (known-unchanged text secrets h.1)
