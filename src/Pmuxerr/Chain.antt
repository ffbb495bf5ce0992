-- ===== src/Pmuxerr/Chain.antt =====
-- What `Wrap` of internal/pmuxerr/error.go keeps of the error that it wraps.
use mathlib.Core.Path.{subst}
use pmux.Base.{
  String, ◌≡◌, refl, false, none, some, arith, Option-cases, inl, inr, ◌∙◌, if◌then◌else◌,
}
use pmux.Pmuxerr.{
  Code, fields, Err, Class, other, as_error, code_exit_code, exit_code, wrap, is_empty_code,
  is_context_error, typed, typed_with, canceled, deadline_exceeded, foreign, busy, joined,
  document_corrupt, recovery_needed,
}

injected : {x y : Err} → some x ≡ some y → as_error x ≡ some x → as_error y ≡ some y
injected {x} {y} h k = let e : x ≡ y = cc in subst (λ (z : Err). as_error z ≡ some z) e k

as_error_fixed : (e x : Err) → as_error e ≡ some x → as_error x ≡ some x
unfolding as_error
as_error_fixed (typed f) x h = injected h refl
as_error_fixed (typed_with f c) x h = injected h refl
as_error_fixed canceled x h = cc
as_error_fixed deadline_exceeded x h = cc
as_error_fixed (foreign m) x h = cc
as_error_fixed (busy f) x h = injected h refl
as_error_fixed (joined a b) x h = elim (Option-cases (as_error a)) [
  | inl e ↦ as_error_fixed b x (rw (e, as_error) at h)
  | inr (y, e) ↦ as_error_fixed a x (e ∙ (rw (e, as_error) at h))
]
as_error_fixed (document_corrupt e) x h = as_error_fixed e x h
as_error_fixed (recovery_needed kind path cause) x h = as_error_fixed cause x h

wrap_foreign :
    (e : Err) (c : Code) (k : Class) (m : String)
    → as_error e ≡ none
    → wrap e c k m ≡ typed_with (fields c k m) e
unfolding wrap
wrap_foreign e c k m n = rw (n, wrap)

wrap_error :
    (e x : Err) (c : Code) (k : Class) (m : String)
    → as_error e ≡ some x
    → wrap e c k m ≡ (if is_empty_code c then x else typed_with (fields c k m) e)
unfolding wrap
wrap_error e x c k m p = rw (p, wrap)

-- Wrapping with a code that is not empty neither hides nor invents a cancellation of the context,
-- and the exit code is then that of the new code.
pub wrap-code :
    (e : Err) (c : Code) (k : Class) (m : String)
    → is_empty_code c ≡ false
    → (is_context_error (wrap e c k m) ≡ is_context_error e)
      × (exit_code (some (wrap e c k m)) ≡ code_exit_code c)
wrap-code e c k m h = rw wrapped (unfold is_context_error exit_code in (refl, refl))
  where
    wrapped : wrap e c k m ≡ typed_with (fields c k m) e
    wrapped = elim (Option-cases (as_error e)) [
      | inl n ↦ wrap_foreign e c k m n
      | inr (x, p) ↦ rw (wrap_error e x c k m p, h)
    ]

-- Wrapping with the empty code keeps the exit code of the error.
pub wrap-empty_code :
    (e : Err) (k : Class) (m : String)
    → exit_code (some (wrap e (other "") k m)) ≡ exit_code (some e)
wrap-empty_code e k m = elim (Option-cases (as_error e)) [
  | inl n ↦ rw (wrap_foreign e (other "") k m n) (unfold exit_code in ground (arith, n))
  | inr (x, p) ↦
      rw (wrap_error e x (other "") k m p)
        (unfold exit_code in ground (arith, p, as_error_fixed e x p))
]
