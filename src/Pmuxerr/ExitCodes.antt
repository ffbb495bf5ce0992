-- ===== src/Pmuxerr/ExitCodes.antt =====
-- `ExitCode` of internal/pmuxerr/error.go.
use pmux.Base.{◌≤◌, ◌≡◌, ◌↔◌, refl, Option, none, some, arith}
use pmux.Pmuxerr.{Code, Fields, Err, first_fields, code_exit_code, exit_code, fields_exit_code}

pub code_exit_code_bounds : (c : Code) → (1 ≤ code_exit_code c) × (code_exit_code c ≤ 130)
unfolding code_exit_code
code_exit_code_bounds Code.ok_code = omega arith
code_exit_code_bounds _ = omega arith

fields_exit_code_bounds :
    (f : Option Fields) → (1 ≤ fields_exit_code f) × (fields_exit_code f ≤ 130)
unfolding fields_exit_code
fields_exit_code_bounds none = omega arith
fields_exit_code_bounds (some f) = code_exit_code_bounds f.code

exit_code_bounds : (e : Err) → (1 ≤ exit_code (some e)) × (exit_code (some e) ≤ 130)
exit_code_bounds e = unfold exit_code in fields_exit_code_bounds (first_fields e)

-- ExitCode of an error is 0 exactly when there is no error, and at most 130.
pub exit_code_zero_iff : (e : Option Err) → ((exit_code e ≡ 0) ↔ (e ≡ none)) × (exit_code e ≤ 130)
exit_code_zero_iff none = unfold exit_code in ((λ _. refl, λ _. refl), omega arith)
exit_code_zero_iff (some e) =
    ((λ h. absurd (omega (arith, exit_code_bounds e)), λ h. cc), (exit_code_bounds e).1)
