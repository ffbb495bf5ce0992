-- ===== src/Governance/Codes.antt =====
-- The codes that the audit log gets for an exit code and for an error, and their exit codes.
use pmux.Base.{ℕ, ◌≡◌, ◌≢◌, refl, ◌⊎◌, arith, Option, none, some, false, Bool}
use pmux.Pmuxerr.{
  Code, Err, Fields, code_exit_code, internal_code, first_fields, fields_exit_code, exit_code,
  is_empty_code, is_context_error,
}
use pmux.Governance.{canonical_exit_code, canonical_error_code, error_code_of}

-- For an exit code other than 0, the canonical code has that exit code, or is the internal error.
pub canonical_exit_code_sound :
    (n : ℕ)
    → n ≢ 0
    → (code_exit_code (canonical_exit_code n) ≡ n) ⊎ (canonical_exit_code n ≡ internal_code)
unfolding canonical_exit_code code_exit_code
canonical_exit_code_sound n h = ground arith

code_exit_code-canonical :
    (c : Code) → code_exit_code (canonical_exit_code (code_exit_code c)) ≡ code_exit_code c
unfolding canonical_exit_code code_exit_code
code_exit_code-canonical c = ground arith

fields_exit_code-canonical :
    (f : Option Fields)
    → code_exit_code (canonical_exit_code (fields_exit_code f)) ≡ fields_exit_code f
fields_exit_code-canonical none = unfold fields_exit_code canonical_exit_code code_exit_code in refl
fields_exit_code-canonical (some f) = unfold fields_exit_code in code_exit_code-canonical f.code

error_code_agrees :
    (f : Fields) (context : Bool)
    → is_empty_code f.code ≡ false
    → code_exit_code (error_code_of (some f) context) ≡ fields_exit_code (some f)
unfolding error_code_of fields_exit_code
error_code_agrees f context h = rw h

-- The code that is audited for a command's exit code after an error has the exit code of that error;
-- and so has the code that is audited for the error itself, if the first PMux error in it has a code
-- that is not empty.
pub audited_codes_agree :
    (e : Err) (f : Fields)
    → first_fields e ≡ some f
    → is_empty_code f.code ≡ false
    → (code_exit_code (canonical_exit_code (exit_code (some e))) ≡ exit_code (some e))
      × (code_exit_code (canonical_error_code e) ≡ exit_code (some e))
unfolding exit_code canonical_error_code
audited_codes_agree e f h k =
    (fields_exit_code-canonical (first_fields e), rw h (error_code_agrees f (is_context_error e) k))
