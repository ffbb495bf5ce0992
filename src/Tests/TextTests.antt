-- ===== src/Tests/TextTests.antt =====
-- Redaction, exit codes and files at concrete inputs.
use mathlib.Core.List.{Memᴰ}
use pmux.Base.{
  ◌≡◌, ◌↔◌, ◌≤◌, refl, true, false, none, some, [], ◌∷◌, Bytes, codes, contains, has_prefix,
  bytes_eq, arith, inl, inr,
}
use pmux.Pmuxerr.{
  canceled, wrap, is_context_error, exit_code, code_exit_code, other, internal, user,
  config_unreadable, new_error, network,
}
use pmux.Pmuxerr.ExitCodes.{exit_code_zero_iff}
use pmux.Pmuxerr.Chain.{wrap-code, wrap-empty_code}
use pmux.Redact.{known, redact_map, is_sensitive_key}
use pmux.Redact.Known.{IsOpaque, known-removes_secrets, known-unchanged}
use pmux.Redact.Masking.{none_left, plain, sensitive, both_short, redact_map-hides}
use pmux.Files.{append, trim_torn_tail}
use pmux.Files.Append.{Appended, append-Appended, line_of}
use pmux.Files.Trim.{Trimmed, trim_torn_tail-Trimmed}
use pmux.Files.Quiet.{quiet, quiet_trim}
use pmux.Journal.Store.{messages}

abbrev key : Bytes
key = codes "sk-abcdef-123"

key-IsOpaque : IsOpaque key
key-IsOpaque = omega arith

known-removes_secrets_example :
    contains (known (codes "token sk-abcdef-123!") (key ∷ [])) key ≡ false
known-removes_secrets_example =
    known-removes_secrets (codes "token sk-abcdef-123!") key (key ∷ []) key-IsOpaque
      (Memᴰ.head refl)

redacted_text : known (codes "token sk-abcdef-123!") (key ∷ []) ≡ codes "token <redacted>!"
unfolding known has_prefix
redacted_text = refl

no_secret_unchanged : known (codes "token") (key ∷ [] ∷ []) ≡ codes "token"
unfolding contains
no_secret_unchanged = known-unchanged (codes "token") (key ∷ [] ∷ []) (inr refl, (inl refl, tt))

token_is_sensitive : is_sensitive_key (codes " Access_Token") ≡ true
unfolding is_sensitive_key bytes_eq
token_is_sensitive = refl

redact_map-hides_example :
    redact_map ((codes " Access_Token", codes "abc") ∷ (codes "port", codes "80") ∷ [])
    ≡ redact_map ((codes " Access_Token", codes "secret") ∷ (codes "port", codes "80") ∷ [])
redact_map-hides_example = redact_map-hides (
    sensitive (codes " Access_Token") (codes "abc") (codes "secret") token_is_sensitive
      (both_short (omega arith) (omega arith) (omega arith) (omega arith))
      (plain (codes "port") (codes "80") none_left))

exit_code_zero_iff_example :
    ((exit_code (some canceled) ≡ 0) ↔ (some canceled ≡ none)) × (exit_code (some canceled) ≤ 130)
exit_code_zero_iff_example = exit_code_zero_iff (some canceled)

wrapped_cancellation :
    (is_context_error (wrap canceled config_unreadable user "m") ≡ is_context_error canceled)
    × (exit_code (some (wrap canceled config_unreadable user "m"))
        ≡ code_exit_code config_unreadable)
wrapped_cancellation = wrap-code canceled config_unreadable user "m" refl

empty_code_kept :
    exit_code (some (wrap (new_error network user "down") (other "") internal "m"))
    ≡ exit_code (some (new_error network user "down"))
empty_code_kept = wrap-empty_code (new_error network user "down") internal "m"

append-Appended_example :
    Appended
      (some (9 ∷ 10 ∷ 8 ∷ []))
      (line_of (7 ∷ []))
      (append messages quiet (line_of (7 ∷ [])) (some (9 ∷ 10 ∷ 8 ∷ [])))
append-Appended_example =
    append-Appended messages quiet (7 ∷ []) (omega arith) (some (9 ∷ 10 ∷ 8 ∷ []))

torn_line_goes :
    (append messages quiet (line_of (7 ∷ [])) (some (9 ∷ 10 ∷ 8 ∷ []))).1
    ≡ some (9 ∷ 10 ∷ 7 ∷ 10 ∷ [])
unfolding append
torn_line_goes = refl

trim_torn_tail-Trimmed_example :
    Trimmed (some (9 ∷ 10 ∷ 8 ∷ [])) (trim_torn_tail messages quiet_trim (some (9 ∷ 10 ∷ 8 ∷ [])))
trim_torn_tail-Trimmed_example = trim_torn_tail-Trimmed messages quiet_trim (some (9 ∷ 10 ∷ 8 ∷ []))
