-- ===== src/Pmuxerr.antt =====
-- internal/pmuxerr/error.go: PMux errors, the errors of Go that wrap them, and exit codes.
pub mod ExitCodes
pub mod Chain
use text.Mathlib.Text.{◌==◌ as str_eq}
use Prim.Native.String.{◌++◌ as concat}
use pmux.Base.{
  ◌≡◌, refl, ℕ, Bytes, text_of, String, Bool, true, false, Option, none, some, List, [], ◌∷◌,
  if◌then◌else◌,
}

pub data Class : Type 0 where
  user environment upstream internal no_class : Class

-- The outcome codes, then the condition codes; `other` is any other string.
pub data Code : Type 0 where
  ok_code internal_code usage config dependency_missing auth network unhealthy : Code
  ownership_conflict canceled_code launch_failed not_executable executable_missing : Code
  interrupted_code : Code
  install_download_failed install_integrity_failed install_unsupported_target : Code
  install_rollback_attempted install_release_lookup_failed : Code
  config_unreadable config_validation_failed config_path_mismatch : Code
  config_insecure_permissions config_safe_mode config_mutation_conflict : Code
  service_start_failed service_foreign_owner service_backend_unavailable : Code
  service_health_deadline : Code
  management_unreachable management_auth_rejected provider_unreachable : Code
  oauth_callback_port_conflict oauth_timeout oauth_state_mismatch : Code
  oauth_no_usable_credential auth_file_invalid : Code
  client_binary_missing client_launch_failed client_settings_conflict : Code
  journal_corrupt unhandled_upstream_shape unhandled_internal : Code
  other : String → Code

-- The strings that the codes stand for.
unfoldable pub code_text : Code → String
code_text ok_code = "ok"
code_text internal_code = "internal_error"
code_text usage = "usage_error"
code_text config = "config_error"
code_text dependency_missing = "dependency_missing"
code_text auth = "auth_error"
code_text network = "network_error"
code_text unhealthy = "unhealthy"
code_text ownership_conflict = "ownership_conflict"
code_text canceled_code = "canceled"
code_text launch_failed = "launch_failed"
code_text not_executable = "not_executable"
code_text executable_missing = "executable_not_found"
code_text interrupted_code = "interrupted"
code_text install_download_failed = "PMUX-1001"
code_text install_integrity_failed = "PMUX-1002"
code_text install_unsupported_target = "PMUX-1003"
code_text install_rollback_attempted = "PMUX-1004"
code_text install_release_lookup_failed = "PMUX-1005"
code_text config_unreadable = "PMUX-2001"
code_text config_validation_failed = "PMUX-2002"
code_text config_path_mismatch = "PMUX-2003"
code_text config_insecure_permissions = "PMUX-2004"
code_text config_safe_mode = "PMUX-2005"
code_text config_mutation_conflict = "PMUX-2006"
code_text service_start_failed = "PMUX-3001"
code_text service_foreign_owner = "PMUX-3002"
code_text service_backend_unavailable = "PMUX-3003"
code_text service_health_deadline = "PMUX-3004"
code_text management_unreachable = "PMUX-4001"
code_text management_auth_rejected = "PMUX-4002"
code_text provider_unreachable = "PMUX-4003"
code_text oauth_callback_port_conflict = "PMUX-4004"
code_text oauth_timeout = "PMUX-5001"
code_text oauth_state_mismatch = "PMUX-5002"
code_text oauth_no_usable_credential = "PMUX-5003"
code_text auth_file_invalid = "PMUX-5004"
code_text client_binary_missing = "PMUX-6001"
code_text client_launch_failed = "PMUX-6002"
code_text client_settings_conflict = "PMUX-6003"
code_text journal_corrupt = "PMUX-7001"
code_text unhandled_upstream_shape = "PMUX-7002"
code_text unhandled_internal = "PMUX-7099"
code_text (other s) = s

-- The fields of `Error` but its cause.
pub record Fields : Type 0 where
  pub code : Code
  pub class : Class
  pub message : String
  pub explanation : String
  pub evidence : List String
  pub repair : List String
  pub docs_url : String

-- A non-nil Go error: an `Error` without and with a cause, `context.Canceled` and
-- `DeadlineExceeded`, an error of another package, a `lock.BusyError`, which unwraps to an `Error`
-- with these fields, `errors.Join` of two, and the `documentCorruptError` and the `RecoveryNeeded`, with
-- its kind and its path, of internal/state/recovery.go, which unwrap to their causes.
pub data Err : Type 0 where
  typed : Fields → Err
  typed_with : Fields → Err → Err
  canceled deadline_exceeded : Err
  foreign : String → Err
  busy : Fields → Err
  joined : Err → Err → Err
  document_corrupt : Err → Err
  recovery_needed : Bytes → Bytes → Err → Err

-- `(value, nil)` and `(zero value, err)`.
pub data Result {ℓ} (V : Type ℓ) : Type ℓ where
  err : Err → Result V
  ok : V → Result V

-- `if err != nil { return err }` between two calls.
infixl 5 ◌>>=◌ ◌>>◌
abbrev pub ◌>>=◌ {ℓ κ} : {V : Type ℓ} {W : Type κ} → Result V → (V → Result W) → Result W
err failure >>= next = err failure
ok value >>= next = next value

abbrev pub ◌>>◌ {ℓ} : {W : Type ℓ} → Result (Unit {0}) → Result W → Result W
first >> next = first >>= λ _. next

abbrev pub fields : Code → Class → String → Fields
fields c k m = record {
  code = c;
  class = k;
  message = m;
  explanation = "";
  evidence = [];
  repair = [];
  docs_url = "";
}

-- Inversion of a chain that succeeds.
pub >>=-eq-ok {ℓ κ} :
    {V : Type ℓ} {W : Type κ} {w : W} (first : Result V) (next : V → Result W)
    → (first >>= next) ≡ ok w
    → (v : V) × (first ≡ ok v) × (next v ≡ ok w)
>>=-eq-ok (err failure) next came = cc
>>=-eq-ok (ok value) next came = (value, refl, came)

pub >>-eq-ok {ℓ} :
    {B : Type ℓ} (m : Result (Unit {0})) (k : Result B) {b : B} → (m >> k) ≡ ok b → k ≡ ok b
>>-eq-ok (ok a) k h = h
>>-eq-ok (err e) k h = cc

pub unless-eq-ok {ℓ} :
    {B : Type ℓ} (t : Bool) (e : Err) (k : Result B) {b : B}
    → (if t then err e else k) ≡ ok b
    → (t ≡ false) × (k ≡ ok b)
unless-eq-ok true e k h = cc
unless-eq-ok false e k h = (refl, h)

-- `New`.
abbrev pub new_error : Code → Class → String → Err
new_error c k m = typed (fields c k m)

-- `errors.As(err, &existing)`: the first `Error` of the tree, outermost and leftmost first.
unfoldable pub as_error : Err → Option Err
as_error (typed f) = some (typed f)
as_error (typed_with f c) = some (typed_with f c)
as_error canceled = none
as_error deadline_exceeded = none
as_error (foreign m) = none
as_error (busy f) = some (typed f)
as_error (joined a b) = elim (as_error a) [ none ↦ as_error b | some e ↦ some e ]
as_error (document_corrupt e) = as_error e
as_error (recovery_needed kind path cause) = as_error cause

-- The fields of an `Error`.
abbrev pub fields_of : Err → Option Fields
fields_of (typed f) = some f
fields_of (typed_with f c) = some f
fields_of _ = none

abbrev pub is_empty_code : Code → Bool
is_empty_code (other s) = str_eq s ""
is_empty_code _ = false

-- `Wrap` of an error that is not nil; an empty code gives back an `Error` of the tree.
unfoldable pub wrap : Err → Code → Class → String → Err
unfolding as_error
wrap cause c k m = elim (as_error cause) [
  | none ↦ typed_with (fields c k m) cause
  | some existing ↦ if is_empty_code c then existing else typed_with (fields c k m) cause
]

-- `errors.Is(err, target)` for the two errors of `context`.
unfoldable pub is_context_error : Err → Bool
is_context_error (typed f) = false
is_context_error (typed_with f c) = is_context_error c
is_context_error canceled = true
is_context_error deadline_exceeded = true
is_context_error (foreign m) = false
is_context_error (busy f) = false
is_context_error (joined a b) =
    let rest = is_context_error b in if is_context_error a then true else rest
is_context_error (document_corrupt e) = is_context_error e
is_context_error (recovery_needed kind path cause) = is_context_error cause

-- `Error()` of an `Error` with these fields and this cause's text.
unfoldable pub error_text : Fields → Option String → String → String
error_text f cause code_text =
    if str_eq f.message "" then (elim cause [ none ↦ code_text | some c ↦ c ]) else f.message

-- `RecoveryNeeded.Error`.
unfoldable pub recovery_message : String → String → String
recovery_message kind path = concat "pmux " (
    concat kind (
      concat
        " was corrupt and no valid backup is available; rebuild from the canonical managed layout only. The corrupt file was saved as "
        (concat path ".")))

-- `Error()` of any error, with the texts of the two errors of `context`.
unfoldable pub error_message : Err → String
unfolding error_text code_text recovery_message text_of
error_message (typed f) = error_text f none (code_text f.code)
error_message (typed_with f c) = error_text f (some (error_message c)) (code_text f.code)
error_message canceled = "context canceled"
error_message deadline_exceeded = "context deadline exceeded"
error_message (foreign m) = m
error_message (busy f) = f.message
error_message (joined a b) = concat (error_message a) (concat "\n" (error_message b))
error_message (document_corrupt e) = error_message e
error_message (recovery_needed kind path cause) = recovery_message (text_of kind) (text_of path)

-- `Capability`.
unfoldable pub capability : String → String → String → Err
capability feature required detected =
    let seen = if str_eq detected "" then "unknown" else detected in
    typed (record {
      code = dependency_missing;
      class = upstream;
      message = concat "This feature requires CLIProxyAPI ≥ " (
          concat required
            (concat " (detected: " (concat seen "). Run `pmux update proxy` to upgrade.")));
      explanation = concat feature (concat " requires CLIProxyAPI ≥ " required);
      evidence = [];
      repair = [];
      docs_url = "";
    })

-- `conditionExitCodes`.
unfoldable pub condition_exit_code : Code → Option ℕ
condition_exit_code install_download_failed = some 6
condition_exit_code install_integrity_failed = some 7
condition_exit_code install_unsupported_target = some 4
condition_exit_code install_rollback_attempted = some 7
condition_exit_code install_release_lookup_failed = some 6
condition_exit_code config_unreadable = some 3
condition_exit_code config_validation_failed = some 3
condition_exit_code config_path_mismatch = some 3
condition_exit_code config_insecure_permissions = some 3
condition_exit_code config_safe_mode = some 7
condition_exit_code config_mutation_conflict = some 9
condition_exit_code service_start_failed = some 7
condition_exit_code service_foreign_owner = some 9
condition_exit_code service_backend_unavailable = some 4
condition_exit_code service_health_deadline = some 7
condition_exit_code management_unreachable = some 6
condition_exit_code management_auth_rejected = some 5
condition_exit_code provider_unreachable = some 6
condition_exit_code oauth_callback_port_conflict = some 6
condition_exit_code oauth_timeout = some 5
condition_exit_code oauth_state_mismatch = some 5
condition_exit_code oauth_no_usable_credential = some 5
condition_exit_code auth_file_invalid = some 5
condition_exit_code client_binary_missing = some 127
condition_exit_code client_launch_failed = some 125
condition_exit_code client_settings_conflict = some 9
condition_exit_code journal_corrupt = some 1
condition_exit_code unhandled_upstream_shape = some 4
condition_exit_code unhandled_internal = some 1
condition_exit_code _ = none

-- The `switch` of `ExitCode` on the outcome codes.
unfoldable pub outcome_exit_code : Code → ℕ
outcome_exit_code usage = 2
outcome_exit_code config = 3
outcome_exit_code dependency_missing = 4
outcome_exit_code auth = 5
outcome_exit_code network = 6
outcome_exit_code unhealthy = 7
outcome_exit_code ownership_conflict = 9
outcome_exit_code canceled_code = 10
outcome_exit_code launch_failed = 125
outcome_exit_code not_executable = 126
outcome_exit_code executable_missing = 127
outcome_exit_code interrupted_code = 130
outcome_exit_code _ = 1

unfoldable pub code_exit_code : Code → ℕ
unfolding condition_exit_code outcome_exit_code
code_exit_code c = elim (condition_exit_code c) [ none ↦ outcome_exit_code c | some n ↦ n ]

-- `fields_of` the first `Error` of the tree.
unfoldable pub first_fields : Err → Option Fields
unfolding as_error
first_fields e = elim (as_error e) [ none ↦ none | some x ↦ fields_of x ]

unfoldable pub fields_exit_code : Option Fields → ℕ
unfolding code_exit_code
fields_exit_code none = 1
fields_exit_code (some f) = code_exit_code f.code

-- `ExitCode`; `none` is a nil error.
unfoldable pub exit_code : Option Err → ℕ
unfolding first_fields fields_exit_code
exit_code none = 0
exit_code (some e) = fields_exit_code (first_fields e)
