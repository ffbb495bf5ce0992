-- ===== src/Governance.antt =====
-- The classification of commands, and the codes of their failures, of internal/runtime/governance.go.
pub mod Codes
pub mod Run
pub mod Recovery
use pmux.Base.{
  ℕ, Bool, true, false, ◌||◌, not, Option, none, some, List, [], ◌∷◌, ◌++◌, Bytes, String, codes,
  bytes_eq, if◌then◌else◌, ◌==◌,
}
use pmux.Base.Assoc.{lookup}
use pmux.Pmuxerr.{
  Err, Code, Fields, other, is_empty_code, is_context_error, first_fields, ok_code, internal_code,
  usage, config, dependency_missing, auth, network, unhealthy, ownership_conflict, canceled_code,
  launch_failed, not_executable, executable_missing, interrupted_code, unhandled_internal,
}
use pmux.Redact.{member, trim_space}

-- A value of `Options`.
pub data Value : Type 0 where
  flag : Bool → Value
  text : Bytes → Value
  other_value : Value

-- What `IsMutation` reads of an `Invocation`.
pub record Invocation : Type 0 where
  pub operation : Bytes
  pub options : List (Bytes × Value)

abbrev provider_operations : List Bytes
provider_operations =
    codes "providers.login"
    ∷ codes "providers.enable"
    ∷ codes "providers.disable"
    ∷ codes "providers.remove"
    ∷ []

abbrev model_operations : List Bytes
model_operations = codes "models.favorite" ∷ codes "models.unfavorite" ∷ []

abbrev service_operations : List Bytes
service_operations =
    codes "service.start"
    ∷ codes "service.stop"
    ∷ codes "service.restart"
    ∷ codes "service.install"
    ∷ codes "service.uninstall"
    ∷ []

abbrev config_operations : List Bytes
config_operations =
    codes "config.set" ∷ codes "config.edit" ∷ codes "config.backup" ∷ codes "config.restore" ∷ []

abbrev update_operations : List Bytes
update_operations = codes "update.self" ∷ codes "update.proxy" ∷ []

abbrev flag_of : Option Value → Bool
flag_of (some (flag b)) = b
flag_of _ = false

abbrev text_of : Option Value → Bytes
text_of (some (text t)) = t
text_of _ = []

-- `invocationBool` and `invocationString`; nil options are empty ones.
unfoldable pub invocation_bool : List (Bytes × Value) → Bytes → Bool
invocation_bool options key = flag_of (lookup key options)

unfoldable pub invocation_string : List (Bytes × Value) → Bytes → Bytes
invocation_string options key = text_of (lookup key options)

is_given : List (Bytes × Value) → String → Bool
unfolding invocation_string
is_given options key = not (bytes_eq (trim_space (invocation_string options (codes key))) [])

always_mutates : Bytes → Bool
unfolding member
always_mutates operation =
    bytes_eq operation (codes "setup")
    || member operation provider_operations
    || member operation model_operations
    || member operation service_operations
    || member operation config_operations
    || member operation update_operations

-- `IsMutation`.
unfoldable pub is_mutation : Invocation → Bool
unfolding always_mutates is_given invocation_bool
is_mutation i =
    if always_mutates i.operation
    then true
    else if bytes_eq i.operation (codes "doctor")
    then invocation_bool i.options (codes "fix") || is_given i.options "bundle"
    else if bytes_eq i.operation (codes "service.logs")
    then is_given i.options "clear" || is_given i.options "output"
    else false

-- `mutationTarget`.
unfoldable pub mutation_target : Bytes → Bytes
unfolding member
mutation_target operation =
    if bytes_eq operation (codes "setup")
    then codes "installation"
    else if member operation provider_operations
    then codes "provider"
    else if member operation model_operations
    then codes "model-preferences"
    else if bytes_eq operation (codes "doctor")
    then codes "diagnostics"
    else if member operation (codes "service.logs" ∷ service_operations)
    then codes "service"
    else if member operation config_operations
    then codes "configuration"
    else if member operation update_operations
    then codes "managed-update"
    else codes "local-state"

-- `canonicalErrorCode` of an error that is not nil, by the fields of the first `Error` in it.
unfoldable pub error_code_of : Option Fields → Bool → Code
error_code_of none context = if context then canceled_code else unhandled_internal
error_code_of (some f) context =
    if not (is_empty_code f.code)
    then f.code
    else if context
    then canceled_code
    else unhandled_internal

unfoldable pub canonical_error_code : Err → Code
unfolding error_code_of first_fields is_context_error
canonical_error_code e = error_code_of (first_fields e) (is_context_error e)

-- `canonicalExitCode`.
unfoldable pub canonical_exit_code : ℕ → Code
canonical_exit_code n =
    if n == 0
    then other ""
    else if n == 2
    then usage
    else if n == 3
    then config
    else if n == 4
    then dependency_missing
    else if n == 5
    then auth
    else if n == 6
    then network
    else if n == 7
    then unhealthy
    else if n == 9
    then ownership_conflict
    else if n == 10
    then canceled_code
    else if n == 125
    then launch_failed
    else if n == 126
    then not_executable
    else if n == 127
    then executable_missing
    else if n == 130
    then interrupted_code
    else internal_code

-- `code == CodeCanceled || code == CodeInterrupted`; `other` stands for no string of these two.
unfoldable pub is_canceled_code : Code → Bool
is_canceled_code canceled_code = true
is_canceled_code interrupted_code = true
is_canceled_code _ = false

abbrev code_is_canceled : Option Fields → Bool
unfolding is_canceled_code
code_is_canceled none = false
code_is_canceled (some f) = is_canceled_code f.code

-- `isCancellation`.
unfoldable pub is_cancellation : Err → Bool
unfolding is_context_error first_fields is_canceled_code
is_cancellation e = is_context_error e || code_is_canceled (first_fields e)
