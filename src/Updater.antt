-- ===== src/Updater.antt =====
-- internal/adapter/updater/recovery.go: the record of a pending update, and the recovery from it, as it is
-- built for Unix, with `atomicSymlink` of engine.go, by which internal/adapter/updater/pointer.go swaps
-- the pointer to the version in use, and `copyFileAtomic`.
pub mod Recover
pub mod Triples
pub mod Recording
pub mod Finishing
pub mod Restoring
pub mod Stages
pub mod Proxy
pub mod Written
pub mod Guards
pub mod Keeping
pub mod Switching
pub mod Rolling
pub mod Replacing
pub mod Success
use Prim.Native.String.{◌++◌ as concat}
use pmux.Base.{
  ℕ, zero, suc, Bool, true, false, not, ◌&&◌, ◌||◌, Option, none, some, List, [], ◌∷◌, ◌++◌, Bytes,
  String, codes, take, length, has_prefix, bytes_eq, if◌then◌else◌,
}
use pmux.Base.Assoc.{lookup}
use pmux.Base.Int.{ℤ, pos, is_nat, exceeds}
use pmux.Pmuxerr.{
  Result, ok, err, Err, Code, Class, fields, typed, new_error, wrap, foreign, environment, internal,
  journal_corrupt, install_rollback_attempted, config_mutation_conflict,
  service_backend_unavailable, service_start_failed,
}
use pmux.Files.{newline}
use pmux.Journal.Store.{hex}
use pmux.State.Disk.{
  World, M, pure, fail, lift, put, discard, ◌>>=◌, ◌>>◌, call, attempt, unless_complete,
  remove_temporary, join,
}
use pmux.State.Store.{
  Decoded, bad, unfinished, value, Rest, end_of_text, another, broken, content_at, delivered,
  failure_of, ended_with, read_file,
}

-- `recoveryRecord`.
pub record RecoveryRecord : Type 0 where
  pub version : ℤ
  pub component : Bytes
  pub phase : Bytes
  pub workspace : Bytes
  pub archive_path : Bytes
  pub archive_sha256 : Bytes
  pub candidate_path : Bytes
  pub candidate_sha256 : Bytes
  pub current_path : Bytes
  pub previous_path : Bytes
  pub current_sha256 : Bytes
  pub pointer_path : Bytes
  pub old_target : Bytes
  pub new_target : Bytes
  pub final_dir : Bytes
  pub was_running : Bool
  pub old_version : Bytes
  pub new_version : Bytes
  pub stop_timeout_ns : ℤ
  pub updated_at : ℕ

-- The path of a `recoveryManager`, the parts of an `Engine` that are not nil, and what is outside of both:
-- encoding/json, `filepath.IsAbs`, SHA-256 and the clock.
pub record Engine : Type 0 where
  pub path : Bytes
  pub has_service : Bool
  pub has_proxy_verifier : Bool
  pub has_self_verifier : Bool
  pub encode : RecoveryRecord → Option Bytes
  pub decode : Bytes → Decoded RecoveryRecord
  pub is_abs : Bytes → Bool
  pub sha256 : Bytes → Bytes
  pub now : ℕ

abbrev pub recovery_version : ℕ
recovery_version = 1

abbrev pub is_empty : Bytes → Bool
is_empty s = bytes_eq s []

-- A call behind which stands `if err != nil { return err }`.
abbrev pub unless_error : Option (ℕ × Err) → M (Unit {0})
unless_error none = pure tt
unless_error (some (n, e)) = fail e

unfoldable pub attempt_plain : M (Unit {0})
unfolding call
attempt_plain = call >>= unless_error

abbrev pub wrap_error {ℓ} :
    {V : Type ℓ} → Code → Class → String → Result V × World → Result V × World
wrap_error code class message (ok v, w) = (ok v, w)
wrap_error code class message (err e, w) = (err (wrap e code class message), w)

-- An operation behind which stands `if err != nil { return pmuxerr.Wrap(err, code, class, message) }`.
abbrev pub wrapping {ℓ} : {V : Type ℓ} → Code → Class → String → M V → M V
wrapping code class message m w = wrap_error code class message (m w)

-- A directory is the entries at its path and below.
unfoldable pub is_in : Bytes → Bytes → Bool
is_in dir path = bytes_eq dir path || has_prefix path (join dir [])

unfoldable pub remove_some : ℕ → Bytes → List (Bytes × Bytes) → List (Bytes × Bytes)
unfolding is_in
remove_some zero dir files = files
remove_some (suc n) dir [] = []
remove_some (suc n) dir ((path, content) ∷ files) =
    let rest = remove_some (suc n) dir files in
    if is_in dir path then remove_some n dir files else (path, content) ∷ rest

abbrev pub removed : ℕ → Bytes → M (Unit {0})
removed n dir w = (ok tt, record w { files = remove_some n dir w.files })

abbrev remove_now : Bytes → M (Unit {0})
remove_now dir w = removed (length w.files) dir w

-- `os.RemoveAll`, of which a failing call has removed some entries.
abbrev pub remove_outcome : Bytes → Option (ℕ × Err) → M (Unit {0})
remove_outcome dir none = remove_now dir
remove_outcome dir (some (n, e)) = removed n dir >> fail e

unfoldable pub remove_all : Bytes → M (Unit {0})
unfolding call
remove_all dir = call >>= remove_outcome dir

-- `defaultStopTimeout`, 15 seconds.
abbrev pub default_stop_timeout : ℕ
default_stop_timeout = 15000000000

-- `phaseHasServiceSideEffects`.
unfoldable pub phase_has_service_side_effects : Bytes → Bool
phase_has_service_side_effects phase =
    bytes_eq phase (codes "stopping-service")
    || (bytes_eq phase (codes "installing-version")
        || (bytes_eq phase (codes "switching-pointer")
            || (bytes_eq phase (codes "starting-service")
                || (bytes_eq phase (codes "verifying") || bytes_eq phase (codes "recovering")))))

-- `invalidRecoveryPath`.
unfoldable pub invalid_recovery_path : String → Err
invalid_recovery_path name = typed (
    fields journal_corrupt internal
      (concat "Update recovery record contains an unsafe " (concat name " path.")))

-- `atomicSymlink`, by which `Swap` selects a target: the entry of a pointer is its target.
unfoldable pub place_symlink : M (Unit {0})
unfolding attempt_plain
place_symlink = attempt_plain >> attempt_plain

unfoldable pub swap_pointer : Bytes → Bytes → M (Unit {0})
unfolding attempt_plain place_symlink remove_temporary
swap_pointer pointer target = do
  attempt_plain
  unless_complete place_symlink remove_temporary
  put pointer target
  attempt_plain

abbrev pub place : Bytes → Option Bytes → M (Unit {0})
place path none = pure tt
place path (some content) = put path content

-- `copyFile` to the temporary file, and its renaming.
unfoldable fill_copy : Bytes → M (Unit {0})
unfolding attempt_plain read_file
fill_copy source = do
  read_file source >>= λ content. pure tt
  attempt_plain
  attempt_plain
  attempt_plain
  attempt_plain
  attempt_plain

-- `copyFileAtomic`.
unfoldable pub copy_file_atomic : Bytes → Bytes → M (Unit {0})
unfolding attempt_plain fill_copy remove_temporary
copy_file_atomic source destination = do
  attempt_plain
  unless_complete (fill_copy source) remove_temporary
  content_at source >>= place destination
  attempt_plain

-- The schema that `read` asks for.
unfoldable pub is_supported : RecoveryRecord → Bool
is_supported r =
    is_nat r.version recovery_version
    && ((bytes_eq r.component (codes "self") || bytes_eq r.component (codes "proxy"))
        && not (is_empty r.phase))

abbrev invalid_record : Err → Err
invalid_record e = wrap e journal_corrupt internal "Update recovery record is invalid."

unfoldable pub checked_record : RecoveryRecord → Rest → Option Err → Result (Option RecoveryRecord)
unfolding is_supported
checked_record r end_of_text none =
    if is_supported r
    then ok (some r)
    else err
        (new_error journal_corrupt internal "Update recovery record has an unsupported schema.")
checked_record r _ _ =
    err (new_error journal_corrupt internal "Update recovery record contains trailing data.")

-- The two calls of `Decode` in `read`.
unfoldable pub decoded_record : Decoded RecoveryRecord → Option Err → Result (Option RecoveryRecord)
unfolding checked_record
decoded_record (bad e) failure = err (invalid_record e)
decoded_record unfinished failure =
    err (invalid_record (ended_with (foreign "unexpected EOF") failure))
decoded_record (value r rest) failure = checked_record r rest failure

-- `1<<20`.
unfoldable pub record_limit : ℕ
record_limit = 1048576
