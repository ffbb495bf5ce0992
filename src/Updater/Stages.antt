-- ===== src/Updater/Stages.antt =====
-- internal/adapter/updater/engine.go: the stages of an update and the errors that they become, the renaming
-- of a directory, and what `UpdateProxy` has determined before it replaces a version.
use Prim.Native.String.{◌++◌ as concat}
use pmux.Base.{
  ℕ, zero, suc, Bool, true, false, Option, none, some, List, [], ◌∷◌, ◌++◌, Bytes, String, drop,
  length, if◌then◌else◌,
}
use pmux.Base.Int.{ℤ, pos, negsuc}
use pmux.Pmuxerr.{
  Result, ok, err, Err, Code, Class, fields, typed_with, joined, as_error, wrap, environment,
  internal, upstream, install_rollback_attempted, install_release_lookup_failed,
  install_download_failed, install_integrity_failed, service_start_failed, service_health_deadline,
  management_auth_rejected, management_unreachable,
}
use pmux.State.Disk.{World, M, pure, fail, ◌>>=◌, call}
use pmux.Updater.{is_in, default_stop_timeout}

-- `Stage`.
pub data Stage : Type 0 where
  resolve download_archive download_checksums verify_checksum extract verify_executable : Stage
  preflight stop_service install_version switch_pointer activate start_service : Stage
  health authenticate models postflight : Stage

unfoldable stage_text : Stage → String
stage_text resolve = "resolve"
stage_text download_archive = "download-archive"
stage_text download_checksums = "download-checksums"
stage_text verify_checksum = "verify-checksum"
stage_text extract = "extract"
stage_text verify_executable = "verify-executable"
stage_text preflight = "preflight"
stage_text stop_service = "stop-service"
stage_text install_version = "install-version"
stage_text switch_pointer = "switch-pointer"
stage_text activate = "activate"
stage_text start_service = "start-service"
stage_text health = "health"
stage_text authenticate = "authenticate"
stage_text models = "models"
stage_text postflight = "postflight"

unfoldable stage_code : Stage → Code
stage_code resolve = install_release_lookup_failed
stage_code download_archive = install_download_failed
stage_code download_checksums = install_download_failed
stage_code verify_checksum = install_integrity_failed
stage_code extract = install_integrity_failed
stage_code verify_executable = install_integrity_failed
stage_code preflight = install_integrity_failed
stage_code stop_service = service_start_failed
stage_code start_service = service_start_failed
stage_code health = service_health_deadline
stage_code authenticate = management_auth_rejected
stage_code models = management_unreachable
stage_code _ = install_rollback_attempted

unfoldable stage_class : Stage → Class
stage_class verify_checksum = upstream
stage_class extract = upstream
stage_class verify_executable = upstream
stage_class preflight = upstream
stage_class _ = environment

-- `stageError`.
unfoldable pub stage_error : Stage → Err → Err
unfolding stage_text stage_code stage_class
stage_error stage e =
    wrap e (stage_code stage) (stage_class stage)
      (concat "Update failed at stage " (concat (stage_text stage) "."))

-- `normalize` of an error that is not nil.
unfoldable pub normalize : Code → String → Err → Err
normalize code message e = elim (as_error e) [
  | none ↦ wrap e code environment message
  | some existing ↦ e
]

-- A call behind which stands `if err != nil { return f(err) }`.
abbrev pub unless_failed_as : (Err → Err) → Option (ℕ × Err) → M (Unit {0})
unless_failed_as f none = pure tt
unless_failed_as f (some (n, e)) = fail (f e)

unfoldable pub attempt_as : (Err → Err) → M (Unit {0})
unfolding call
attempt_as f = call >>= unless_failed_as f

abbrev pub map_error : (Err → Err) → Result (Unit {0}) × World → Result (Unit {0}) × World
map_error f (ok u, w) = (ok u, w)
map_error f (err e, w) = (err (f e), w)

-- `_ = ...`.
abbrev pub ignoring : M (Unit {0}) → M (Unit {0})
ignoring m w = (ok tt, (m w).1)

-- What `UpdateProxy` has determined: the two paths, the release's directories, and the old state.
pub record Update : Type 0 where
  pub pointer : Bytes
  pub old_target : Bytes
  pub final_dir : Bytes
  pub extracted_dir : Bytes
  pub workspace : Bytes
  pub was_running : Bool
  pub stop_timeout : ℤ

-- `if stopTimeout <= 0 { stopTimeout = defaultStopTimeout }`.
unfoldable pub positive_timeout : ℤ → ℤ
positive_timeout (pos zero) = pos default_stop_timeout
positive_timeout (pos (suc n)) = pos (suc n)
positive_timeout (negsuc n) = pos default_stop_timeout

-- `os.Rename` of a directory.
abbrev pub moved : Bytes → Bytes → Bytes → Bytes
moved from to path = if is_in from path then to ++ drop (length from) path else path

unfoldable pub rename_tree : Bytes → Bytes → List (Bytes × Bytes) → List (Bytes × Bytes)
unfolding is_in
rename_tree from to [] = []
rename_tree from to ((path, content) ∷ files) =
    (moved from to path, content) ∷ rename_tree from to files

abbrev pub renamed : Bytes → Bytes → M (Unit {0})
renamed from to w = (ok tt, record w { files = rename_tree from to w.files })

unfoldable pub exists : Bytes → List (Bytes × Bytes) → Bool
unfolding is_in
exists dir [] = false
exists dir ((path, content) ∷ files) =
    let rest = exists dir files in if is_in dir path then true else rest

abbrev pub noted : Result (Unit {0}) × World → Result (List Err) × World
noted (ok u, w) = (ok [], w)
noted (err e, w) = (ok (e ∷ []), w)

-- `if err := m; err != nil { rollbackErrs = append(rollbackErrs, err) }`. The texts that fmt.Errorf puts
-- before an error that it wraps are left out.
abbrev pub noting : M (Unit {0}) → M (List Err)
noting m w = noted (m w)

-- `errors.Join` of at least one error.
unfoldable pub join_errors : Err → List Err → Err
join_errors e [] = e
join_errors e (f ∷ rest) = joined e (join_errors f rest)

-- `rollbackError`.
unfoldable pub rollback_error : Err → Err → Err
rollback_error cause rollback =
    typed_with
      (record (fields install_rollback_attempted internal
        "Update failed and rollback could not be verified.") {
          evidence = "manual recovery is required" ∷ [];
        })
      (joined cause rollback)
