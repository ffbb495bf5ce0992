-- ===== src/Updater/Recover.antt =====
-- The methods of `recoveryManager` in internal/adapter/updater/recovery.go.
use pmux.Base.{
  Bool, true, not, ◌&&◌, ◌||◌, Option, none, some, [], ◌∷◌, ◌++◌, Bytes, codes, take, bytes_eq,
  text_of, if◌then◌else◌,
}
use pmux.Base.Int.{pos}
use pmux.Pmuxerr.{
  Err, fields, typed, new_error, wrap, foreign, environment, internal, journal_corrupt,
  install_rollback_attempted, config_mutation_conflict, service_backend_unavailable,
  service_start_failed,
}
use pmux.Files.{newline}
use pmux.Journal.Store.{hex}
use pmux.State.Disk.{
  M, pure, fail, lift, put, discard, ◌>>=◌, ◌>>◌, call, attempt, unless_complete, remove_temporary,
}
use pmux.State.Store.{content_at, delivered, failure_of, read_file}
use pmux.Updater.{
  RecoveryRecord, Engine, recovery_version, is_empty, attempt_plain, wrapping, remove_all,
  phase_has_service_side_effects, invalid_recovery_path, swap_pointer, copy_file_atomic,
  decoded_record, record_limit,
}

abbrev disappeared : Err
disappeared =
    new_error journal_corrupt internal "Update recovery record disappeared during a mutation."

-- `write` behind its encoding, up to the renaming of the temporary file.
unfoldable pub fill_record : M (Unit {0})
unfolding attempt_plain
fill_record =
    attempt_plain >> attempt_plain >> attempt_plain >> attempt_plain >> attempt_plain
    >> attempt_plain

module _ (e : Engine) where
  unfoldable pub write_encoded : Option Bytes → M (Unit {0})
  unfolding attempt fill_record remove_temporary attempt_plain
  write_encoded none = fail (
      wrap (foreign "json: unsupported value") journal_corrupt internal
        "Could not encode update recovery state.")
  write_encoded (some body) = do
    attempt journal_corrupt "Could not stage update recovery state."
    unless_complete fill_record remove_temporary
    put e.path (body ++ newline ∷ [])
    attempt_plain

  abbrev pub stamped : RecoveryRecord → RecoveryRecord
  stamped r = record r { version = pos recovery_version; updated_at = e.now }

  -- `write`.
  unfoldable pub write_record : RecoveryRecord → M (Unit {0})
  unfolding attempt write_encoded
  write_record r =
      attempt journal_corrupt "Could not create private update recovery state."
      >> write_encoded (e.encode (stamped r))

  abbrev pub read_text : Bytes → M (Option RecoveryRecord)
  read_text text = call >>= λ outcome.
      lift (
        decoded_record (e.decode (take record_limit (delivered outcome text))) (failure_of outcome))

  abbrev pub read_found : Option Bytes → M (Option RecoveryRecord)
  read_found none = pure none
  read_found (some text) = read_text text

  -- `read`; a file that is missing is no record.
  unfoldable pub read_record : M (Option RecoveryRecord)
  unfolding attempt call decoded_record
  read_record =
      attempt journal_corrupt "Update recovery record is unreadable."
      >> (content_at e.path >>= read_found)

  abbrev pub changed : (RecoveryRecord → RecoveryRecord) → Option RecoveryRecord → M (Unit {0})
  changed change none = fail disappeared
  changed change (some r) = write_record (change r)

  -- `checkpoint`.
  unfoldable pub checkpoint : (RecoveryRecord → RecoveryRecord) → M (Unit {0})
  unfolding read_record write_record
  checkpoint change = read_record >>= changed change

  -- `clear`.
  unfoldable pub clear : M (Unit {0})
  unfolding attempt attempt_plain
  clear = do
    attempt journal_corrupt "Could not clear completed update recovery state."
    discard e.path
    attempt_plain

  -- `removeRecoveryWorkspace`.
  unfoldable pub remove_recovery_workspace : Bytes → M (Unit {0})
  unfolding remove_all
  remove_recovery_workspace path =
      if is_empty path
      then pure tt
      else if e.is_abs path
      then wrapping install_rollback_attempted environment
          "Could not remove interrupted update staging." (remove_all path)
      else fail (invalid_recovery_path "workspace")

  -- The call of `Stop` whose error is ignored, and of `Swap` back to the old target.
  unfoldable pub switch_back : RecoveryRecord → M (Unit {0})
  unfolding call swap_pointer
  switch_back r =
      if e.has_service
      then call >>= (λ ignored.
        wrapping install_rollback_attempted environment
          "Could not restore the previous proxy pointer."
          (swap_pointer r.pointer_path r.old_target))
      else fail (
          new_error service_backend_unavailable environment
            "Cannot recover an interrupted proxy update without its service backend.")

  abbrev pointer_changed : Bytes → Err
  pointer_changed pointer =
      typed
        (record (fields config_mutation_conflict environment
          "Proxy current pointer changed during interrupted-update recovery.") {
            evidence = text_of pointer ∷ [];
          })

  -- The start of the restored proxy, its two checks, and its stop if it was not running.
  unfoldable pub verify_restored : RecoveryRecord → M (Unit {0})
  unfolding attempt
  verify_restored r =
      if e.has_service && e.has_proxy_verifier
      then attempt service_start_failed
          "Could not start the restored proxy during interrupted-update recovery."
        >> attempt install_rollback_attempted "Restored proxy failed health verification."
        >> attempt install_rollback_attempted
            "Restored proxy failed authenticated reachability verification."
        >> (if r.was_running
            then pure tt
            else attempt install_rollback_attempted "Could not restore the proxy's stopped state.")
      else fail (
          new_error service_backend_unavailable environment
            "Cannot verify the restored proxy after interrupted-update recovery.")

  -- The removal of the version that the update has installed.
  unfoldable pub remove_version : RecoveryRecord → M (Unit {0})
  unfolding remove_all
  remove_version r =
      if not (is_empty r.final_dir) && not (bytes_eq r.final_dir r.old_target)
      then if e.is_abs r.final_dir
        then wrapping install_rollback_attempted environment
            "Could not remove the interrupted proxy version." (remove_all r.final_dir)
        else fail (invalid_recovery_path "final version directory")
      else pure tt

  unfoldable pub finish_proxy : RecoveryRecord → Bool → M (Unit {0})
  unfolding verify_restored remove_version remove_recovery_workspace
  finish_proxy r lifecycle =
      (if lifecycle then verify_restored r else pure tt)
      >> remove_version r
      >> remove_recovery_workspace r.workspace

  -- `recoverProxy` behind the reading of the pointer.
  unfoldable pub restore_pointer : RecoveryRecord → Bytes → M (Unit {0})
  unfolding switch_back phase_has_service_side_effects finish_proxy
  restore_pointer r selected =
      if bytes_eq selected r.new_target
      then switch_back r >> finish_proxy r true
      else if bytes_eq selected r.old_target
      then finish_proxy r (phase_has_service_side_effects r.phase)
      else fail (pointer_changed r.pointer_path)

  unfoldable pub has_safe_paths : RecoveryRecord → Bool
  has_safe_paths r =
      e.is_abs r.pointer_path
      && (e.is_abs r.old_target && (is_empty r.new_target || e.is_abs r.new_target))

  -- `recoverProxy`.
  unfoldable pub recover_proxy : RecoveryRecord → M (Unit {0})
  unfolding remove_recovery_workspace has_safe_paths read_file restore_pointer
  recover_proxy r =
      if not (is_empty r.workspace) && not (e.is_abs r.workspace)
      then fail (invalid_recovery_path "workspace")
      else if is_empty r.pointer_path
      then remove_recovery_workspace r.workspace
      else if has_safe_paths r
      then wrapping install_rollback_attempted environment
          "Could not inspect the interrupted proxy update pointer." (read_file r.pointer_path)
        >>= restore_pointer r
      else fail (invalid_recovery_path "proxy pointer")

  -- `hashHex` of a file with this content.
  unfoldable hash_hex : Bytes → Bytes
  unfolding hex
  hash_hex content = hex (e.sha256 content)

  abbrev mismatch : Err → Err
  mismatch cause =
      wrap cause install_rollback_attempted internal
        "Interrupted self-update cannot safely restore the previous executable."

  abbrev unless_retained : RecoveryRecord → Bytes → M (Unit {0})
  unfolding hash_hex
  unless_retained r content =
      if bytes_eq (hash_hex content) r.current_sha256
      then pure tt
      else fail (mismatch (foreign "retained executable fingerprint mismatch"))

  -- The executable that was retained takes the place of one that is not the old one.
  unfoldable restore_executable : RecoveryRecord → Bytes → M (Unit {0})
  unfolding read_file hash_hex attempt copy_file_atomic
  restore_executable r active =
      if bytes_eq (hash_hex active) r.current_sha256
      then pure tt
      else (wrapping install_rollback_attempted internal
            "Interrupted self-update cannot safely restore the previous executable."
            (read_file r.previous_path)
          >>= unless_retained r)
        >> attempt install_rollback_attempted
            "Retained PMux executable is unreadable during recovery."
        >> wrapping install_rollback_attempted environment
            "Could not restore the previous PMux executable."
            (copy_file_atomic r.previous_path r.current_path)

  unfoldable verify_executable : M (Unit {0})
  unfolding attempt
  verify_executable =
      if e.has_self_verifier
      then attempt install_rollback_attempted
          "Restored PMux executable failed version verification."
      else fail (
          new_error install_rollback_attempted environment
            "Cannot verify the restored PMux executable.")

  -- `recoverSelf`.
  unfoldable pub recover_self : RecoveryRecord → M (Unit {0})
  unfolding remove_recovery_workspace read_file restore_executable verify_executable
  recover_self r =
      if is_empty r.current_path
      then remove_recovery_workspace r.workspace
      else if e.is_abs r.current_path && e.is_abs r.previous_path
      then (wrapping install_rollback_attempted environment
            "Could not inspect the active PMux executable during recovery."
            (read_file r.current_path)
          >>= restore_executable r)
        >> verify_executable
        >> remove_recovery_workspace r.workspace
      else fail (invalid_recovery_path "self-update executable")

  unfoldable pub recover_component : RecoveryRecord → M (Unit {0})
  unfolding recover_proxy recover_self
  recover_component r =
      if bytes_eq r.component (codes "proxy") then recover_proxy r else recover_self r

  abbrev pub recovering : RecoveryRecord → RecoveryRecord
  recovering r = record r { phase = codes "recovering" }

  unfoldable pub recover_found : Option RecoveryRecord → M (Unit {0})
  unfolding checkpoint recover_component clear
  recover_found none = pure tt
  recover_found (some r) = checkpoint recovering >> recover_component r >> clear

  -- `recover`.
  unfoldable pub recover : M (Unit {0})
  unfolding read_record recover_found
  recover = read_record >>= recover_found
