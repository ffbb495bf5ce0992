-- ===== src/Updater/Proxy.antt =====
-- internal/adapter/updater/engine.go: `UpdateProxy` from the reading of the service's status on, with its
-- deferred recovery, and the rollback.
use pmux.Base.{List, [], ◌∷◌, ◌++◌, String, codes, text_of, if◌then◌else◌}
use pmux.Pmuxerr.{
  Result, ok, err, Err, fields, typed, typed_with, wrap, environment, upstream,
  install_rollback_attempted, install_integrity_failed, config_mutation_conflict,
  service_backend_unavailable, service_start_failed,
}
use pmux.State.Disk.{World, M, pure, fail, ◌>>=◌, ◌>>◌, call, unless_complete}
use pmux.Updater.{RecoveryRecord, Engine, attempt_plain, remove_all, swap_pointer}
use pmux.Updater.Recover.{checkpoint, clear, recover}
use pmux.Updater.Stages.{
  Stage, stage_error, normalize, attempt_as, map_error, ignoring, Update, positive_timeout,
  rename_tree, renamed, exists, noting, join_errors, rollback_error, stop_service, install_version,
  switch_pointer,
}

module _ (e : Engine) (u : Update) where
  -- The rollback behind the swap: an error of it, or the checks of the restored proxy.
  unfoldable pub check_started : List Err → M (List Err)
  unfolding attempt_plain
  check_started [] = noting attempt_plain >>= λ a. noting attempt_plain >>= λ b. pure (a ++ b)
  check_started (f ∷ rest) = pure (f ∷ rest)

  unfoldable pub check_swapped : List Err → M (List Err)
  unfolding attempt_plain check_started
  check_swapped [] = do
    a ← noting attempt_plain >>= check_started
    b ← if u.was_running then pure [] else noting attempt_plain
    pure (a ++ b)
  check_swapped (f ∷ rest) = pure (f ∷ rest)

  unfoldable pub rolled_back : Err → List Err → M (Unit {0})
  unfolding remove_all rollback_error join_errors
  rolled_back cause [] =
      ignoring (remove_all u.final_dir)
      >> fail (
          typed_with
            (fields install_rollback_attempted upstream
              "Updated CLIProxyAPI failed verification and was rolled back to the previous version.")
            cause)
  rolled_back cause (f ∷ rest) = fail (rollback_error cause (join_errors f rest))

  -- `rollbackProxy`: the calls of `Stop`, `Swap`, `Start`, `Health`, `Authenticated` and `Stop`.
  unfoldable pub rollback_proxy : Err → M (Unit {0})
  unfolding attempt_plain swap_pointer check_swapped rolled_back
  rollback_proxy cause = do
    stopped ← noting attempt_plain
    restored ← noting (swap_pointer u.pointer u.old_target) >>= check_swapped
    rolled_back cause (stopped ++ restored)

  -- `failure`: a later error rolls the update back.
  abbrev pub or_rollback : Result (Unit {0}) × World → Result (Unit {0}) × World
  unfolding rollback_proxy
  or_rollback (ok v, w) = (ok v, w)
  or_rollback (err cause, w) = rollback_proxy cause w

  -- `if wasRunning { _ = e.service.Start(ctx) }`.
  unfoldable pub resume : M (Unit {0})
  unfolding call
  resume = if u.was_running then (call >>= λ ignored. pure tt) else pure tt

  unfoldable pub remove_and_resume : M (Unit {0})
  unfolding remove_all resume
  remove_and_resume = ignoring (remove_all u.final_dir) >> resume

  -- `e.stage(stage)`, of which an error becomes a `stageError`.
  unfoldable pub hooked : Stage → M (Unit {0})
  unfolding attempt_as stage_error
  hooked stage = attempt_as (stage_error stage)

  abbrev pub with_phase : String → RecoveryRecord → RecoveryRecord
  with_phase phase r = record r { phase = codes phase }

  unfoldable pub stop_running : M (Unit {0})
  unfolding hooked checkpoint attempt_as normalize
  stop_running =
      if u.was_running
      then hooked stop_service
        >> (checkpoint e (with_phase "stopping-service")
            >> attempt_as (
                normalize service_start_failed
                  "Could not stop CLIProxyAPI before update; activation was refused."))
      else pure tt

  abbrev inspect_failed : Err → Err
  inspect_failed f =
      wrap f config_mutation_conflict environment
        "Could not inspect the target proxy version directory."

  abbrev pub refuse_existing : M (Unit {0})
  unfolding exists
  refuse_existing w =
      (if exists u.final_dir w.files
          then fail (
              typed
                (record (fields config_mutation_conflict environment
                  "The target proxy version directory already exists; activation was refused.") {
                    evidence = text_of u.final_dir ∷ [];
                  }))
          else pure tt)
        w

  abbrev pub installing : RecoveryRecord → RecoveryRecord
  installing r = record (with_phase "installing-version" r) {
    new_target = u.final_dir;
    final_dir = u.final_dir;
  }

  -- Up to the renaming of the extracted directory, a failure starts the old proxy again.
  unfoldable pub install : M (Unit {0})
  unfolding attempt_as normalize hooked checkpoint refuse_existing rename_tree
  install = do
    attempt_as inspect_failed
    refuse_existing
    attempt_as
        (normalize install_integrity_failed "Could not prepare proxy executable permissions.")
    hooked install_version
    checkpoint e installing
    attempt_as
        (normalize install_rollback_attempted "Could not install the verified proxy version.")
    renamed u.extracted_dir u.final_dir

  -- Up to the swap, a failure removes the new version as well.
  unfoldable pub select : M (Unit {0})
  unfolding hooked checkpoint swap_pointer normalize
  select w =
      (hooked switch_pointer
          >> (checkpoint e (with_phase "switching-pointer") >> λ w.
              map_error
                (normalize install_rollback_attempted
                  "Could not select the verified proxy version; the prior pointer was retained.")
                (swap_pointer u.pointer u.final_dir w)))
        w

  unfoldable pub verify : M (Unit {0})
  unfolding attempt_plain checkpoint
  verify = do
    attempt_plain
    checkpoint e (with_phase "starting-service")
    attempt_plain
    attempt_plain
    checkpoint e (with_phase "verifying")
    attempt_plain
    attempt_plain
    attempt_plain
    attempt_plain
    attempt_plain
    if u.was_running then pure tt else attempt_plain

  unfoldable pub verify_or_rollback : M (Unit {0})
  unfolding verify rollback_proxy
  verify_or_rollback w = or_rollback (verify w)

  abbrev pub noting_service : RecoveryRecord → RecoveryRecord
  noting_service r = record r {
    was_running = u.was_running;
    stop_timeout_ns = positive_timeout u.stop_timeout;
  }

  -- From the call of `Status` to the last check of the new version.
  unfoldable pub cut_over : M (Unit {0})
  unfolding attempt_as normalize checkpoint stop_running install resume select remove_and_resume
      verify_or_rollback
  cut_over = do
    attempt_as (
        normalize service_backend_unavailable
          "Could not read the proxy service state before update.")
    checkpoint e noting_service
    stop_running
    unless_complete install resume
    unless_complete select remove_and_resume
    verify_or_rollback

  -- The deferred functions: the workspace is removed, and the recovery runs unless the update is complete.
  unfoldable pub abandon : M (Unit {0})
  unfolding remove_all recover
  abandon = ignoring (remove_all u.workspace) >> recover e

  abbrev pub remove_workspace : Result (Unit {0}) × World → Result (Unit {0}) × World
  unfolding remove_all
  remove_workspace (v, w) = (v, (remove_all u.workspace w).1)

  unfoldable pub complete : M (Unit {0})
  unfolding clear remove_all
  complete w = remove_workspace (clear e w)

  unfoldable pub attempt_update : M (Unit {0})
  unfolding cut_over abandon
  attempt_update = unless_complete cut_over abandon

  unfoldable pub update_proxy : M (Unit {0})
  unfolding attempt_update complete
  update_proxy = attempt_update >> complete
