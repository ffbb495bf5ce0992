-- ===== src/Updater/Success.antt =====
-- The recovery of a proxy update where no call fails.
use pmux.Base.{
  ℕ, ◌≡◌, ◌⊎◌, inl, inr, refl, ap, ◌∙◌, Bool, true, false, not, ◌&&◌, some, List, ◌∷◌, ◌++◌, [],
  Bytes, String, bytes_eq, bytes_eq_refl, arith, length, if◌then◌else◌,
}
use pmux.Base.Assoc.{lookup, insert, lookup-insert}
use pmux.Pmuxerr.{ok, Code, Class, install_rollback_attempted, environment}
use pmux.Files.{newline}
use pmux.State.Disk.{Notice, M, ◌>>◌, ◌>>=◌, pure, call, attempt, then_run}
use pmux.State.Store.{read_file}
use pmux.State.Frame.{Files}
use pmux.State.Reading.{at_rest}
use pmux.Updater.{
  RecoveryRecord, Engine, is_empty, remove_some, remove_all, swap_pointer, attempt_plain, wrapping,
  wrap_error, place_symlink, checked_record, decoded_record, phase_has_service_side_effects,
}
use pmux.Updater.Recover.{
  read_record, fill_record, checkpoint, recovering, stamped, write_record, write_encoded, clear,
  recover_component, recover_proxy, recover_found, recover, remove_recovery_workspace, switch_back,
  verify_restored, remove_version, finish_proxy, restore_pointer, has_safe_paths,
}
use pmux.Updater.Recording.{Stored}
use pmux.Updater.Finishing.{IsProxyUpdate}

-- The operation succeeds where no call fails, whatever the files, and then no later call fails.
record IsCalm (m : M (Unit {0})) : Type 0 where
  calm :
      (files : Files) (notices : List Notice) (l : ℕ)
      → (after : Files) × (m (at_rest files notices l) ≡ (ok tt, at_rest after notices l))

>>-IsCalm : (m n : M (Unit {0})) → IsCalm m → IsCalm n → IsCalm (m >> n)
>>-IsCalm m n hm hn = record {
  calm = λ files notices l.
      let (middle, e) = hm.calm files notices l in
      let (after, e') = hn.calm middle notices l in (after, ap (then_run (λ _. n)) e ∙ e');
}

remove_all-IsCalm : (dir : Bytes) → IsCalm (remove_all dir)
unfolding remove_all call
remove_all-IsCalm dir = record {
  calm = λ files notices l. (remove_some (length files) dir files, refl);
}

if-IsCalm :
    (b : Bool) (m n : M (Unit {0}))
    → (b ≡ true → IsCalm m)
    → (b ≡ false → IsCalm n)
    → IsCalm (if b then m else n)
if-IsCalm true m n hm hn = record { calm = (hm refl).calm }
if-IsCalm false m n hm hn = record { calm = (hn refl).calm }

attempt-IsCalm : (c : Code) (message : String) → IsCalm (attempt c message)
unfolding attempt call
attempt-IsCalm c message = record { calm = λ files notices l. (files, refl) }

pure-IsCalm : IsCalm (pure tt)
pure-IsCalm = record { calm = λ files notices l. (files, refl) }

wrapping-IsCalm :
    (c : Code) (k : Class) (message : String) (m : M (Unit {0}))
    → IsCalm m
    → IsCalm (wrapping c k message m)
wrapping-IsCalm c k message m h = record {
  calm = λ files notices l.
      let (after, e) = h.calm files notices l in (after, ap (wrap_error c k message) e);
}

-- What the recovery needs: its parts, absolute paths, and an encoding of the record.
pub record IsRecoverable (e : Engine) (r : RecoveryRecord) : Type 0 where
  pub has_service : e.has_service ≡ true
  pub has_proxy_verifier : e.has_proxy_verifier ≡ true
  pub workspace_absolute : (is_empty r.workspace ≡ true) ⊎ (e.is_abs r.workspace ≡ true)
  pub version_absolute : (is_empty r.final_dir ≡ true) ⊎ (e.is_abs r.final_dir ≡ true)
  pub safe_paths : has_safe_paths e r ≡ true
  pub encoding : Bytes
  pub is_encoded : e.encode (stamped e (recovering e r)) ≡ some encoding

module _ (e : Engine) (r : RecoveryRecord) (u : IsProxyUpdate e r) (g : IsRecoverable e r) where
  verify-IsCalm : IsCalm (verify_restored e r)
  unfolding verify_restored
  verify-IsCalm =
      if-IsCalm (e.has_service && e.has_proxy_verifier) _ _
        (λ _.
          >>-IsCalm _ _
            (>>-IsCalm _ _ (>>-IsCalm _ _ (attempt-IsCalm _ _) (attempt-IsCalm _ _))
              (attempt-IsCalm _ _))
            (if-IsCalm r.was_running _ _ (λ _. pure-IsCalm) (λ _. attempt-IsCalm _ _)))
        (λ no. absurd (let a = g.has_service in let b = g.has_proxy_verifier in ground arith))

  workspace-IsCalm : IsCalm (remove_recovery_workspace e r.workspace)
  unfolding remove_recovery_workspace
  workspace-IsCalm =
      if-IsCalm (is_empty r.workspace) _ _ (λ _. pure-IsCalm)
        λ some_workspace.
          if-IsCalm (e.is_abs r.workspace) _ _
            (λ _.
              wrapping-IsCalm install_rollback_attempted environment
                "Could not remove interrupted update staging." _ (remove_all-IsCalm r.workspace))
            (λ no. absurd (let a = g.workspace_absolute in ground arith))

  version-IsCalm : IsCalm (remove_version e r)
  unfolding remove_version
  version-IsCalm =
      if-IsCalm (not (is_empty r.final_dir) && not (bytes_eq r.final_dir r.old_target)) _ _
        (λ b.
          if-IsCalm (e.is_abs r.final_dir) _ _
            (λ _.
              wrapping-IsCalm install_rollback_attempted environment
                "Could not remove the interrupted proxy version." _ (remove_all-IsCalm r.final_dir))
            (λ no. absurd (let a = g.version_absolute in ground arith)))
        (λ _. pure-IsCalm)

  finish-IsCalm : (b : Bool) → IsCalm (finish_proxy e r b)
  unfolding finish_proxy
  finish-IsCalm true = >>-IsCalm _ _ (>>-IsCalm _ _ verify-IsCalm version-IsCalm) workspace-IsCalm
  finish-IsCalm false = >>-IsCalm _ _ (>>-IsCalm _ _ pure-IsCalm version-IsCalm) workspace-IsCalm

  clear-IsCalm : IsCalm (clear e)
  unfolding clear attempt attempt_plain call
  clear-IsCalm = record { calm = λ files notices l. (_, refl) }

  swap-IsCalm : IsCalm (swap_pointer r.pointer_path r.old_target)
  unfolding swap_pointer attempt_plain place_symlink call
  swap-IsCalm = record {
    calm = λ files notices l. (insert r.pointer_path r.old_target files, refl);
  }

  ignored-IsCalm : (m : M (Unit {0})) → IsCalm m → IsCalm (call >>= λ ignored. m)
  unfolding call
  ignored-IsCalm m h = record { calm = λ files notices l. h.calm files notices l }

  switch_back-IsCalm : IsCalm (switch_back e r)
  unfolding switch_back
  switch_back-IsCalm =
      if-IsCalm e.has_service _ _
        (λ _. ignored-IsCalm _ (
          wrapping-IsCalm install_rollback_attempted environment
            "Could not restore the previous proxy pointer." _ swap-IsCalm))
        (λ no. absurd (let a = g.has_service in cc))

  -- A pointer that selects one of the two targets can be restored.
  restore-IsCalm :
      (selected : Bytes)
      → (selected ≡ r.old_target) ⊎ (selected ≡ r.new_target)
      → IsCalm (restore_pointer e r selected)
  unfolding restore_pointer
  restore-IsCalm selected known =
      if-IsCalm (bytes_eq selected r.new_target) _ _
        (λ _. >>-IsCalm _ _ switch_back-IsCalm (finish-IsCalm true))
        (λ new.
          if-IsCalm (bytes_eq selected r.old_target) _ _
            (λ _. finish-IsCalm (phase_has_service_side_effects r.phase))
            (λ no. absurd (neither new no)))
    where
      neither : bytes_eq selected r.new_target ≡ false → bytes_eq selected r.old_target ≡ false → ⊥
      neither new old = elim known [
        | inl e ↦
            let yes : bytes_eq selected r.old_target ≡ true = rw e (bytes_eq_refl r.old_target) in
            cc
        | inr e ↦
            let yes : bytes_eq selected r.new_target ≡ true = rw e (bytes_eq_refl r.new_target) in
            cc
      ]

  read_record-at_rest :
      (files : Files) (notices : List Notice) (l : ℕ)
      → Stored e r files
      → read_record e (at_rest files notices l) ≡ (ok (some r), at_rest files notices l)
  unfolding read_record attempt call
  read_record-at_rest files notices l (text, there, decodes) =
      rw there (rw decodes (unfold decoded_record checked_record in rw u.supported refl))

  recover_proxy-at_rest :
      (files : Files) (notices : List Notice) (l : ℕ) (selected : Bytes)
      → lookup r.pointer_path files ≡ some selected
      → (selected ≡ r.old_target) ⊎ (selected ≡ r.new_target)
      → (after : Files) × (recover_proxy e r (at_rest files notices l)
          ≡ (ok tt, at_rest after notices l))
  unfolding recover_proxy
  recover_proxy-at_rest files notices l selected there known = rw safe (
      rw u.has_pointer (
        rw g.safe_paths (
          unfold read_file call in
          rw there ((restore-IsCalm selected known).calm files notices l))))
    where
      safe : not (is_empty r.workspace) && not (e.is_abs r.workspace) ≡ false
      safe = let a = g.workspace_absolute in ground arith

  checkpoint-at_rest :
      (files : Files) (notices : List Notice) (l : ℕ)
      → Stored e r files
      → checkpoint e (recovering e) (at_rest files notices l)
        ≡ (ok tt, at_rest (insert e.path (g.encoding ++ newline ∷ []) files) notices l)
  unfolding checkpoint
  checkpoint-at_rest files notices l stored = rw (read_record-at_rest files notices l stored) (
      unfold write_record attempt call in
      rw g.is_encoded (unfold write_encoded fill_record attempt_plain in refl))

  -- recover of a pending proxy update succeeds where no call fails, if the record has an encoding, its
  -- paths are absolute or missing, the engine has its parts, and the pointer selects one of the targets.
  pub recover-succeeds :
      (files : Files) (notices : List Notice) (l : ℕ) (selected : Bytes)
      → Stored e r files
      → lookup r.pointer_path files ≡ some selected
      → (selected ≡ r.old_target) ⊎ (selected ≡ r.new_target)
      → (after : Files) × (recover e (at_rest files notices l) ≡ (ok tt, at_rest after notices l))
  unfolding recover recover_found
  recover-succeeds files notices l selected stored there known =
      let text = g.encoding ++ newline ∷ [] in
      let there' : lookup r.pointer_path (insert e.path text files) ≡ some selected =
        lookup-insert e.path r.pointer_path text files ∙ rw u.record_apart there in
      let (middle, e1) =
        recover_proxy-at_rest (insert e.path text files) notices l selected there' known in
      let (after, e2) = clear-IsCalm.calm middle notices l in
      (
        after,
        rw (read_record-at_rest files notices l stored) (
            rw (checkpoint-at_rest files notices l stored)
              (unfold recover_component in rw u.of_proxy (rw e1 e2))),
      )
