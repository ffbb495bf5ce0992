-- ===== src/Updater/Finishing.antt =====
-- The parts of `recoverProxy`: from the record and the pointer before they lead to the old target.
use pmux.Base.{
  ℕ, zero, suc, ◌≡◌, ◌⊎◌, inl, inr, refl, ◌∙◌, Bool, true, false, not, ◌&&◌, Option, none, some, [],
  ◌∷◌, Bytes, codes, length, bytes_eq, bytes_eq_refl, bytes_eq_iff, arith,
}
use pmux.Base.Assoc.{lookup, lookup-insert}
use pmux.Pmuxerr.{Result, Err, install_rollback_attempted, environment}
use pmux.State.Disk.{World, pure}
use pmux.State.Frame.{Files}
use pmux.Updater.{
  RecoveryRecord, Engine, is_empty, is_supported, is_in, remove_some, remove_all, remove_outcome,
  swap_pointer, place_symlink,
}
use pmux.Updater.Recover.{
  recovering, stamped, remove_recovery_workspace, switch_back, verify_restored, remove_version,
  finish_proxy,
}
use pmux.Updater.Recording.{IsReadable, At, Noted}
use pmux.Updater.Triples.{
  Outcome, attempt_plain-Quiet, >>-Quiet, staged-Quiet, Leads, >>-Leads, pure-Leads, fail-Leads,
  Quiet-Leads, call-Leads, attempt-Leads, attempt_plain-Leads, wrapping-Leads, put-Leads, if-Leads,
}

-- A removal keeps what is outside of the directory.
pub lookup-remove_some :
    (n : ℕ) (dir path : Bytes) (files : Files)
    → is_in dir path ≡ false
    → lookup path (remove_some n dir files) ≡ lookup path files
unfolding remove_some lookup
lookup-remove_some zero dir path files h = refl
lookup-remove_some (suc n) dir path [] h = refl
lookup-remove_some (suc n) dir path ((p, content) ∷ files) h = ground (
  arith,
  bytes_eq_iff p path,
  lookup-remove_some n dir path files h,
  lookup-remove_some (suc n) dir path files h,
)

-- A record of a proxy update as the update writes it: its pointer is another file than the record, and is
-- not in the directories of the update.
pub record IsProxyUpdate (e : Engine) (r : RecoveryRecord) : Type 0 where
  pub supported : is_supported r ≡ true
  pub of_proxy : bytes_eq r.component (codes "proxy") ≡ true
  pub has_pointer : is_empty r.pointer_path ≡ false
  pub record_apart : bytes_eq e.path r.pointer_path ≡ false
  pub outside_workspace : is_empty r.workspace ≡ false → is_in r.workspace r.pointer_path ≡ false
  pub outside_version : is_empty r.final_dir ≡ false → is_in r.final_dir r.pointer_path ≡ false

module _ (e : Engine) (r : RecoveryRecord) where
  abbrev pub Old : Files → Type 0
  Old = At r.pointer_path (some r.old_target)

  -- The pointer selects what it is given, and the record is there, as it was or with the phase `recovering`.
  abbrev pub Marked : Option Bytes → Files → Type 0
  Marked = Noted e r r.pointer_path (recovering e)

  -- Either the old target is selected, or the pointer is as it was and the record is still there.
  abbrev pub Recoverable : Option Bytes → Files → Type 0
  Recoverable x files = Old files ⊎ Marked x files

  -- The old target is selected, and the pointer selected that or the new one before.
  abbrev pub Restored : Option Bytes → Files → Type 0
  Restored x a = Old a × ((x ≡ some r.old_target) ⊎ (x ≡ some r.new_target))

  abbrev pub Cleared : Option Bytes → Files → Type 0
  Cleared x a = At e.path none a × Restored x a

  -- What `recover` makes of the pending record, when the pointer selects `x` before.
  abbrev pub Restores : Option Bytes → Result (Unit {0}) × World → Type 0
  Restores x = Outcome (λ _. Cleared x) (Recoverable x)

module _ (e : Engine) (r : RecoveryRecord) (u : IsProxyUpdate e r)
    (good : IsReadable e (stamped e (recovering e r))) where
  pub marked : (x : Option Bytes) (a : Files) → Marked e r x a → Recoverable e r x a
  marked x a p = inr p

  pub old : (x : Option Bytes) (a : Files) → (Old e r) a → Recoverable e r x a
  old x a p = inl p

  pub remove_all-Leads :
      (x : Option Bytes) (dir : Bytes)
      → is_in dir r.pointer_path ≡ false
      → Leads (Recoverable e r x) (Old e r) (λ _. (Old e r)) (remove_all dir)
  unfolding remove_all
  remove_all-Leads x dir h = call-Leads _ _ either
    where
      either :
          (outcome : Option (ℕ × Err))
          → Leads (Recoverable e r x) (Old e r) (λ _. (Old e r)) (remove_outcome dir outcome)
      either none = record {
        leads = λ w p. lookup-remove_some (length w.files) dir r.pointer_path w.files h ∙ p;
      }
      either (some (n, f)) = record {
        leads = λ w p. inl (lookup-remove_some n dir r.pointer_path w.files h ∙ p);
      }

  pub workspace-Leads :
      (x : Option Bytes)
      → Leads
          (Recoverable e r x)
          (Old e r)
          (λ _. (Old e r))
          (remove_recovery_workspace e r.workspace)
  unfolding remove_recovery_workspace
  workspace-Leads x =
      if-Leads _ (is_empty r.workspace) _ _ (λ _. pure-Leads _ _ λ a p. p)
        λ some_workspace.
          if-Leads _ (e.is_abs r.workspace) _ _
            (λ _.
              wrapping-Leads _ install_rollback_attempted environment
                "Could not remove interrupted update staging." _
                (remove_all-Leads x r.workspace (u.outside_workspace some_workspace)))
            (λ _. fail-Leads _ _ (old x))

  pub version-Leads :
      (x : Option Bytes) → Leads (Recoverable e r x) (Old e r) (λ _. (Old e r)) (remove_version e r)
  unfolding remove_version
  version-Leads x =
      if-Leads _ (not (is_empty r.final_dir) && not (bytes_eq r.final_dir r.old_target)) _ _
        (λ b.
          if-Leads _ (e.is_abs r.final_dir) _ _
            (λ _.
              wrapping-Leads _ install_rollback_attempted environment
                "Could not remove the interrupted proxy version." _
                (remove_all-Leads x r.final_dir (u.outside_version (ground arith))))
            (λ _. fail-Leads _ _ (old x)))
        (λ _. pure-Leads _ _ λ a p. p)

  pub verify-Leads :
      (x : Option Bytes)
      → Leads (Recoverable e r x) (Old e r) (λ _. (Old e r)) (verify_restored e r)
  unfolding verify_restored
  verify-Leads x =
      if-Leads _ (e.has_service && e.has_proxy_verifier) _ _
        (λ _.
          >>-Leads _ (Old e r) _ _
            (>>-Leads _ (Old e r) _ _
              (>>-Leads _ (Old e r) _ _ (attempt-Leads _ _ _ (old x)) (attempt-Leads _ _ _ (old x)))
              (attempt-Leads _ _ _ (old x)))
            (if-Leads _ r.was_running _ _ (λ _. pure-Leads _ _ λ a p. p)
              (λ _. attempt-Leads _ _ _ (old x))))
        (λ _. fail-Leads _ _ (old x))

  pub finish-Leads :
      (x : Option Bytes) (lifecycle : Bool)
      → Leads (Recoverable e r x) (Old e r) (λ _. (Old e r)) (finish_proxy e r lifecycle)
  unfolding finish_proxy
  finish-Leads x lifecycle =
      >>-Leads _ (Old e r) _ _
        (>>-Leads _ (Old e r) _ _
          (if-Leads _ lifecycle (verify_restored e r) (pure tt) (λ _. verify-Leads x)
            (λ _. pure-Leads _ _ λ a p. p))
          (version-Leads x))
        (workspace-Leads x)

  pub switch_back-Leads :
      (x : Option Bytes)
      → Leads (Recoverable e r x) (Marked e r x) (λ _. (Old e r)) (switch_back e r)
  unfolding switch_back swap_pointer place_symlink
  switch_back-Leads x =
      if-Leads _ e.has_service _ _
        (λ _. call-Leads _ _ λ ignored.
          wrapping-Leads _ install_rollback_attempted environment
            "Could not restore the previous proxy pointer." _
            (>>-Leads _ (Marked e r x) _ _ (attempt_plain-Leads _ (marked x)) (
              >>-Leads _ (Marked e r x) _ _
                (Quiet-Leads _ _
                  (staged-Quiet _ (>>-Quiet _ _ attempt_plain-Quiet attempt_plain-Quiet))
                  (marked x))
                (>>-Leads _ (Old e r) _ _
                  (put-Leads _ _ _ λ a p.
                    lookup-insert r.pointer_path r.pointer_path r.old_target a
                    ∙ rw (bytes_eq_refl r.pointer_path))
                  (attempt_plain-Leads _ (old x))))))
        (λ _. fail-Leads _ _ (marked x))
