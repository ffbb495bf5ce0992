-- ===== src/Updater/Restoring.antt =====
-- What `recover` does with the pending record of a proxy update, whichever calls fail.
use pmux.Base.{
  ℕ, ◌≡◌, ◌⊎◌, inl, inr, refl, ap, ◌∙◌, sym, true, not, ◌&&◌, Option, none, some, Bytes, bytes_eq,
  bytes_eq_refl, bytes_eq_sound,
}
use pmux.Base.Assoc.{lookup, remove, lookup-remove}
use pmux.Pmuxerr.{Result, ok, err, Err, install_rollback_attempted, environment}
use pmux.State.Disk.{World, M, lift}
use pmux.State.Store.{read_file, whole}
use pmux.State.Frame.{Files}
use pmux.Updater.{RecoveryRecord, Engine, is_empty}
use pmux.Updater.Recover.{
  read_record, checkpoint, recovering, stamped, clear, recover_component, recover_proxy,
  recover_found, recover, restore_pointer, has_safe_paths,
}
use pmux.Updater.Recording.{IsReadable, Stored, Begun, Read, read_record-Leads, checkpoint-Leads}
use pmux.Updater.Triples.{
  to-Leads, Outcome, Leads, >>=-Leads, >>-Leads, fail-Leads, call-Leads, attempt-Leads,
  attempt_plain-Leads, wrapping-Leads, discard-Leads, from-Leads, if-Leads,
}
use pmux.Updater.Finishing.{
  IsProxyUpdate, Old, Marked, Recoverable, Restored, Cleared, Restores, marked, finish-Leads,
  switch_back-Leads,
}

module _ (e : Engine) (r : RecoveryRecord) (u : IsProxyUpdate e r)
    (good : IsReadable e (stamped e (recovering e r))) where
  known-Leads :
      (x : Option Bytes) (m : M (Unit {0})) {P : Files → Type 0}
      → (x ≡ some r.old_target) ⊎ (x ≡ some r.new_target)
      → Leads (Recoverable e r x) P (λ _. (Old e r)) m
      → Leads (Recoverable e r x) P (λ _. Restored e r x) m
  known-Leads x m {P} known h = record { leads = λ w p. both (m w) (h.leads w p) }
    where
      both :
          (y : Result (Unit {0}) × World)
          → Outcome (λ _. (Old e r)) (Recoverable e r x) y
          → Outcome (λ _. Restored e r x) (Recoverable e r x) y
      both (ok v, w) p = (p, known)
      both (err f, w) p = p

  restore_pointer-Leads :
      (x : Option Bytes) (selected : Bytes)
      → x ≡ some selected
      → Leads
          (Recoverable e r x)
          (Marked e r x)
          (λ _. Restored e r x)
          (restore_pointer e r selected)
  unfolding restore_pointer
  restore_pointer-Leads x selected h =
      if-Leads _ (bytes_eq selected r.new_target) _ _
        (λ b. known-Leads x _ (inr (h ∙ ap some (bytes_eq_sound selected r.new_target b))) (
          >>-Leads _ (Old e r) _ _ ((switch_back-Leads e r u good) x)
            ((finish-Leads e r u good) x true)))
        (λ _.
          if-Leads _ (bytes_eq selected r.old_target) _ _
            (λ b.
              let same : x ≡ some r.old_target =
                h ∙ ap some (bytes_eq_sound selected r.old_target b) in
              known-Leads x _ (inl same)
                (from-Leads _ (Old e r) _ (λ a p. p.0 ∙ same) ((finish-Leads e r u good) x _)))
            (λ _. fail-Leads _ _ ((marked e r u good) x)))

  read_file-Leads :
      (x : Option Bytes)
      → Leads
          (Recoverable e r x)
          (Marked e r x)
          (λ selected a. (x ≡ some selected) × Marked e r x a)
          (read_file r.pointer_path)
  unfolding read_file
  read_file-Leads x =
      call-Leads _ _
        λ outcome. record { leads = λ w p. found outcome w p (lookup r.pointer_path w.files) refl }
    where
      found :
          (outcome : Option (ℕ × Err)) (w : World) (p : Marked e r x w.files)
          (content : Option Bytes)
          → lookup r.pointer_path w.files ≡ content
          → Outcome
              (λ selected a. (x ≡ some selected) × Marked e r x a)
              (Recoverable e r x)
              (lift (whole content outcome) w)
      found none w p none h = inr p
      found none w p (some content) h = (sym p.0 ∙ h, p)
      found (some (n, f)) w p content h = inr p

  recover_proxy-Leads :
      (x : Option Bytes)
      → Leads (Recoverable e r x) (Marked e r x) (λ _. Restored e r x) (recover_proxy e r)
  unfolding recover_proxy
  recover_proxy-Leads x =
      if-Leads _ (not (is_empty r.workspace) && not (e.is_abs r.workspace)) _ _
        (λ _. fail-Leads _ _ ((marked e r u good) x))
        (λ _. rw u.has_pointer (
          if-Leads _ (has_safe_paths e r) _ _
            (λ _.
              >>=-Leads _ _ _ (restore_pointer e r)
                (wrapping-Leads _ install_rollback_attempted environment
                  "Could not inspect the interrupted proxy update pointer." _ (read_file-Leads x))
                λ selected. record {
                  leads = λ w p. (restore_pointer-Leads x selected p.0).leads w p.1;
                })
            (λ _. fail-Leads _ _ ((marked e r u good) x))))

  Begun-Leads :
      (x : Option Bytes)
      → Leads
          (Recoverable e r x)
          (Begun e r r.pointer_path (recovering e) x)
          (Read e r r.pointer_path (recovering e) x)
          (read_record e)
  Begun-Leads x =
      to-Leads _ ((marked e r u good) x) (λ o a p. p)
        (read_record-Leads e r r.pointer_path (recovering e) u.supported u.record_apart good x)

  mark-Leads :
      (x : Option Bytes)
      → Leads
          (Recoverable e r x)
          (Begun e r r.pointer_path (recovering e) x)
          (λ _. Marked e r x)
          (checkpoint e (recovering e))
  mark-Leads x =
      to-Leads _ ((marked e r u good) x) (λ _ a p. (p.0, inr p.1))
        (checkpoint-Leads e r r.pointer_path (recovering e) u.supported u.record_apart good x)

  clear-Leads :
      (x : Option Bytes) → Leads (Recoverable e r x) (Restored e r x) (λ _. Cleared e r x) (clear e)
  unfolding clear
  clear-Leads x = >>-Leads _ (Restored e r x) _ _ (attempt-Leads _ _ _ λ a p. inl p.0) (
      >>-Leads _ (Cleared e r x) _ _ (discard-Leads _ _ gone)
        (attempt_plain-Leads _ λ a p. inl p.1.0))
    where
      gone : (a : Files) → Restored e r x a → Cleared e r x (remove e.path a)
      gone a p = (
        lookup-remove e.path e.path a ∙ rw (bytes_eq_refl e.path),
        (lookup-remove e.path r.pointer_path a ∙ rw u.record_apart p.0, p.1),
      )

  -- recover of a pending proxy update, with a faithful encoding and a pointer that is neither the record
  -- nor in the directories of the update, whichever calls fail: without an error the pointer selects the
  -- (old e r u good) target, selected that or the new one before, and the record is gone; with an error the pointer
  -- selects the (old e r u good) target, or what it selected before with the record still there to recover from.
  pub recover-Restores :
      (w : World) → Stored e r w.files → Restores e r (lookup r.pointer_path w.files) (recover e w)
  unfolding recover recover_found recover_component
  recover-Restores w stored =
      (>>=-Leads _ (Read e r r.pointer_path (recovering e) x) (read_record e) (recover_found e)
          (Begun-Leads x) either).leads
        w (stored, refl)
    where
      x : Option Bytes
      x = lookup r.pointer_path w.files

      component-Leads :
          Leads (Recoverable e r x) (Marked e r x) (λ _. Restored e r x) (recover_component e r)
      component-Leads = rw u.of_proxy (recover_proxy-Leads x)

      either :
          (o : Option RecoveryRecord)
          → Leads
              (Recoverable e r x)
              (Read e r r.pointer_path (recovering e) x o)
              (λ _. Cleared e r x)
              (recover_found e o)
      either none = record { leads = λ w p. absurd (let no : none ≡ some r = p.0 in cc) }
      either (some s) = record {
        leads = λ w p.
            let same : s ≡ r = let h : some s ≡ some r = p.0 in cc in
            rw same (
              (>>-Leads _ (Restored e r x) _ _
                  (>>-Leads _ (Marked e r x) _ _ (mark-Leads x) component-Leads)
                  (clear-Leads x)).leads
                w p.1);
      }
