-- ===== src/Updater/Replacing.antt =====
-- What `UpdateProxy` makes of the pointer, whichever calls fail.
use pmux.Base.{◌≡◌, ◌⊎◌, inl, inr, ◌∙◌, some, bytes_eq_refl}
use pmux.Base.Assoc.{lookup, remove, lookup-remove}
use pmux.Pmuxerr.{Result, ok, err}
use pmux.State.Disk.{World}
use pmux.State.Frame.{Files}
use pmux.Updater.{RecoveryRecord, Engine, remove_all}
use pmux.Updater.Recover.{clear, recover}
use pmux.Updater.Stages.{Update, ignoring}
use pmux.Updater.Proxy.{
  resume, remove_and_resume, install, select, noting_service, cut_over, abandon, attempt_update,
  remove_workspace, complete, update_proxy,
}
use pmux.Updater.Recording.{IsReadable, Stored, At}
use pmux.Updater.Finishing.{Restores}
use pmux.Updater.Restoring.{recover-Restores}
use pmux.Updater.Written.{
  is_recovering, Written, prepared, serviced, phased, IsPrepared, written-Alike,
  written-IsProxyUpdate,
}
use pmux.Updater.Triples.{
  Outcome, Leads, >>-Leads, attempt-Leads, attempt_plain-Leads, discard-Leads, to-Leads,
}
use pmux.Updater.Guards.{Selects, Guarded, With, Agree, Ready, Named, Switched, Failed, Done, Ended}
use pmux.Updater.Keeping.{
  attempt_as-Quiet, unless_complete-Leads, checkpoint-old, Guarded-Agree, remove_all-Agrees,
  resume-Agrees, remove_and_resume-Agrees, step, to-Ready,
}
use pmux.Updater.Switching.{stop_running-Leads, install-Leads, select-Leads}
use pmux.Updater.Rolling.{Switched-Guarded, verify_or_rollback-Leads}

module _ (e : Engine) (u : Update) (r : RecoveryRecord) (g : IsPrepared e u r)
    (readable : (s : RecoveryRecord) → Written e u r s → IsReadable e s) where
  -- Before the update: the prepared record is there, and the old target is selected.
  cut_over-Leads :
      Leads (Guarded e u r) ((With e u r) r u.old_target) (λ _. (Switched e u r)) (cut_over e u)
  unfolding cut_over
  cut_over-Leads =
      >>-Leads _ ((With e u r) r u.old_target) _ _
        ((step e u r g readable) _ (attempt_as-Quiet _) r prepared)
        (>>-Leads _ (Ready e u r) _ _
          ((to-Ready e u r g readable) _ serviced _
            ((checkpoint-old e u r g readable) r (noting_service e u) prepared serviced))
          (>>-Leads _ (Ready e u r) _ _ (stop_running-Leads e u r g readable) (
            >>-Leads _ (Named e u r) _ _
              (unless_complete-Leads (install e u) (resume e u) (install-Leads e u r g readable)
                λ w p.
                  (Guarded-Agree e u r g readable) w.files _
                    ((resume-Agrees e u r g readable).keeps w) p)
              (>>-Leads _ (Switched e u r) _ _
                (unless_complete-Leads (select e u) (remove_and_resume e u)
                  (select-Leads e u r g readable)
                  λ w p.
                    (Guarded-Agree e u r g readable) w.files _
                      ((remove_and_resume-Agrees e u r g readable).keeps w) p)
                (verify_or_rollback-Leads e u r g readable)))))

  old_selected :
      (s : RecoveryRecord)
      → Written e u r s
      → (a : Files) → At s.pointer_path (some s.old_target) a
      → At u.pointer (some u.old_target) a
  old_selected s n a p =
      let k = written-Alike e u r g s n in rw (← k.pointer) (rw (← k.old_target) p)

  same_selected :
      (s : RecoveryRecord)
      → Written e u r s
      → (a b : Files) → lookup s.pointer_path b ≡ lookup s.pointer_path a
      → (Selects e u r) s a
      → (Selects e u r) s b
  same_selected s n a b p (inl q) = inl (moved ∙ q)
    where
      moved : lookup u.pointer b ≡ lookup u.pointer a
      moved = rw (← (written-Alike e u r g s n).pointer) p
  same_selected s n a b p (inr (q, names)) = inr (moved ∙ q, names)
    where
      moved : lookup u.pointer b ≡ lookup u.pointer a
      moved = rw (← (written-Alike e u r g s n).pointer) p

  pub recovered :
      (s : RecoveryRecord)
      → Written e u r s
      → (w : World) → Stored e s w.files
      → (Selects e u r) s w.files
      → (x : Result (Unit {0}) × World) → Restores e s (lookup s.pointer_path w.files) x
      → (Failed e u r) x.1.files
  recovered s n w stored selects (ok v, w') p = inl (old_selected s n w'.files p.1.0)
  recovered s n w stored selects (err f, w') (inl p) = inl (old_selected s n w'.files p)
  recovered s n w stored selects (err f, w') (inr (p, inl q)) =
      inr (s, n, q, same_selected s n w.files w'.files p selects)
  recovered s n w stored selects (err f, w') (inr (p, inr q)) =
      inr (_, phased s _ is_recovering n, q, same_selected s n w.files w'.files p selects)

  abandon-Failed : (w : World) → (Guarded e u r) w.files → (Failed e u r) (abandon e u w).1.files
  unfolding abandon
  abandon-Failed w p = after ((ignoring (remove_all u.workspace)) w).1 (
      (Guarded-Agree e u r g readable) w.files _
        (((remove_all-Agrees e u r g readable) u.workspace g.pointer_outside.0
            g.record_outside.0).keeps
          w)
        p)
    where
      after : (w : World) → (Guarded e u r) w.files → (Failed e u r) (recover e w).1.files
      after w (s, n, stored, selects) = recovered s n w stored selects (recover e w) (
          recover-Restores e s (written-IsProxyUpdate e u r g s n)
            (readable _ (phased s _ is_recovering n)) w stored)

  pub clear-Leads :
      Leads (λ a. (Failed e u r) a ⊎ (Done e u r) a) (Switched e u r) (λ _. (Done e u r)) (clear e)
  unfolding clear
  clear-Leads =
      >>-Leads _ (Switched e u r) _ _
        (attempt-Leads _ _ _ λ a p. inl (inr ((Switched-Guarded e u r g readable) a p)))
        (>>-Leads _ (Done e u r) _ _ (discard-Leads _ _ gone) (attempt_plain-Leads _ λ a p. inr p))
    where
      gone : (a : Files) → (Switched e u r) a → (Done e u r) (remove e.path a)
      gone a (s, n, names, p) = (
        lookup-remove e.path u.pointer a ∙ rw g.record_apart p.1,
        lookup-remove e.path e.path a ∙ rw (bytes_eq_refl e.path),
      )

  complete-Leads :
      Leads
        (λ a. (Failed e u r) a ⊎ (Done e u r) a)
        (Switched e u r)
        (λ _. (Done e u r))
        (complete e u)
  unfolding complete
  complete-Leads = record { leads = λ w p. each (clear e w) (clear-Leads.leads w p) }
    where
      kept : (w : World) → (Agree e u r) w.files (remove_all u.workspace w).1.files
      kept w =
          ((remove_all-Agrees e u r g readable) u.workspace g.pointer_outside.0
              g.record_outside.0).keeps
            w

      each :
          (x : Result (Unit {0}) × World) → (Ended e u r) x → (Ended e u r) (remove_workspace e u x)
      each (ok v, w) p = ((kept w).1 ∙ p.0, (kept w).0 ∙ p.1)
      each (err f, w) (inl (inl p)) = inl (inl ((kept w).1 ∙ p))
      each (err f, w) (inl (inr p)) =
          inl (inr ((Guarded-Agree e u r g readable) w.files _ (kept w) p))
      each (err f, w) (inr p) = inr ((kept w).1 ∙ p.0, (kept w).0 ∙ p.1)

  attempt_update-Leads :
      Leads
        (Failed e u r)
        ((With e u r) r u.old_target)
        (λ _. (Switched e u r))
        (attempt_update e u)
  unfolding attempt_update
  attempt_update-Leads =
      unless_complete-Leads (cut_over e u) (abandon e u) cut_over-Leads abandon-Failed

  -- UpdateProxy from a prepared record on, with the old target selected, directories that hold neither the
  -- pointer nor the record, and written records that can be read back, whichever calls fail: an error up
  -- to and with the deferred recovery leaves the old target selected, or a record that was written, with
  -- the old target selected or the new one if it names it; without one the new target is selected and a
  -- record names it. The whole update returns no error only with the new target selected and no record
  -- left; an error of its end may leave that as well.
  pub update_proxy-Ended :
      (w : World)
      → Stored e r w.files
      → lookup u.pointer w.files ≡ some u.old_target
      → Outcome (λ _. (Switched e u r)) (Failed e u r) (attempt_update e u w)
        × (Ended e u r) (update_proxy e u w)
  unfolding update_proxy
  update_proxy-Ended w stored old = (
    attempt_update-Leads.leads w (stored, old),
    (>>-Leads _ (Switched e u r) _ _ (to-Leads _ (λ a p. inl p) (λ _ a p. p) attempt_update-Leads)
          complete-Leads).leads
        w (stored, old),
  )
