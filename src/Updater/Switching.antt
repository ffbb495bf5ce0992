-- ===== src/Updater/Switching.antt =====
-- The installation of a version and the swap of the pointer.
use pmux.Base.{◌≡◌, refl, ◌∙◌, false, some, Bytes, codes, bytes_eq, bytes_eq_refl, bytes_eq_symm}
use pmux.Base.Assoc.{insert, lookup-insert}
use pmux.State.Disk.{put, unless_complete, remove_temporary}
use pmux.State.Frame.{Files}
use pmux.Updater.{RecoveryRecord, Engine, swap_pointer, place_symlink}
use pmux.Updater.Recover.{stamped}
use pmux.Updater.Stages.{Update, exists, rename_tree}
use pmux.Updater.Proxy.{hooked, stop_running, refuse_existing, installing, install, select}
use pmux.Updater.Recording.{IsReadable, Stored, At}
use pmux.Updater.Written.{
  is_stopping, is_switching, Written, phased, installed, IsPrepared, lookup-rename_tree,
}
use pmux.Updater.Triples.{
  Quiet, attempt_plain-Quiet, >>-Quiet, staged-Quiet, Leads, >>-Leads, pure-Leads, fail-Leads,
  put-Leads, if-Leads, to-Leads,
}
use pmux.Updater.Guards.{Guarded, With, Ready, Named, Switched}
use pmux.Updater.Keeping.{
  attempt_as-Quiet, map_error-Leads, old-Guarded, checkpoint-old, step, step-new, Ready-Leads,
  to-Ready,
}

module _ (e : Engine) (u : Update) (r : RecoveryRecord) (g : IsPrepared e u r)
    (readable : (s : RecoveryRecord) → Written e u r s → IsReadable e s) where
  pub stop_running-Leads :
      Leads (Guarded e u r) (Ready e u r) (λ _. (Ready e u r)) (stop_running e u)
  unfolding stop_running hooked
  stop_running-Leads = (Ready-Leads e u r g readable) _ λ s n.
      if-Leads _ u.was_running _ _
        (λ _.
          >>-Leads _ ((With e u r) s u.old_target) _ _
            ((step e u r g readable) _ (attempt_as-Quiet _) s n)
            (>>-Leads _
              ((With e u r) (stamped e (record s { phase = codes "stopping-service" }))
                u.old_target)
              _ _
              ((checkpoint-old e u r g readable) s
                (λ r. record r { phase = codes "stopping-service" }) n (phased s _ is_stopping n))
              ((to-Ready e u r g readable) _ (phased s _ is_stopping n) _
                ((step e u r g readable) _ (attempt_as-Quiet _) _ (phased s _ is_stopping n)))))
        (λ _. (to-Ready e u r g readable) s n _ (pure-Leads _ _ λ a p. p))

  pub refuse-Leads :
      (s : RecoveryRecord)
      → Written e u r s
      → Leads
          (Guarded e u r)
          ((With e u r) s u.old_target)
          (λ _. (With e u r) s u.old_target)
          (refuse_existing e u)
  unfolding exists
  refuse-Leads s n = record {
    leads = λ w p.
        (if-Leads (Guarded e u r) {P = (With e u r) s u.old_target} (exists u.final_dir w.files) _ _
            (λ _. fail-Leads _ _ ((old-Guarded e u r g readable) s n))
            (λ _. pure-Leads _ _ λ a q. q)).leads
          w p;
  }

  pub rename-With :
      (s : RecoveryRecord) (a : Files)
      → (With e u r) s u.old_target a
      → (With e u r) s u.old_target (rename_tree u.extracted_dir u.final_dir a)
  rename-With s a ((text, there, decodes), p) = (
    (
      text,
      lookup-rename_tree u.extracted_dir u.final_dir e.path a g.record_outside.1 g.record_outside.2
          ∙ there,
      decodes,
    ),
    lookup-rename_tree u.extracted_dir u.final_dir u.pointer a g.pointer_outside.1
          g.pointer_outside.2
        ∙ p,
  )

  pub install-Leads : Leads (Guarded e u r) (Ready e u r) (λ _. (Named e u r)) (install e u)
  unfolding install hooked
  install-Leads = (Ready-Leads e u r g readable) _ λ s n.
      let o = u.old_target in
      let s' = stamped e (installing e u s) in
      let n' = installed s n in
      >>-Leads _ ((With e u r) s o) _ _ ((step e u r g readable) _ (attempt_as-Quiet _) s n) (
        >>-Leads _ ((With e u r) s o) _ _ (refuse-Leads s n) (
          >>-Leads _ ((With e u r) s o) _ _ ((step e u r g readable) _ (attempt_as-Quiet _) s n) (
            >>-Leads _ ((With e u r) s o) _ _ ((step e u r g readable) _ (attempt_as-Quiet _) s n) (
              >>-Leads _ ((With e u r) s' o) _ _
                ((checkpoint-old e u r g readable) s (installing e u) n n')
                (>>-Leads _ ((With e u r) s' o) _ _
                  ((step e u r g readable) _ (attempt_as-Quiet _) s' n')
                  (record { leads = λ w p. (s', n', refl, rename-With s' w.files p) }))))))

  pub put-Stored :
      (s : RecoveryRecord) (y : Bytes) (a : Files)
      → Stored e s a
      → Stored e s (insert u.pointer y a)
  put-Stored s y a (text, there, decodes) =
      (text, lookup-insert u.pointer e.path y a ∙ rw apart there, decodes)
    where
      apart : bytes_eq u.pointer e.path ≡ false
      apart = bytes_eq_symm e.path u.pointer g.record_apart

  pub put_selected : (y : Bytes) (a : Files) → At u.pointer (some y) (insert u.pointer y a)
  put_selected y a = lookup-insert u.pointer u.pointer y a ∙ rw (bytes_eq_refl u.pointer)

  pub put-With :
      (s : RecoveryRecord) (x y : Bytes)
      → Leads (Guarded e u r) ((With e u r) s x) (λ _. (With e u r) s y) (put u.pointer y)
  put-With s x y = put-Leads _ _ _ λ a p. (put-Stored s y a p.0, put_selected y a)

  pub swap-Quiet : Quiet (unless_complete place_symlink remove_temporary)
  unfolding place_symlink
  swap-Quiet = staged-Quiet _ (>>-Quiet _ _ attempt_plain-Quiet attempt_plain-Quiet)

  pub select-Leads : Leads (Guarded e u r) (Named e u r) (λ _. (Switched e u r)) (select e u)
  unfolding select hooked swap_pointer
  select-Leads = record { leads = λ w (s, n, names, p). (each s n names).leads w p }
    where
      each :
          (s : RecoveryRecord)
          → Written e u r s
          → s.new_target ≡ u.final_dir
          → Leads (Guarded e u r) ((With e u r) s u.old_target) (λ _. (Switched e u r)) (select e u)
      each s n names =
          let o = u.old_target in
          let s' = stamped e (record s { phase = codes "switching-pointer" }) in
          let n' = phased s _ is_switching n in
          >>-Leads _ ((With e u r) s o) _ _ ((step e u r g readable) _ (attempt_as-Quiet _) s n) (
            >>-Leads _ ((With e u r) s' o) _ _
              ((checkpoint-old e u r g readable) s
                (λ r. record r { phase = codes "switching-pointer" }) n n')
              (map_error-Leads _ _ (
                >>-Leads _ ((With e u r) s' o) _ _
                  ((step e u r g readable) _ attempt_plain-Quiet s' n')
                  (>>-Leads _ ((With e u r) s' o) _ _ ((step e u r g readable) _ swap-Quiet s' n') (
                    >>-Leads _ ((With e u r) s' u.final_dir) _ _ (put-With s' o u.final_dir) (
                      to-Leads _ (λ a p. p) (λ _ a p. (s', n', names, p))
                        ((step-new e u r g readable) _ attempt_plain-Quiet s' n' names)))))))
