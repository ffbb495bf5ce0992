-- ===== src/Updater/Rolling.antt =====
-- The verification of the new version, and the rollback.
use pmux.Base.{◌≡◌, inl, List, [], ◌∷◌, Bytes, codes}
use pmux.Pmuxerr.{Result, ok, err, Err}
use pmux.State.Disk.{World, M, pure, put}
use pmux.State.Frame.{Files}
use pmux.Updater.{RecoveryRecord, Engine, remove_all, swap_pointer, attempt_plain}
use pmux.Updater.Recover.{checkpoint}
use pmux.Updater.Stages.{Update, ignoring, noted, noting}
use pmux.Updater.Proxy.{
  check_started, check_swapped, rolled_back, rollback_proxy, verify, verify_or_rollback,
  or_rollback,
}
use pmux.Updater.Recording.{IsReadable}
use pmux.Updater.Written.{Phase, is_starting, is_verifying, Written, phased, IsPrepared}
use pmux.Updater.Triples.{
  Outcome, Leads, >>=-Leads, >>-Leads, pure-Leads, fail-Leads, Quiet-Leads, attempt_plain-Leads,
  put-Leads, if-Leads, to-Leads,
}
use pmux.Updater.Guards.{Guarded, With, Switched}
use pmux.Updater.Keeping.{new-Guarded, checkpoint-new, Guarded-Agree, remove_all-Agrees}
use pmux.Updater.Switching.{put-Stored, put_selected, swap-Quiet}

module _ (e : Engine) (u : Update) (r : RecoveryRecord) (g : IsPrepared e u r)
    (readable : (s : RecoveryRecord) → Written e u r s → IsReadable e s) where
  pub Switched-Leads :
      {Q : Files → Type 0} (m : M (Unit {0}))
      → ((s : RecoveryRecord)
          → Written e u r s
          → s.new_target ≡ u.final_dir
          → Leads (Guarded e u r) ((With e u r) s u.final_dir) (λ _. Q) m)
      → Leads (Guarded e u r) (Switched e u r) (λ _. Q) m
  Switched-Leads m h = record { leads = λ w (s, n, names, p). (h s n names).leads w p }

  pub Switched-Guarded : (a : Files) → (Switched e u r) a → (Guarded e u r) a
  Switched-Guarded a (s, n, names, p) = (new-Guarded e u r g readable) s n names a p

  pub plain : Leads (Guarded e u r) (Switched e u r) (λ _. (Switched e u r)) attempt_plain
  plain = attempt_plain-Leads (Guarded e u r) Switched-Guarded

  pub mark-Switched :
      (p : Bytes)
      → Phase p
      → Leads
          (Guarded e u r)
          (Switched e u r)
          (λ _. (Switched e u r))
          (checkpoint e (λ r. record r { phase = p }))
  mark-Switched p h = Switched-Leads _ λ s n names.
      to-Leads _ (λ a q. q) (λ _ a q. (_, phased s p h n, names, q))
        ((checkpoint-new e u r g readable) s p h n names)

  pub verify-Leads : Leads (Guarded e u r) (Switched e u r) (λ _. (Switched e u r)) (verify e u)
  unfolding verify
  verify-Leads = >>-Leads _ (Switched e u r) _ _ plain (
      >>-Leads _ (Switched e u r) _ _ (mark-Switched (codes "starting-service") is_starting) (
        >>-Leads _ (Switched e u r) _ _ plain (
          >>-Leads _ (Switched e u r) _ _ plain (
            >>-Leads _ (Switched e u r) _ _ (mark-Switched (codes "verifying") is_verifying) (
              >>-Leads _ (Switched e u r) _ _ plain (
                >>-Leads _ (Switched e u r) _ _ plain (
                  >>-Leads _ (Switched e u r) _ _ plain (
                    >>-Leads _ (Switched e u r) _ _ plain (
                      >>-Leads _ (Switched e u r) _ _ plain (
                        if-Leads _ u.was_running _ _ (λ _. pure-Leads _ _ λ a p. p)
                          (λ _. plain)))))))))))

  pub noting-Leads :
      (m : M (Unit {0}))
      → Leads (Guarded e u r) (Guarded e u r) (λ _. (Guarded e u r)) m
      → Leads (Guarded e u r) (Guarded e u r) (λ _. (Guarded e u r)) (noting m)
  noting-Leads m h = record { leads = λ w p. each (m w) (h.leads w p) }
    where
      each :
          (x : Result (Unit {0}) × World)
          → Outcome (λ _. (Guarded e u r)) (Guarded e u r) x
          → Outcome (λ _. (Guarded e u r)) (Guarded e u r) (noted x)
      each (ok v, w) p = p
      each (err f, w) p = p

  pub put_back-Leads :
      Leads (Guarded e u r) (Guarded e u r) (λ _. (Guarded e u r)) (put u.pointer u.old_target)
  put_back-Leads = put-Leads _ _ _ λ a (s, n, stored, selects). (
    s,
    n,
    (put-Stored e u r g readable) s u.old_target a stored,
    inl ((put_selected e u r g readable) u.old_target a),
  )

  pub swap_back-Leads :
      Leads
        (Guarded e u r)
        (Guarded e u r)
        (λ _. (Guarded e u r))
        (swap_pointer u.pointer u.old_target)
  unfolding swap_pointer
  swap_back-Leads = >>-Leads _ (Guarded e u r) _ _ (attempt_plain-Leads _ λ a p. p) (
      >>-Leads _ (Guarded e u r) _ _ (Quiet-Leads _ _ (swap-Quiet e u r g readable) λ a p. p)
        (>>-Leads _ (Guarded e u r) _ _ put_back-Leads (attempt_plain-Leads _ λ a p. p)))

  pub pure-Guarded :
      {V : Type 0} (v : V) → Leads (Guarded e u r) (Guarded e u r) (λ _. (Guarded e u r)) (pure v)
  pure-Guarded v = pure-Leads _ v λ a p. p

  pub noting_plain :
      Leads (Guarded e u r) (Guarded e u r) (λ _. (Guarded e u r)) (noting attempt_plain)
  noting_plain = noting-Leads _ (attempt_plain-Leads _ λ a p. p)

  pub check_started-Leads :
      (errors : List Err)
      → Leads (Guarded e u r) (Guarded e u r) (λ _. (Guarded e u r)) (check_started e u errors)
  unfolding check_started
  check_started-Leads [] =
      >>=-Leads _ (λ _. (Guarded e u r)) _ _ noting_plain
        λ a. >>=-Leads _ (λ _. (Guarded e u r)) _ _ noting_plain λ b. pure-Guarded _
  check_started-Leads (f ∷ rest) = pure-Guarded _

  pub check_swapped-Leads :
      (errors : List Err)
      → Leads (Guarded e u r) (Guarded e u r) (λ _. (Guarded e u r)) (check_swapped e u errors)
  unfolding check_swapped
  check_swapped-Leads [] =
      >>=-Leads _ (λ _. (Guarded e u r)) _ _
        (>>=-Leads _ (λ _. (Guarded e u r)) _ _ noting_plain check_started-Leads)
        λ a.
          >>=-Leads _ (λ _. (Guarded e u r)) _ _
            (if-Leads _ u.was_running _ _ (λ _. pure-Guarded _) (λ _. noting_plain))
            λ b. pure-Guarded _
  check_swapped-Leads (f ∷ rest) = pure-Guarded _

  pub ignored_removal :
      Leads
        (Guarded e u r)
        (Guarded e u r)
        (λ _. (Guarded e u r))
        (ignoring (remove_all u.final_dir))
  ignored_removal = record {
    leads = λ w p.
        (Guarded-Agree e u r g readable) w.files (remove_all u.final_dir w).1.files
          (((remove_all-Agrees e u r g readable) u.final_dir g.pointer_outside.2
              g.record_outside.2).keeps
            w)
          p;
  }

  pub rolled_back-Leads :
      {Q : Files → Type 0} (cause : Err) (errors : List Err)
      → Leads (Guarded e u r) (Guarded e u r) (λ _. Q) (rolled_back e u cause errors)
  unfolding rolled_back
  rolled_back-Leads cause [] =
      >>-Leads _ (Guarded e u r) _ _ ignored_removal (fail-Leads _ _ λ a p. p)
  rolled_back-Leads cause (f ∷ rest) = fail-Leads _ _ λ a p. p

  pub rollback-Leads :
      {Q : Files → Type 0} (cause : Err)
      → Leads (Guarded e u r) (Guarded e u r) (λ _. Q) (rollback_proxy e u cause)
  unfolding rollback_proxy
  rollback-Leads cause =
      >>=-Leads _ (λ _. (Guarded e u r)) _ _ noting_plain
        λ a.
          >>=-Leads _ (λ _. (Guarded e u r)) _ _
            (>>=-Leads _ (λ _. (Guarded e u r)) _ _ (noting-Leads _ swap_back-Leads)
              check_swapped-Leads)
            λ b. rolled_back-Leads cause _

  pub verify_or_rollback-Leads :
      Leads (Guarded e u r) (Switched e u r) (λ _. (Switched e u r)) (verify_or_rollback e u)
  unfolding verify_or_rollback
  verify_or_rollback-Leads = record { leads = λ w p. each (verify e u w) (verify-Leads.leads w p) }
    where
      each :
          (x : Result (Unit {0}) × World)
          → Outcome (λ _. (Switched e u r)) (Guarded e u r) x
          → Outcome (λ _. (Switched e u r)) (Guarded e u r) (or_rollback e u x)
      each (ok v, w) p = p
      each (err cause, w) p = (rollback-Leads cause).leads w p
