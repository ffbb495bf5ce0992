-- ===== src/Updater/Keeping.antt =====
-- What keeps the record and the pointer of an update.
use pmux.Base.{
  ℕ, ◌≡◌, inl, inr, ◌∙◌, Bool, true, false, Option, none, some, Bytes, length, if◌then◌else◌,
}
use pmux.Pmuxerr.{Result, ok, err, Err}
use pmux.State.Disk.{World, M, ◌>>=◌, pure, call, unless_complete, or_else}
use pmux.State.Frame.{Files, >>=-Keeps, call-Keeps, lift-Keeps}
use pmux.Updater.{RecoveryRecord, Engine, is_in, remove_some, remove_all, remove_outcome}
use pmux.Updater.Recover.{stamped, checkpoint}
use pmux.Updater.Stages.{Update, unless_failed_as, attempt_as, map_error, ignoring}
use pmux.Updater.Proxy.{resume, remove_and_resume}
use pmux.Updater.Recording.{IsReadable, Noted, checkpoint-Leads}
use pmux.Updater.Finishing.{lookup-remove_some}
use pmux.Updater.Written.{Phase, Written, phased, IsPrepared, written-Alike}
use pmux.Updater.Triples.{Outcome, Quiet, Leads, Quiet-Leads, to-Leads}
use pmux.Updater.Guards.{Guarded, With, Agree, Agrees, Ready}

pub attempt_as-Quiet : (f : Err → Err) → Quiet (attempt_as f)
unfolding attempt_as
attempt_as-Quiet f = >>=-Keeps _ _ _ call (unless_failed_as f) (call-Keeps _ _ _) checked
  where
    checked : (outcome : Option (ℕ × Err)) → Quiet (unless_failed_as f outcome)
    checked none = lift-Keeps _ _ _ (ok tt)
    checked (some (n, e)) = lift-Keeps _ _ _ (err (f e))

pub map_error-Leads :
    {E P Q : Files → Type 0} (f : Err → Err) (m : M (Unit {0}))
    → Leads E P (λ _. Q) m
    → Leads E P (λ _. Q) (λ w. map_error f (m w))
map_error-Leads {E} {Q} f m h = record { leads = λ w p. each (m w) (h.leads w p) }
  where
    each :
        (x : Result (Unit {0}) × World) → Outcome (λ _. Q) E x → Outcome (λ _. Q) E (map_error f x)
    each (ok v, w) p = p
    each (err e, w) p = p

-- A part whose errors are cleaned up.
pub unless_complete-Leads :
    {E F P Q : Files → Type 0} (body clean : M (Unit {0}))
    → Leads E P (λ _. Q) body
    → ((w : World) → E w.files → F (clean w).1.files)
    → Leads F P (λ _. Q) (unless_complete body clean)
unless_complete-Leads {E} {F} {P} {Q} body clean h k = record {
  leads = λ w p. each (body w) (h.leads w p);
}
  where
    each :
        (x : Result (Unit {0}) × World)
        → Outcome (λ _. Q) E x
        → Outcome (λ _. Q) F (or_else clean x)
    each (ok v, w) p = p
    each (err f, w) p = k w p

module _ (e : Engine) (u : Update) (r : RecoveryRecord) (g : IsPrepared e u r)
    (readable : (s : RecoveryRecord) → Written e u r s → IsReadable e s) where
  pub old-Guarded :
      (s : RecoveryRecord)
      → Written e u r s
      → (a : Files) → (With e u r) s u.old_target a
      → (Guarded e u r) a
  old-Guarded s w a p = (s, w, p.0, inl p.1)

  pub new-Guarded :
      (s : RecoveryRecord)
      → Written e u r s
      → s.new_target ≡ u.final_dir
      → (a : Files) → (With e u r) s u.final_dir a
      → (Guarded e u r) a
  new-Guarded s w n a p = (s, w, p.0, inr (p.1, n))

  -- A checkpoint with the old target selected.
  pub checkpoint-old :
      (s : RecoveryRecord) (change : RecoveryRecord → RecoveryRecord)
      → Written e u r s
      → Written e u r (stamped e (change s))
      → Leads
          (Guarded e u r)
          ((With e u r) s u.old_target)
          (λ _. (With e u r) (stamped e (change s)) u.old_target)
          (checkpoint e change)
  checkpoint-old s change w n =
      to-Leads _ errors (λ _ a p. (p.1, p.0))
        (checkpoint-Leads e s u.pointer change (written-Alike e u r g s w).supported g.record_apart
          (readable _ n) (some u.old_target))
    where
      errors : (a : Files) → Noted e s u.pointer change (some u.old_target) a → (Guarded e u r) a
      errors a (p, inl q) = (s, w, q, inl p)
      errors a (p, inr q) = (stamped e (change s), n, q, inl p)

  -- A checkpoint with the new target selected.
  pub checkpoint-new :
      (s : RecoveryRecord) (p : Bytes)
      → Phase p
      → Written e u r s
      → s.new_target ≡ u.final_dir
      → Leads
          (Guarded e u r)
          ((With e u r) s u.final_dir)
          (λ _. (With e u r) (stamped e (record s { phase = p })) u.final_dir)
          (checkpoint e (λ r. record r { phase = p }))
  checkpoint-new s p h w n =
      to-Leads _ errors (λ _ a q. (q.1, q.0))
        (checkpoint-Leads e s u.pointer (λ r. record r { phase = p })
          (written-Alike e u r g s w).supported g.record_apart (readable _ (phased s p h w))
          (some u.final_dir))
    where
      errors :
          (a : Files)
          → Noted e s u.pointer (λ r. record r { phase = p }) (some u.final_dir) a
          → (Guarded e u r) a
      errors a (q, inl stored) = (s, w, stored, inr (q, n))
      errors a (q, inr stored) = (_, phased s p h w, stored, inr (q, n))

  pub Guarded-Agree : (a b : Files) → (Agree e u r) a b → (Guarded e u r) a → (Guarded e u r) b
  Guarded-Agree a b (p, q) (s, w, (text, there, decodes), inl old) =
      (s, w, (text, p ∙ there, decodes), inl (q ∙ old))
  Guarded-Agree a b (p, q) (s, w, (text, there, decodes), inr (new, n)) =
      (s, w, (text, p ∙ there, decodes), inr (q ∙ new, n))

  -- The removal of a directory of the update.
  pub remove_all-Agrees :
      (dir : Bytes)
      → is_in dir u.pointer ≡ false
      → is_in dir e.path ≡ false
      → (Agrees e u r) (remove_all dir)
  unfolding remove_all
  remove_all-Agrees dir h k =
      >>=-Keeps (Agree e u r) _ _ call (remove_outcome dir) (call-Keeps (Agree e u r) _ _) each
    where
      gone : (n : ℕ) (a : Files) → (Agree e u r) a (remove_some n dir a)
      gone n a = (lookup-remove_some n dir e.path a k, lookup-remove_some n dir u.pointer a h)

      each : (outcome : Option (ℕ × Err)) → (Agrees e u r) (remove_outcome dir outcome)
      each none = record { keeps = λ w. gone (length w.files) w.files }
      each (some (n, f)) = record { keeps = λ w. gone n w.files }

  pub ignoring-Agrees : (m : M (Unit {0})) → (Agrees e u r) m → (Agrees e u r) (ignoring m)
  ignoring-Agrees m h = record { keeps = h.keeps }

  pub resume-Agrees : (Agrees e u r) (resume e u)
  unfolding resume
  resume-Agrees = either u.was_running
    where
      either : (b : Bool) → Agrees {0} e u r (if b then (call >>= λ ignored. pure tt) else pure tt)
      either true =
          >>=-Keeps (Agree e u r) _ _ call _ (call-Keeps (Agree e u r) _ _)
            λ o. lift-Keeps (Agree e u r) _ _ (ok tt)
      either false = lift-Keeps (Agree e u r) _ _ (ok tt)

  pub remove_and_resume-Agrees : (Agrees e u r) (remove_and_resume e u)
  unfolding remove_and_resume
  remove_and_resume-Agrees =
      >>=-Keeps (Agree e u r) _ _ _ _
        (ignoring-Agrees _ (remove_all-Agrees u.final_dir g.pointer_outside.2 g.record_outside.2))
        λ o. resume-Agrees

  -- A step that changes no file.
  pub step :
      (m : M (Unit {0}))
      → Quiet m
      → (s : RecoveryRecord) → Written e u r s
      → Leads (Guarded e u r) ((With e u r) s u.old_target) (λ _. (With e u r) s u.old_target) m
  step m q s w = Quiet-Leads (Guarded e u r) m q (old-Guarded s w)

  pub step-new :
      (m : M (Unit {0}))
      → Quiet m
      → (s : RecoveryRecord) → Written e u r s
      → s.new_target ≡ u.final_dir
      → Leads (Guarded e u r) ((With e u r) s u.final_dir) (λ _. (With e u r) s u.final_dir) m
  step-new m q s w n = Quiet-Leads (Guarded e u r) m q (new-Guarded s w n)

  pub Ready-Leads :
      {Q : Files → Type 0} (m : M (Unit {0}))
      → ((s : RecoveryRecord)
          → Written e u r s
          → Leads (Guarded e u r) ((With e u r) s u.old_target) (λ _. Q) m)
      → Leads (Guarded e u r) (Ready e u r) (λ _. Q) m
  Ready-Leads m h = record { leads = λ w (s, n, p). (h s n).leads w p }

  pub to-Ready :
      (s : RecoveryRecord)
      → Written e u r s
      → (m : M (Unit {0})) → {P : Files → Type 0}
      → Leads (Guarded e u r) P (λ _. (With e u r) s u.old_target) m
      → Leads (Guarded e u r) P (λ _. (Ready e u r)) m
  to-Ready s n m = to-Leads m (λ a p. p) (λ _ a p. (s, n, p))
