-- ===== src/Updater/Guards.antt =====
-- What holds of the pointer and of the record while the proxy is updated.
use pmux.Base.{◌≡◌, ◌⊎◌, refl, ◌∙◌, none, some, Bytes}
use pmux.Base.Assoc.{lookup}
use pmux.Pmuxerr.{Result}
use pmux.State.Disk.{World, M}
use pmux.State.Frame.{Files, Keeps}
use pmux.Updater.{RecoveryRecord, Engine}
use pmux.Updater.Stages.{Update}
use pmux.Updater.Recording.{Stored, At}
use pmux.Updater.Written.{Written}
use pmux.Updater.Triples.{Outcome}

module _ (e : Engine) (u : Update) (r : RecoveryRecord) where
  -- One of the two targets is selected, the new one only if the record names it.
  abbrev pub Selects : RecoveryRecord → Files → Type 0
  Selects s a =
      At u.pointer (some u.old_target) a
      ⊎ (At u.pointer (some u.final_dir) a × (s.new_target ≡ u.final_dir))

  -- A record of the update is there with which one of the two targets is selected.
  abbrev pub Guarded : Files → Type 0
  Guarded a = (s : RecoveryRecord) × Written e u r s × Stored e s a × Selects s a

  -- The record is there, and the pointer selects what it is given.
  abbrev pub With : RecoveryRecord → Bytes → Files → Type 0
  With s x a = Stored e s a × At u.pointer (some x) a

  -- The record and the pointer are as they were.
  abbrev pub Agree : Files → Files → Type 0
  Agree a b = (lookup e.path b ≡ lookup e.path a) × (lookup u.pointer b ≡ lookup u.pointer a)

  abbrev pub Agrees {ℓ} : {V : Type ℓ} → M V → Type ℓ
  Agrees m = Keeps Agree (λ a. (refl, refl)) (λ a b c p q. (q.0 ∙ p.0, q.1 ∙ p.1)) m

  -- The service is stopped, whichever record is then there.
  abbrev pub Ready : Files → Type 0
  Ready a = (s : RecoveryRecord) × Written e u r s × With s u.old_target a

  -- The record names the new version, and the old target is selected.
  abbrev pub Named : Files → Type 0
  Named a =
      (s : RecoveryRecord) × Written e u r s × (s.new_target ≡ u.final_dir) × With s u.old_target a

  -- The new version is selected, and the record names it.
  abbrev pub Switched : Files → Type 0
  Switched a =
      (s : RecoveryRecord) × Written e u r s × (s.new_target ≡ u.final_dir) × With s u.final_dir a

  -- The old target is selected, or a record is there to recover it from.
  abbrev pub Failed : Files → Type 0
  Failed a = At u.pointer (some u.old_target) a ⊎ Guarded a

  -- The new version is selected, and no record is left.
  abbrev pub Done : Files → Type 0
  Done a = At u.pointer (some u.final_dir) a × At e.path none a

  -- How an update ends: complete, or with an error and then with the old target selected, or with a
  -- record to recover it from, or complete.
  abbrev pub Ended : Result (Unit {0}) × World → Type 0
  Ended = Outcome (λ _. Done) (λ a. Failed a ⊎ Done a)
