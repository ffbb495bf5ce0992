-- ===== src/Fs/Frame.antt =====
-- What the writes of internal/adapter/fs/secure.go do to the files, whichever calls fail.
use pmux.Base.{ℕ, Option, none, some, [], Bytes, take}
use pmux.Base.Assoc.{lookup}
use pmux.Pmuxerr.{ok, err, Err}
use pmux.State.Disk.{M, put, discard, call}
use pmux.State.Frame.{
  Files, Keeps, >>=-Keeps, >>-Keeps, lift-Keeps, call-Keeps, attempt-Keeps, unless_complete-Keeps,
  remove_temporary-Keeps, remove_file-Keeps,
}
use pmux.Fs.{
  protect, unless_broken, ensure_private_dir, fill_temporary, atomic_write_private, written,
  fill_private, refuse_existing, write_private_exclusive,
}

module _ (R : Files → Files → Type 0) (R-refl : (a : Files) → R a a)
    (R-trans : (a b c : Files) → R a b → R b c → R a c) where
  abbrev Keeping {ℓ} : {V : Type ℓ} → M V → Type ℓ
  Keeping m = Keeps R R-refl R-trans m

  pub protect-Keeps : Keeping protect
  unfolding protect
  protect-Keeps = >>=-Keeps R R-refl R-trans call unless_broken (call-Keeps R R-refl R-trans) either
    where
      either : (outcome : Option (ℕ × Err)) → Keeps R R-refl R-trans (unless_broken outcome)
      either none = lift-Keeps R R-refl R-trans (ok tt)
      either (some (n, e)) = lift-Keeps R R-refl R-trans (err e)

  pub ensure_private_dir-Keeps : Keeping ensure_private_dir
  unfolding ensure_private_dir
  ensure_private_dir-Keeps =
      >>-Keeps R R-refl R-trans _ _ (attempt-Keeps R R-refl R-trans _ _) protect-Keeps

  fill_temporary-Keeps : Keeping fill_temporary
  unfolding fill_temporary
  fill_temporary-Keeps = >>-Keeps R R-refl R-trans _ _ protect-Keeps (
      >>-Keeps R R-refl R-trans _ _ (attempt-Keeps R R-refl R-trans _ _) (
        >>-Keeps R R-refl R-trans _ _ (attempt-Keeps R R-refl R-trans _ _) (
          >>-Keeps R R-refl R-trans _ _ (attempt-Keeps R R-refl R-trans _ _)
            (attempt-Keeps R R-refl R-trans _ _))))

  -- `AtomicWritePrivate` changes no more than one file, and that one in one step.
  pub atomic_write_private-Keeps :
      (path payload : Bytes)
      → Keeping (put path payload)
      → Keeping (atomic_write_private path payload)
  unfolding atomic_write_private
  atomic_write_private-Keeps path payload h =
      >>-Keeps R R-refl R-trans _ _ (attempt-Keeps R R-refl R-trans _ _) (
        >>-Keeps R R-refl R-trans _ _ (attempt-Keeps R R-refl R-trans _ _) (
          >>-Keeps R R-refl R-trans _ _
            (unless_complete-Keeps R R-refl R-trans _ _ fill_temporary-Keeps
              (remove_temporary-Keeps R R-refl R-trans))
            (>>-Keeps R R-refl R-trans _ _ h
              (>>-Keeps R R-refl R-trans _ _ protect-Keeps (attempt-Keeps R R-refl R-trans _ _)))))

  -- So do the parts of `WritePrivateExclusive` behind the creation.
  pub fill_private-Keeps :
      (path payload : Bytes)
      → ((bytes : Bytes) → Keeping (put path bytes))
      → Keeping (fill_private path payload)
  unfolding fill_private
  fill_private-Keeps path payload h = >>-Keeps R R-refl R-trans _ _ protect-Keeps (
      >>-Keeps R R-refl R-trans _ _
        (>>=-Keeps R R-refl R-trans _ _ (call-Keeps R R-refl R-trans) moved)
        (>>-Keeps R R-refl R-trans _ _ (attempt-Keeps R R-refl R-trans _ _) (
          >>-Keeps R R-refl R-trans _ _ (attempt-Keeps R R-refl R-trans _ _)
            (>>-Keeps R R-refl R-trans _ _ protect-Keeps (attempt-Keeps R R-refl R-trans _ _)))))
    where
      moved : (outcome : Option (ℕ × Err)) → Keeps R R-refl R-trans (written path payload outcome)
      moved none = h payload
      moved (some (n, e)) = record { keeps = (h (take n payload)).keeps }

  -- `WritePrivateExclusive` writes and removes one file only.
  pub write_private_exclusive-Keeps :
      (path payload : Bytes)
      → ((bytes : Bytes) → Keeping (put path bytes))
      → Keeping (discard path)
      → Keeping (write_private_exclusive path payload)
  unfolding write_private_exclusive
  write_private_exclusive-Keeps path payload h k =
      >>-Keeps R R-refl R-trans _ _ ensure_private_dir-Keeps (
        >>-Keeps R R-refl R-trans _ _ (attempt-Keeps R R-refl R-trans _ _) (
          >>-Keeps R R-refl R-trans _ _
            (record { keeps = λ w. (created (lookup path w.files)).keeps w })
            (unless_complete-Keeps R R-refl R-trans _ _ (fill_private-Keeps path payload h)
              (remove_file-Keeps R R-refl R-trans path k))))
    where
      created : (old : Option Bytes) → Keeps R R-refl R-trans (refuse_existing path old)
      created none = h []
      created (some old) = lift-Keeps R R-refl R-trans (err _)
