-- ===== src/State/Frame.antt =====
-- What the operations of State/Disk do to the files, whichever calls fail: a relation between the files
-- before and after that holds for each part of an operation holds for the operation.
use pmux.Base.{
  ℕ, Bool, true, false, Option, none, some, List, [], ◌∷◌, Bytes, String, take, drop, ltb, All,
  length, if◌then◌else◌,
}
use pmux.Base.Assoc.{lookup}
use pmux.Pmuxerr.{Result, ok, err, Err, Code, config_unreadable}
use pmux.State.Disk.{
  World, M, ◌>>=◌, ◌>>◌, pure, lift, put, discard, call, attempt, then_run, or_else,
  unless_complete, unless_failed, fill_temporary, remove_temporary, removed_or, left_behind,
  write_bytes, written, remove_file, fill_exclusive, refuse_existing, write_exclusive_private,
  remove_each, prune_listed, document_backup_dir, join, keep,
}

abbrev pub Files : Type 0
Files = List (Bytes × Bytes)

module _ (R : Files → Files → Type 0) (R-refl : (a : Files) → R a a)
    (R-trans : (a b c : Files) → R a b → R b c → R a c) where
  -- An operation takes files to related ones, whichever calls fail.
  pub record Keeps {ℓ} {V : Type ℓ} (m : M V) : Type ℓ where
    pub keeps : (w : World) → R w.files (m w).1.files

  then_run-Keeps {ℓ κ} :
      {V : Type ℓ} {W : Type κ} (f : V → M W) (a : Files) (x : Result V × World)
      → ((v : V) (w : World) → R w.files (f v w).1.files)
      → R a x.1.files
      → R a (then_run f x).1.files
  then_run-Keeps f a (ok v, w) hf h = R-trans a w.files (f v w).1.files h (hf v w)
  then_run-Keeps f a (err e, w) hf h = h

  pub >>=-Keeps {ℓ κ} :
      {V : Type ℓ} {W : Type κ} (m : M V) (f : V → M W)
      → Keeps m
      → ((v : V) → Keeps (f v))
      → Keeps (m >>= f)
  >>=-Keeps m f hm hf = record {
    keeps = λ w. then_run-Keeps f w.files (m w) (λ v. (hf v).keeps) (hm.keeps w);
  }

  pub >>-Keeps {ℓ} : {W : Type ℓ} (m : M (Unit {0})) (n : M W) → Keeps m → Keeps n → Keeps (m >> n)
  >>-Keeps m n hm hn = >>=-Keeps m (λ _. n) hm (λ _. hn)

  pub lift-Keeps {ℓ} : {V : Type ℓ} (r : Result V) → Keeps (lift r)
  lift-Keeps r = record { keeps = λ w. R-refl w.files }

  pub call-Keeps : Keeps call
  unfolding call
  call-Keeps = record { keeps = λ w. R-refl w.files }

  pub attempt-Keeps : (c : Code) (message : String) → Keeps (attempt c message)
  unfolding attempt
  attempt-Keeps c message = >>=-Keeps call (unless_failed c message) call-Keeps checked
    where
      checked : (outcome : Option (ℕ × Err)) → Keeps (unless_failed c message outcome)
      checked none = lift-Keeps (ok tt)
      checked (some (n, e)) = lift-Keeps (err _)

  pub unless_complete-Keeps :
      (body clean : M (Unit {0})) → Keeps body → Keeps clean → Keeps (unless_complete body clean)
  unless_complete-Keeps body clean hb hc = record { keeps = λ w. after w (body w) (hb.keeps w) }
    where
      after :
          (w : World) (x : Result (Unit {0}) × World)
          → R w.files x.1.files
          → R w.files (or_else clean x).1.files
      after w (ok u, w') h = h
      after w (err e, w') h = R-trans w.files w'.files (clean w').1.files h (hc.keeps w')

  pub removed_or-Keeps :
      (clean kept : M (Unit {0}))
      → Keeps clean
      → Keeps kept
      → Keeps (call >>= removed_or clean kept)
  removed_or-Keeps clean kept hc hk = >>=-Keeps call (removed_or clean kept) call-Keeps either
    where
      either : (outcome : Option (ℕ × Err)) → Keeps (removed_or clean kept outcome)
      either none = hc
      either (some failure) = hk

  fill_temporary-Keeps : Keeps fill_temporary
  unfolding fill_temporary
  fill_temporary-Keeps = >>-Keeps _ _ (attempt-Keeps _ _) (
      >>-Keeps _ _ (attempt-Keeps _ _)
        (>>-Keeps _ _ (attempt-Keeps _ _) (>>-Keeps _ _ (attempt-Keeps _ _) (attempt-Keeps _ _))))

  pub remove_temporary-Keeps : Keeps remove_temporary
  unfolding remove_temporary
  remove_temporary-Keeps =
      removed_or-Keeps (pure tt) left_behind (lift-Keeps (ok tt))
        (record { keeps = λ w. R-refl w.files })

  -- `writeBytes` changes no more than one file, and that one in one step.
  pub write_bytes-Keeps :
      (path payload : Bytes) → Keeps (put path payload) → Keeps (write_bytes path payload)
  unfolding write_bytes
  write_bytes-Keeps path payload h = >>-Keeps _ _ (attempt-Keeps _ _) (
      >>-Keeps _ _ (attempt-Keeps _ _) (
        >>-Keeps _ _ (attempt-Keeps _ _) (
          >>-Keeps _ _ (unless_complete-Keeps _ _ fill_temporary-Keeps remove_temporary-Keeps)
            (>>-Keeps _ _ h (attempt-Keeps _ _)))))

  pub remove_file-Keeps : (path : Bytes) → Keeps (discard path) → Keeps (remove_file path)
  unfolding remove_file
  remove_file-Keeps path h = removed_or-Keeps (discard path) (pure tt) h (lift-Keeps (ok tt))

  fill_exclusive-Keeps :
      (path payload : Bytes)
      → ((bytes : Bytes) → Keeps (put path bytes))
      → Keeps (fill_exclusive path payload)
  unfolding fill_exclusive
  fill_exclusive-Keeps path payload h = >>-Keeps _ _ (attempt-Keeps _ _) (
      >>-Keeps _ _ (>>=-Keeps _ _ call-Keeps moved)
        (>>-Keeps _ _ (attempt-Keeps _ _) (>>-Keeps _ _ (attempt-Keeps _ _) (attempt-Keeps _ _))))
    where
      moved : (outcome : Option (ℕ × Err)) → Keeps (written path payload outcome)
      moved none = h payload
      moved (some (n, e)) = record { keeps = (h (take n payload)).keeps }

  -- `writeExclusivePrivate` writes and removes one file only.
  pub write_exclusive_private-Keeps :
      (path payload : Bytes)
      → ((bytes : Bytes) → Keeps (put path bytes))
      → Keeps (discard path)
      → Keeps (write_exclusive_private path payload)
  unfolding write_exclusive_private
  write_exclusive_private-Keeps path payload h k = >>-Keeps _ _ (attempt-Keeps _ _) (
      >>-Keeps _ _ (attempt-Keeps _ _) (
        >>-Keeps _ _ (attempt-Keeps _ _) (
          >>-Keeps _ _ (record { keeps = λ w. (created (lookup path w.files)).keeps w })
            (unless_complete-Keeps _ _ (fill_exclusive-Keeps path payload h)
              (remove_file-Keeps path k)))))
    where
      created : (old : Option Bytes) → Keeps (refuse_existing path old)
      created none = h []
      created (some old) = lift-Keeps (err _)

  pub remove_each-Keeps :
      (dir : Bytes) (names : List Bytes)
      → All (λ name. Keeps (discard (join dir name))) names
      → Keeps (remove_each dir names)
  unfolding remove_each
  remove_each-Keeps dir [] h = lift-Keeps (ok tt)
  remove_each-Keeps dir (name ∷ names) h =
      >>-Keeps _ _ (attempt-Keeps _ _) (>>-Keeps _ _ h.0 (remove_each-Keeps dir names h.1))

  -- `pruneDocumentBackups` behind its listing removes the listed files only.
  pub prune_listed-Keeps :
      (path : Bytes) (names : List Bytes)
      → All (λ name. Keeps (discard (join (document_backup_dir path) name))) (drop keep names)
      → Keeps (prune_listed path names)
  unfolding prune_listed
  prune_listed-Keeps path names h =
      >>-Keeps _ _ (remove_each-Keeps (document_backup_dir path) (drop keep names) h)
        (flushed (ltb keep (length names)))
    where
      flushed :
          (many : Bool)
          → Keeps (
              if many
              then attempt config_unreadable "could not flush PMux state backup retention"
              else pure tt)
      flushed true = attempt-Keeps _ _
      flushed false = lift-Keeps (ok tt)
