-- ===== src/Fs/Creating.antt =====
-- `WritePrivateExclusive`, whichever calls fail.
use pmux.Base.{
  ℕ, ◌≡◌, ◌≢◌, refl, sym, ◌∙◌, false, Option, none, some, [], Bytes, bytes_eq, ◌⊎◌, inl, inr,
}
use pmux.Base.Assoc.{lookup}
use pmux.Pmuxerr.{Result, ok, err, Err, config_unreadable}
use pmux.State.Disk.{
  World, M, ◌>>=◌, ◌>>◌, put, then_run, or_else, attempt, call, unless_complete, remove_file,
}
use pmux.State.Frame.{Files, Keeps, >>-Keeps, attempt-Keeps}
use pmux.State.Saving.{Same, Same-refl, Same-trans, put-Leaves, discard-Leaves}
use pmux.State.Reading.{Ends, >>-Ends, kept-Ends, put-Ends, Holds}
use pmux.Fs.{
  protect, ensure_private_dir, written, fill_private, refuse_existing, create_private,
  write_private_exclusive,
}
use pmux.Fs.Frame.{protect-Keeps, ensure_private_dir-Keeps, write_private_exclusive-Keeps}

module _ (path payload : Bytes) where
  moved-Ends : Ends (Holds path payload) (call >>= written path payload)
  moved-Ends = record { ends = λ w. after (call w) }
    where
      after :
          (x : Result (Option (ℕ × Err)) × World)
          → (then_run (written path payload) x).0 ≡ ok tt
          → Holds path payload (then_run (written path payload) x).1.files
      after (ok none, w) h = (put-Ends path payload).ends w h
      after (ok (some (n, e)), w) h = cc
      after (err e, w) h = cc

  flushes : M (Unit {0})
  flushes =
      attempt config_unreadable "could not flush private file"
      >> (attempt config_unreadable "could not close private file"
          >> (protect >> attempt config_unreadable "could not flush private directory"))

  flushes-Keeps : Keeps (Same path) (Same-refl path) (Same-trans path) flushes
  unfolding flushes
  flushes-Keeps =
      >>-Keeps (Same path) (Same-refl path) (Same-trans path) _ _
        (attempt-Keeps (Same path) (Same-refl path) (Same-trans path) _ _)
        (>>-Keeps (Same path) (Same-refl path) (Same-trans path) _ _
          (attempt-Keeps (Same path) (Same-refl path) (Same-trans path) _ _)
          (>>-Keeps (Same path) (Same-refl path) (Same-trans path) _ _
            (protect-Keeps (Same path) (Same-refl path) (Same-trans path))
            (attempt-Keeps (Same path) (Same-refl path) (Same-trans path) _ _)))

  fill_private-Ends : Ends (Holds path payload) (fill_private path payload)
  unfolding fill_private flushes
  fill_private-Ends =
      >>-Ends _ protect _ (kept-Ends _ _ flushes moved-Ends λ w same. flushes-Keeps.keeps w ∙ same)

  completed-Ends :
      Ends (Holds path payload) (unless_complete (fill_private path payload) (remove_file path))
  completed-Ends = record {
    ends = λ w. after (fill_private path payload w) (fill_private-Ends.ends w);
  }
    where
      after :
          (x : Result (Unit {0}) × World)
          → (x.0 ≡ ok tt → Holds path payload x.1.files)
          → (or_else (remove_file path) x).0 ≡ ok tt
          → Holds path payload (or_else (remove_file path) x).1.files
      after (ok u, w) ends h = ends refl
      after (err e, w) ends h = cc

  -- The file at the path behind a creation, and the other files.
  abbrev pub Created : Files → Result (Unit {0}) × World → Type 0
  Created before (r, w) =
      (((r ≢ ok tt) × ((lookup path w.files ≡ lookup path before) ⊎ (lookup path before ≡ none)))
        ⊎ ((lookup path before ≡ none) × (lookup path w.files ≡ some payload)))
      × ((q : Bytes) → bytes_eq path q ≡ false → lookup q w.files ≡ lookup q before)

  abbrev Outcome : Files → Result (Unit {0}) × World → Type 0
  Outcome before (r, w) =
      ((r ≢ ok tt) × ((lookup path w.files ≡ lookup path before) ⊎ (lookup path before ≡ none)))
      ⊎ ((lookup path before ≡ none) × (lookup path w.files ≡ some payload))

  failed :
      (before : Files) (e : Err) (w : World) → Same path before w.files → Outcome before (err e, w)
  failed before e w same = inl (λ h. cc, inl same)

  filled :
      (before : Files) (x : Result (Unit {0}) × World)
      → lookup path before ≡ none
      → (x.0 ≡ ok tt → Holds path payload x.1.files)
      → Outcome before x
  filled before (ok u, w) new ends = inr (new, ends refl)
  filled before (err e, w) new ends = inl (λ h. cc, inr new)

  begun :
      (before : Files) (w : World) (old : Option Bytes)
      → Same path before w.files
      → lookup path w.files ≡ old
      → Outcome before (
          then_run
            (λ _. unless_complete (fill_private path payload) (remove_file path))
            (refuse_existing path old w))
  begun before w (some old) same e = failed before _ w same
  begun before w none same e =
      filled before
        (unless_complete (fill_private path payload) (remove_file path) (put path [] w).1)
        (sym same ∙ e) (completed-Ends.ends (put path [] w).1)

  opened :
      (before : Files) (x : Result (Unit {0}) × World)
      → Same path before x.1.files
      → Outcome before (
          then_run
            (λ _.
              create_private path >> unless_complete (fill_private path payload) (remove_file path))
            x)
  opened before (ok u, w) same = begun before w (lookup path w.files) same refl
  opened before (err e, w) same = failed before e w same

  prepared :
      (before : Files) (x : Result (Unit {0}) × World)
      → Same path before x.1.files
      → Outcome before (
          then_run
            (λ _.
              attempt config_unreadable "could not create private file"
              >> (create_private path
                  >> unless_complete (fill_private path payload) (remove_file path)))
            x)
  prepared before (err e, w) same = failed before e w same
  prepared before (ok u, w) same =
      opened before (attempt config_unreadable "could not create private file" w) (
        (attempt-Keeps (Same path) (Same-refl path) (Same-trans path) config_unreadable
            "could not create private file").keeps
          w
        ∙ same)

  -- WritePrivateExclusive, whichever calls fail, returns an error, and then the file at the path is as it
  -- was, or was missing; or the file was missing before and is now the payload as a whole; success means
  -- the latter. So it never overwrites. Every other file is as it was.
  pub write_private_exclusive-Created :
      (w : World) → Created w.files (write_private_exclusive path payload w)
  unfolding write_private_exclusive
  write_private_exclusive-Created w = (
    prepared w.files (ensure_private_dir w)
        ((ensure_private_dir-Keeps (Same path) (Same-refl path) (Same-trans path)).keeps w),
    λ q h.
        (write_private_exclusive-Keeps (Same q) (Same-refl q) (Same-trans q) path payload
            (λ b. put-Leaves path q b h) (discard-Leaves path q h)).keeps
          w,
  )
