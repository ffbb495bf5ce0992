-- ===== src/Fs/Writing.antt =====
-- `AtomicWritePrivate` and `WritePrivateExclusive`, whichever calls fail.
use pmux.Base.{◌≡◌, ◌≢◌, refl, ◌∙◌, false, some, Bytes, bytes_eq, ◌⊎◌, inl, inr}
use pmux.Base.Assoc.{lookup}
use pmux.Pmuxerr.{Result, ok, err, config_unreadable}
use pmux.State.Disk.{World, ◌>>◌, attempt, unless_complete, remove_temporary}
use pmux.State.Frame.{Files, Keeps, >>-Keeps, attempt-Keeps}
use pmux.State.Saving.{Same, Same-refl, Same-trans, put-Leaves}
use pmux.State.Atomic.{Becomes, Becomes-trans, put-Becomes}
use pmux.State.Reading.{Ends, >>-Ends, kept-Ends, put-Ends, Holds}
use pmux.Fs.{protect, fill_temporary, atomic_write_private}
use pmux.Fs.Frame.{protect-Keeps, atomic_write_private-Keeps}

flushed-Keeps :
    (path : Bytes)
    → Keeps
        (Same path)
        (Same-refl path)
        (Same-trans path)
        (protect >> attempt config_unreadable "could not flush private directory")
flushed-Keeps path =
    >>-Keeps (Same path) (Same-refl path) (Same-trans path) _ _
      (protect-Keeps (Same path) (Same-refl path) (Same-trans path))
      (attempt-Keeps (Same path) (Same-refl path) (Same-trans path) _ _)

atomic_write_private-Ends :
    (path payload : Bytes) → Ends (Holds path payload) (atomic_write_private path payload)
unfolding atomic_write_private
atomic_write_private-Ends path payload =
    >>-Ends _ (attempt config_unreadable "could not create target directory") _ (
      >>-Ends _ (attempt config_unreadable "could not create private temporary file") _ (
        >>-Ends _ (unless_complete fill_temporary remove_temporary) _ (
          kept-Ends _ _ (protect >> attempt config_unreadable "could not flush private directory")
            (put-Ends path payload) λ w same. (flushed-Keeps path).keeps w ∙ same)))

-- The file at a path behind an atomic write: it fails and the file stays, or the payload is there.
abbrev pub Replaced : Bytes → Bytes → Files → Result (Unit {0}) × World → Type 0
Replaced path payload before (r, w) =
    (((r ≢ ok tt) × (lookup path w.files ≡ lookup path before))
      ⊎ (lookup path w.files ≡ some payload))
    × ((q : Bytes) → bytes_eq path q ≡ false → lookup q w.files ≡ lookup q before)

-- AtomicWritePrivate, whichever calls fail, returns an error and leaves the file at the path, or the
-- file is the payload as a whole; success means the latter; and every other file is as it was.
pub atomic_write_private-Replaced :
    (path payload : Bytes) (w : World)
    → Replaced path payload w.files (atomic_write_private path payload w)
atomic_write_private-Replaced path payload w = (
  whole (atomic_write_private path payload w) ((atomic_write_private-Ends path payload).ends w) (
      (atomic_write_private-Keeps (Becomes path payload) (λ x. inl refl)
          (Becomes-trans path payload) path payload (put-Becomes path payload)).keeps
        w),
  λ q h.
      (atomic_write_private-Keeps (Same q) (Same-refl q) (Same-trans q) path payload
          (put-Leaves path q payload h)).keeps
        w,
)
  where
    whole :
        (x : Result (Unit {0}) × World)
        → (x.0 ≡ ok tt → lookup path x.1.files ≡ some payload)
        → Becomes path payload w.files x.1.files
        → ((x.0 ≢ ok tt) × (lookup path x.1.files ≡ lookup path w.files))
          ⊎ (lookup path x.1.files ≡ some payload)
    whole x ends (inr new) = inr new
    whole (ok u, w') ends (inl same) = inr (ends refl)
    whole (err e, w') ends (inl same) = inl (λ h. cc, same)
