-- ===== src/State/Usable.antt =====
-- What `latestValidBackup`, `preserveCorrupt` and `writeBytes` do where no call fails.
use pmux.Base.{
  ℕ, ◌≡◌, refl, ap, false, Option, none, some, List, [], ◌∷◌, Bytes, All, bytes_lt, bytes_lt_irrefl,
  inl, inr, ◌⊎◌, Option-cases,
}
use pmux.Base.Assoc.{lookup, insert}
use pmux.Pmuxerr.{Result, ok, err}
use pmux.State.{Outside}
use pmux.State.Disk.{
  Notice, attempt, call, write_bytes, write_exclusive_private, fill_temporary, fill_exclusive,
  document_backup_dir, join,
}
use pmux.State.Store.{
  Document, Decoded, bad, unfinished, value, end_of_text, another, broken, read_file,
  preserve_corrupt, artifact_path, validate_value, validate_bytes, unmarshalled, first_valid,
  usable, found_or, whole,
}
use pmux.State.Frame.{Files}
use pmux.State.Places.{backup_at}
use pmux.State.Newest.{IsDescending}
use pmux.State.Reading.{at_rest}

-- The files with a copy of the corrupt document.
abbrev pub preserved : Outside → Bytes → Bytes → Files → Files
preserved o path payload files =
    insert (artifact_path o path payload) payload (insert (artifact_path o path payload) [] files)

pub preserve_corrupt-at_rest :
    (o : Outside) (path payload : Bytes) (files : Files) (notices : List Notice) (l : ℕ)
    → lookup path files ≡ some payload
    → lookup (artifact_path o path payload) files ≡ none
    → preserve_corrupt o path (at_rest files notices l)
      ≡ (ok (artifact_path o path payload), at_rest (preserved o path payload files) notices l)
unfolding preserve_corrupt read_file
preserve_corrupt-at_rest o path payload files notices l there new =
    rw there (unfold write_exclusive_private in rw new (unfold fill_exclusive attempt call in refl))

pub write_bytes-at_rest :
    (path payload : Bytes) (files : Files) (notices : List Notice) (l : ℕ)
    → write_bytes path payload (at_rest files notices l)
      ≡ (ok tt, at_rest (insert path payload files) notices l)
unfolding write_bytes fill_temporary attempt call
write_bytes-at_rest path payload files notices l = refl

module _ {V : Type 0} (o : Outside) (d : Document V) where
  -- The backup of this name that a recovery may take.
  abbrev pub usable_at : Files → Bytes → Option Bytes
  usable_at files name = usable o d (whole (lookup (backup_at d.path name) files) none)

  abbrev found : Bytes → Option (Bytes × Bytes) → Option Bytes → Option (Bytes × Bytes)
  found name rest none = rest
  found name rest (some payload) = some (payload, backup_at d.path name)

  -- The first usable backup of some names.
  pub first_usable : Files → List Bytes → Option (Bytes × Bytes)
  first_usable files [] = none
  first_usable files (name ∷ names) = found name (first_usable files names) (usable_at files name)

  pub first_valid-at_rest :
      (names : List Bytes) (files : Files) (notices : List Notice) (l : ℕ)
      → first_valid o d names (at_rest files notices l)
        ≡ (ok (first_usable files names), at_rest files notices l)
  unfolding first_valid first_usable call
  first_valid-at_rest [] files notices l = refl
  first_valid-at_rest (name ∷ names) files notices l =
      either (usable_at files name) (first_valid-at_rest names files notices l)
    where
      either :
          (u : Option Bytes)
          → first_valid o d names (at_rest files notices l)
            ≡ (ok (first_usable files names), at_rest files notices l)
          → found_or o d
              (join (document_backup_dir d.path) name)
              (first_valid o d names)
              u
              (at_rest files notices l)
            ≡ (ok (found name (first_usable files names) u), at_rest files notices l)
      either none e = e
      either (some payload) e = refl

  -- The greatest name of a usable backup, with its bytes, or that there is none.
  pub data Newest (files : Files) (names : List Bytes) : Option (Bytes × Bytes) → Type 0 where
    no_backup : All (λ n. usable_at files n ≡ none) names → Newest files names none
    newest :
        (name payload : Bytes)
        → usable_at files name ≡ some payload
        → All (λ n. (usable_at files n ≡ none) ⊎ (bytes_lt name n ≡ false)) names
        → Newest files names (some (payload, backup_at d.path name))

  behind :
      (files : Files) (name : Bytes) (names : List Bytes) (r : Option (Bytes × Bytes))
      → usable_at files name ≡ none
      → Newest files names r
      → Newest files (name ∷ names) r
  behind files name names r e (no_backup all) = no_backup (e, all)
  behind files name names r e (newest n payload u all) = newest n payload u (inl e, all)

  smaller :
      (files : Files) (name : Bytes) (names : List Bytes)
      → All (λ n. bytes_lt name n ≡ false) names
      → All (λ n. (usable_at files n ≡ none) ⊎ (bytes_lt name n ≡ false)) names
  smaller files name [] h = tt
  smaller files name (n ∷ names) h = (inr h.0, smaller files name names h.1)

  pub first_usable-Newest :
      (files : Files) (names : List Bytes)
      → IsDescending names
      → Newest files names (first_usable files names)
  unfolding first_usable
  first_usable-Newest files [] h = no_backup tt
  first_usable-Newest files (name ∷ names) h = elim (Option-cases (usable_at files name)) [
    | inl e ↦ rw e (behind files name names _ e (first_usable-Newest files names h.1))
    | inr (payload, e) ↦
        rw e (newest name payload e (inr (bytes_lt_irrefl name), smaller files name names h.0))
  ]

  -- A backup that may be taken is a file that holds a valid value.
  pub usable_at-some :
      (files : Files) (name b : Bytes)
      → usable_at files name ≡ some b
      → (lookup (backup_at d.path name) files ≡ some b)
        × ((v : V) × (d.codec.decode d.zero_value b ≡ value v end_of_text)
            × (validate_value o d (ok v) ≡ ok tt))
  usable_at-some files name b h = there (lookup (backup_at d.path name) files) h
    where
      one_value :
          (x : Decoded V)
          → validate_value o d (unmarshalled x) ≡ ok tt
          → (v : V) × (x ≡ value v end_of_text) × (validate_value o d (ok v) ≡ ok tt)
      one_value (bad e) h = unfold validate_value in cc
      one_value unfinished h = unfold validate_value in cc
      one_value (value v end_of_text) h = (v, refl, h)
      one_value (value v another) h = unfold validate_value in cc
      one_value (value v (broken e)) h = unfold validate_value in cc

      accepted :
          (payload : Bytes) (r : Result (Unit {0}))
          → validate_bytes o d payload ≡ r
          → (elim r [ err e ↦ none | ok u ↦ some payload ]) ≡ some b
          → (payload ≡ b) × (validate_bytes o d payload ≡ ok tt)
      accepted payload (ok u) e h = (cc, e)
      accepted payload (err x) e h = cc

      there :
          (content : Option Bytes)
          → usable o d (whole content none) ≡ some b
          → (content ≡ some b)
            × ((v : V) × (d.codec.decode d.zero_value b ≡ value v end_of_text)
                × (validate_value o d (ok v) ≡ ok tt))
      there none h = cc
      there (some payload) h =
          let (same, valid) = accepted payload (validate_bytes o d payload) refl h in
          (
            ap some same,
            rw (← same)
                (unfold validate_bytes in one_value (d.codec.decode d.zero_value payload) valid),
          )
