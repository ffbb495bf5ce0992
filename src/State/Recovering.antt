-- ===== src/State/Recovering.antt =====
-- `recoverState` and `recoverConfig` where no call fails: the newest valid backup comes back, and the
-- corrupt document is kept.
use mathlib.Core.Path.{subst}
use pmux.Base.{
  ℕ, ◌≤◌, ◌≡◌, refl, sym, ap, ◌∙◌, true, false, Option, none, some, List, [], ◌∷◌, ◌++◌, Bytes,
  length, All, bytes_eq, bytes_eq_refl, bytes_lt, inl, inr, ◌⊎◌, Option-cases,
}
use pmux.Base.Assoc.{lookup, insert, lookup-insert}
use pmux.Pmuxerr.{Result, ok, err, Err, recovery_needed}
use pmux.State.{Outside}
use pmux.State.Disk.{
  World, Notice, slash, ◌>>=◌, then_run, attempt, call, is_backup_of, list_backups, backup_names,
}
use pmux.State.Store.{
  Document, value, end_of_text, artifact_path, read_limit, validate_value, latest_valid_backup,
  usable, whole, write_raw_json, restore, recover_document, restored_notice,
}
use pmux.State.Frame.{Files}
use pmux.State.Places.{backup_at}
use pmux.State.Artifact.{NoSlash, artifact-ne-backup}
use pmux.State.Newest.{All-mem, mem-backup_names, backup_names-IsDescending}
use pmux.State.Reading.{at_rest, IsFaithful, read_json-at_rest}
use pmux.State.Usable.{
  preserved, preserve_corrupt-at_rest, usable_at, first_usable, first_valid-at_rest, Newest,
  no_backup, newest, first_usable-Newest, usable_at-some,
}

module _ {V : Type 0} (o : Outside) (d : Document V) (check : V → Result (Unit {0})) where
  -- What a recovery gives, and the world behind it, for a corrupt document of these bytes.
  pub data Recovered (payload : Bytes) (cause : Err) (files : Files) (notices : List Notice) (l : ℕ)
      : Result V × World → Type 0 where
    restored :
        (name b : Bytes) (v : V)
        → usable_at o d files name ≡ some b
        → ((n b' : Bytes)
            → NoSlash n
            → is_backup_of d.path n ≡ true
            → usable_at o d files n ≡ some b'
            → bytes_lt name n ≡ false)
        → d.codec.decode d.zero_value b ≡ value v end_of_text
        → validate_value o d (ok v) ≡ ok tt
        → Recovered payload cause files notices l (
          ok v,
          at_rest
              (insert d.path b (preserved o d.path payload files))
              (notices
                ++ restored_notice d.kind (backup_at d.path name) (artifact_path o d.path payload)
                  ∷ [])
              l,
        )
    needed :
        ((n : Bytes) → NoSlash n → is_backup_of d.path n ≡ true → usable_at o d files n ≡ none)
        → Recovered payload cause files notices l (
          err (recovery_needed d.kind (artifact_path o d.path payload) cause),
          at_rest (preserved o d.path payload files) notices l,
        )

  -- No backup is longer than what a reader takes.
  abbrev pub AreSmall : Files → Type 0
  AreSmall files =
      (name b : Bytes) → lookup (backup_at d.path name) files ≡ some b → length b ≤ read_limit

  restore-at_rest :
      (cause : Err) (artifact name b : Bytes) (v : V) (files : Files) (notices : List Notice)
      (l : ℕ)
      → IsFaithful d
      → length b ≤ read_limit
      → d.codec.decode d.zero_value b ≡ value v end_of_text
      → check v ≡ ok tt
      → restore o d check cause artifact (some (b, backup_at d.path name)) (at_rest files notices l)
        ≡ (
          ok v,
          at_rest
              (insert d.path b files)
              (notices ++ restored_notice d.kind (backup_at d.path name) artifact ∷ [])
              l,
        )
  unfolding restore
  restore-at_rest cause artifact name b v files notices l f small one valid =
      unfold write_raw_json in
      rw (f.is_valid v b one) (
        rw
          (read_json-at_rest o d d.zero_value v b (insert d.path b files) notices l
            (lookup-insert d.path d.path b files ∙ rw (bytes_eq_refl d.path)) small one)
          (rw valid))

  usable_at-preserved :
      (rest payload name : Bytes) (files : Files)
      → d.path ≡ slash ∷ rest
      → usable_at o d (preserved o d.path payload files) name ≡ usable_at o d files name
  usable_at-preserved rest payload name files absolute =
      ap (λ (content : Option Bytes). usable o d (whole content none))
        (lookup-insert copy backup payload (insert copy [] files)
          ∙ rw other refl
          ∙ lookup-insert copy backup [] files
          ∙ rw other refl)
    where
      copy : Bytes
      copy = artifact_path o d.path payload

      backup : Bytes
      backup = backup_at d.path name

      other : bytes_eq (artifact_path o d.path payload) (backup_at d.path name) ≡ false
      other = rw absolute (artifact-ne-backup o rest payload name)

  latest-at_rest :
      (files : Files) (notices : List Notice) (l : ℕ)
      → latest_valid_backup o d (at_rest files notices l)
        ≡ (ok (first_usable o d files (backup_names d.path files)), at_rest files notices l)
  unfolding latest_valid_backup list_backups attempt call
  latest-at_rest files notices l =
      first_valid-at_rest o d (backup_names d.path files) files notices l

  -- A usable backup is visited.
  visited :
      (Q : Bytes → Type 0) (rest payload n b : Bytes) (files : Files)
      → d.path ≡ slash ∷ rest
      → All Q (backup_names d.path (preserved o d.path payload files))
      → NoSlash n
      → is_backup_of d.path n ≡ true
      → usable_at o d files n ≡ some b
      → Q n
  visited Q rest payload n b files absolute all plain backup u = All-mem Q n _ all (
      mem-backup_names d.path n b (preserved o d.path payload files) plain backup
        (usable_at-some o d (preserved o d.path payload files) n b
          (usable_at-preserved rest payload n files absolute ∙ u)).0)

  unusable :
      (rest payload n : Bytes) (files : Files)
      → d.path ≡ slash ∷ rest
      → All
          (λ m. usable_at o d (preserved o d.path payload files) m ≡ none)
          (backup_names d.path (preserved o d.path payload files))
      → NoSlash n
      → is_backup_of d.path n ≡ true
      → usable_at o d files n ≡ none
  unusable rest payload n files absolute all plain backup =
      elim (Option-cases (usable_at o d files n)) [
        | inl e ↦ e
        | inr (b, e) ↦
            sym (usable_at-preserved rest payload n files absolute)
            ∙ visited _ rest payload n b files absolute all plain backup e
      ]

  greatest :
      (name n b : Bytes) (files : Files) (x : Option Bytes)
      → x ≡ some b
      → (x ≡ none) ⊎ (bytes_lt name n ≡ false)
      → bytes_lt name n ≡ false
  greatest name n b files x u (inl e) = cc
  greatest name n b files x u (inr e) = e

  finished :
      (rest payload : Bytes) (cause : Err) (files : Files) (notices : List Notice) (l : ℕ)
      (r : Option (Bytes × Bytes))
      → IsFaithful d
      → d.path ≡ slash ∷ rest
      → AreSmall files
      → ((v : V) → validate_value o d (ok v) ≡ ok tt → check v ≡ ok tt)
      → Newest o d
          (preserved o d.path payload files)
          (backup_names d.path (preserved o d.path payload files))
          r
      → Recovered payload cause files notices l (
          restore o d check cause
            (artifact_path o d.path payload)
            r
            (at_rest (preserved o d.path payload files) notices l))
  finished rest payload cause files notices l none f absolute small ends (no_backup all) =
      unfold restore in
      needed λ n plain backup. unusable rest payload n files absolute all plain backup
  finished rest payload cause files notices l (some _) f absolute small ends (newest name b u all) =
      let same = usable_at-preserved rest payload name files absolute in
      let (there, (v, one, valid)) = usable_at-some o d files name b (sym same ∙ u) in
      subst (Recovered payload cause files notices l)
        (sym (
          restore-at_rest cause (artifact_path o d.path payload) name b v
            (preserved o d.path payload files) notices l f (small name b there) one (ends v valid)))
        (restored name b v (sym same ∙ u)
          (λ n b' plain backup u'.
            greatest name n b' files _ (usable_at-preserved rest payload n files absolute ∙ u')
              (visited _ rest payload n b' files absolute all plain backup u'))
          one valid)

  -- A recovery in which no call fails.
  pub recover-Recovered :
      (rest payload : Bytes) (cause : Err) (files : Files) (notices : List Notice) (l : ℕ)
      → IsFaithful d
      → d.path ≡ slash ∷ rest
      → AreSmall files
      → ((v : V) → validate_value o d (ok v) ≡ ok tt → check v ≡ ok tt)
      → lookup d.path files ≡ some payload
      → lookup (artifact_path o d.path payload) files ≡ none
      → Recovered payload cause files notices l
          (recover_document o d check cause (at_rest files notices l))
  recover-Recovered rest payload cause files notices l f absolute small ends there new =
      subst (Recovered payload cause files notices l) (sym steps) (
        finished rest payload cause files notices l _ f absolute small ends
          (first_usable-Newest o d _ _ (backup_names-IsDescending d.path _)))
    where
      steps :
          recover_document o d check cause (at_rest files notices l)
          ≡ restore o d check cause
              (artifact_path o d.path payload)
              (first_usable o d
                (preserved o d.path payload files)
                (backup_names d.path (preserved o d.path payload files)))
              (at_rest (preserved o d.path payload files) notices l)
      steps =
          unfold recover_document in
          ap (then_run (λ artifact. latest_valid_backup o d >>= restore o d check cause artifact))
            (preserve_corrupt-at_rest o d.path payload files notices l there new)
          ∙ ap (then_run (restore o d check cause (artifact_path o d.path payload)))
              (latest-at_rest (preserved o d.path payload files) notices l)
