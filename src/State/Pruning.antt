-- ===== src/State/Pruning.antt =====
-- `pruneDocumentBackups` removes all backups but the ten with the greatest names.
use mathlib.Core.Path.{subst}
use pmux.Base.{
  ℕ, zero, suc, ltb, ◌≡◌, ◌≢◌, refl, ap, ◌∙◌, Bool, true, false, none, List, [], ◌∷◌, Bytes, take,
  drop, length, All, bytes_eq, bytes_eq_refl, bytes_lt, if◌then◌else◌, ◌⊎◌, inl, inr,
}
use pmux.Base.Assoc.{lookup, remove, lookup-remove}
use pmux.Pmuxerr.{Result, ok, err, config_unreadable}
use pmux.State.Disk.{
  World, pure, discard, then_run, attempt, join, document_backup_dir, backup_names, list_now,
  list_backups, remove_each, prune_listed, prune_document_backups, keep,
}
use pmux.State.Frame.{
  Files, Keeps, attempt-Keeps, prune_listed-Keeps, remove_each-Keeps, lift-Keeps,
}
use pmux.State.Places.{backup_at, All-drop}
use pmux.State.Newest.{IsDescending, backup_names-IsDescending}
use pmux.State.Saving.{Same, Same-refl, Same-trans, Leaves, discard-Leaves}
use pmux.State.Reading.{Ends, >>-Ends, kept-Ends}

-- A file that is missing stays missing.
abbrev pub Missing : Bytes → Files → Files → Type 0
Missing q a b = lookup q a ≡ none → lookup q b ≡ none

pub Missing-refl : (q : Bytes) (a : Files) → Missing q a a
Missing-refl q a h = h

pub Missing-trans : (q : Bytes) (a b c : Files) → Missing q a b → Missing q b c → Missing q a c
Missing-trans q a b c h k m = k (h m)

pub discard-Missing :
    (q path : Bytes) → Keeps (Missing q) (Missing-refl q) (Missing-trans q) (discard path)
discard-Missing q path = record { keeps = λ w h. after w.files h (bytes_eq path q) refl }
  where
    after :
        (files : Files)
        → lookup q files ≡ none
        → (b : Bool) → bytes_eq path q ≡ b
        → lookup q (remove path files) ≡ none
    after files h true e = lookup-remove path q files ∙ rw e refl
    after files h false e = lookup-remove path q files ∙ rw e h

discards-Missing :
    (q dir : Bytes) (names : List Bytes)
    → All
        (λ name. Keeps (Missing q) (Missing-refl q) (Missing-trans q) (discard (join dir name)))
        names
discards-Missing q dir [] = tt
discards-Missing q dir (name ∷ names) =
    (discard-Missing q (join dir name), discards-Missing q dir names)

-- The files of these names are gone.
abbrev pub AreGone : Bytes → List Bytes → Files → Type 0
AreGone dir names files = All (λ name. lookup (join dir name) files ≡ none) names

remove_each-Ends :
    (dir : Bytes) (names : List Bytes) → Ends (AreGone dir names) (remove_each dir names)
unfolding remove_each
remove_each-Ends dir [] = record { ends = λ w h. tt }
remove_each-Ends dir (name ∷ names) =
    >>-Ends _ (attempt config_unreadable "could not prune PMux state backup") _ (record {
      ends = λ w h. (
        (remove_each-Keeps _ _ _ dir names (discards-Missing (join dir name) dir names)).keeps
            (discard (join dir name) w).1
            (lookup-remove (join dir name) (join dir name) w.files
              ∙ rw (bytes_eq_refl (join dir name)) refl),
        (remove_each-Ends dir names).ends (discard (join dir name) w).1 h,
      );
    })

flush-Keeps :
    (R : Files → Files → Type 0) (R-refl : (a : Files) → R a a)
    (R-trans : (a b c : Files) → R a b → R b c → R a c) (many : Bool)
    → Keeps R R-refl R-trans (
        if many
        then attempt config_unreadable "could not flush PMux state backup retention"
        else pure tt)
flush-Keeps R R-refl R-trans true = attempt-Keeps R R-refl R-trans _ _
flush-Keeps R R-refl R-trans false = lift-Keeps R R-refl R-trans (ok tt)

prune_listed-Ends :
    (path : Bytes) (names : List Bytes)
    → Ends (AreGone (document_backup_dir path) (drop keep names)) (prune_listed path names)
unfolding prune_listed
prune_listed-Ends path names =
    kept-Ends _ _
      (if ltb keep (length names)
        then attempt config_unreadable "could not flush PMux state backup retention"
        else pure tt)
      (remove_each-Ends (document_backup_dir path) (drop keep names))
      λ w gone. stays (drop keep names) w gone
  where
    stays :
        (l : List Bytes) (w : World)
        → AreGone (document_backup_dir path) l w.files
        → AreGone
            (document_backup_dir path)
            l
            ((if ltb keep (length names)
                then attempt config_unreadable "could not flush PMux state backup retention"
                else pure tt)
              w).1.files
    stays [] w gone = tt
    stays (n ∷ l) w gone = (
      (flush-Keeps (Missing (join (document_backup_dir path) n)) (Missing-refl _) (Missing-trans _)
            (ltb keep (length names))).keeps
          w gone.0,
      stays l w gone.1,
    )

-- The names that a pruning removes.
abbrev pub pruned_names : Bytes → Files → List Bytes
pruned_names path files = drop keep (backup_names path files)

-- No name of the second list is greater than one of the first.
abbrev pub AreBelow : List Bytes → List Bytes → Type 0
AreBelow kept removed = All (λ n. All (λ m. bytes_lt n m ≡ false) removed) kept

pub descending-AreBelow : (k : ℕ) (l : List Bytes) → IsDescending l → AreBelow (take k l) (drop k l)
descending-AreBelow zero l h = tt
descending-AreBelow (suc k) [] h = tt
descending-AreBelow (suc k) (n ∷ l) h = (All-drop _ k l h.0, descending-AreBelow k l h.1)

-- What a pruning has made of the files, and its result.
abbrev pub Pruned : Bytes → Files → Result (Unit {0}) × World → Type 0
Pruned path before (r, w) =
    ((r ≢ ok tt) ⊎ AreGone (document_backup_dir path) (pruned_names path before) w.files)
    × ((q : Bytes)
        → All (λ n. bytes_eq (backup_at path n) q ≡ false) (pruned_names path before)
        → lookup q w.files ≡ lookup q before)
    × AreBelow (take keep (backup_names path before)) (pruned_names path before)

discards-Leaves :
    (dir q : Bytes) (names : List Bytes)
    → All (λ n. bytes_eq (join dir n) q ≡ false) names
    → All (λ n. Leaves q (discard (join dir n))) names
discards-Leaves dir q [] h = tt
discards-Leaves dir q (n ∷ names) h =
    (discard-Leaves (join dir n) q h.0, discards-Leaves dir q names h.1)

prune_listed-Pruned :
    (path : Bytes) (w : World)
    → Pruned path w.files (prune_listed path (backup_names path w.files) w)
prune_listed-Pruned path w = (
  gone (prune_listed path names w) ((prune_listed-Ends path names).ends w),
  λ q h.
      (prune_listed-Keeps (Same q) (Same-refl q) (Same-trans q) path names
          (discards-Leaves (document_backup_dir path) q (drop keep names) h)).keeps
        w,
  descending-AreBelow keep names (backup_names-IsDescending path w.files),
)
  where
    names : List Bytes
    names = backup_names path w.files

    gone :
        (x : Result (Unit {0}) × World)
        → (x.0 ≡ ok tt
            → AreGone (document_backup_dir path) (drop keep (backup_names path w.files)) x.1.files)
        → (x.0 ≢ ok tt)
          ⊎ AreGone (document_backup_dir path) (drop keep (backup_names path w.files)) x.1.files
    gone (ok u, w') h = inr (h refl)
    gone (err e, w') h = inl (λ same. cc)

-- pruneDocumentBackups, whichever calls fail, returns an error, or all backups are gone but the ten
-- with the greatest names, in the order in which latestValidBackup visits them; and in either case no
-- other file has changed.
pub prune-Pruned : (path : Bytes) (w : World) → Pruned path w.files (prune_document_backups path w)
unfolding prune_document_backups list_backups
prune-Pruned path w =
    after (attempt config_unreadable _ w)
      ((attempt-Keeps (λ a b. b ≡ a) (λ a. refl) (λ a b c h k. k ∙ h) config_unreadable _).keeps w)
  where
    after :
        (x : Result (Unit {0}) × World)
        → x.1.files ≡ w.files
        → Pruned path w.files (then_run (prune_listed path) (then_run (λ _. list_now path) x))
    after (ok u, w') same =
        subst
          (λ (files : Files). Pruned path files (prune_listed path (backup_names path w'.files) w'))
          same (prune_listed-Pruned path w')
    after (err e, w') same = (
      inl (λ h. cc),
      λ q h. ap (lookup q) same,
      descending-AreBelow keep _ (backup_names-IsDescending path w.files),
    )
