-- ===== src/Fs/Pruning.antt =====
-- `Backups.Prune`, whichever calls fail.
use mathlib.Core.Path.{subst}
use pmux.Base.{
  ℕ, zero, suc, leb, ◌≤◌, ◌≡◌, ◌≢◌, refl, sym, ap, ◌∙◌, Bool, true, false, none, List, [], ◌∷◌,
  Bytes, String, bytes_eq, bytes_eq_refl, take, drop, length, All, ◌⊎◌, inl, inr, if◌then◌else◌,
  arith, leb→le,
}
use pmux.Base.Assoc.{lookup, remove, lookup-remove}
use pmux.Base.Sorting.{sort_by, sort_by-IsSorted}
use pmux.Pmuxerr.{Result, ok, err, config_unreadable}
use pmux.State.Disk.{World, ◌>>◌, lift, discard, then_run, attempt, join, names_in}
use pmux.State.Frame.{Files, attempt-Keeps}
use pmux.State.Saving.{Same, Same-refl, Same-trans}
use pmux.State.Pruning.{
  Missing, Missing-refl, Missing-trans, discard-Missing, AreGone, AreBelow, descending-AreBelow,
}
use pmux.State.Newest.{reverse-IsDescending}
use pmux.Fs.{
  Backups, valid_component, listed_names, list_now, list, Removal, with_first, removed_next,
  remove_listed, flush_removed, prune_listed, prune, select_names,
}

abbrev could_not_prune : String
could_not_prune = "could not prune old backup"

-- What is missing stays missing.
remove_listed-Missing :
    (q dir : Bytes) (names : List Bytes) (w : World)
    → Missing q w.files (remove_listed dir names w).1.files
unfolding remove_listed
remove_listed-Missing q dir [] w = λ h. h
remove_listed-Missing q dir (name ∷ names) w =
    next (attempt config_unreadable could_not_prune w)
      ((attempt-Keeps (Missing q) (Missing-refl q) (Missing-trans q) config_unreadable
          could_not_prune).keeps
        w)
      (remove_listed-Missing q dir names _)
  where
    next :
        (x : Result (Unit {0}) × World)
        → Missing q w.files x.1.files
        → Missing q
            (discard (join dir name) x.1).1.files
            (remove_listed dir names (discard (join dir name) x.1).1).1.files
        → Missing q w.files
            (removed_next x
              (with_first name (remove_listed dir names (discard (join dir name) x.1).1))).1.files
    next (err e, w') h k m = h m
    next (ok u, w') h k m = k ((discard-Missing q (join dir name)).keeps w' (h m))

-- The names that are reported as removed are the first of the list, and their files are gone; without an
-- error they are the whole list. Every other file is as it was.
abbrev pub Removed : Bytes → List Bytes → Files → Removal × World → Type 0
Removed dir names before ((r, removed), w) =
    AreGone dir removed w.files
    × ((q : Bytes)
        → All (λ n. bytes_eq (join dir n) q ≡ false) removed
        → lookup q w.files ≡ lookup q before)
    × ((n : ℕ) × (removed ≡ take n names))
    × ((r ≢ ok tt) ⊎ (removed ≡ names))

-- One more removal in front.
with_first-Removed :
    (dir name : Bytes) (names : List Bytes) (before middle : Files) (x : Removal × World)
    → ((q : Bytes) → lookup q middle ≡ lookup q before)
    → lookup (join dir name) x.1.files ≡ none
    → Removed dir names (remove (join dir name) middle) x
    → Removed dir (name ∷ names) before (with_first name x)
with_first-Removed dir name names before middle ((r, removed), w) same gone
      (all, frame, (n, e), end) =
    (
      (gone, all),
      λ q h. frame q h.1 ∙ lookup-remove (join dir name) q middle ∙ rw h.0 (same q),
      (suc n, ap (λ (l : List Bytes). name ∷ l) e),
      longer end,
    )
  where
    longer : (r ≢ ok tt) ⊎ (removed ≡ names) → (r ≢ ok tt) ⊎ (name ∷ removed ≡ name ∷ names)
    longer (inl h) = inl h
    longer (inr h) = inr (ap (λ (l : List Bytes). name ∷ l) h)

attempt-same :
    (message : String) (w : World) (q : Bytes)
    → lookup q (attempt config_unreadable message w).1.files ≡ lookup q w.files
attempt-same message w q =
    (attempt-Keeps (Same q) (Same-refl q) (Same-trans q) config_unreadable message).keeps w

remove_listed-Removed :
    (dir : Bytes) (names : List Bytes) (w : World)
    → Removed dir names w.files (remove_listed dir names w)
unfolding remove_listed
remove_listed-Removed dir [] w = (tt, λ q h. refl, (0, refl), inr refl)
remove_listed-Removed dir (name ∷ names) w =
    next (attempt config_unreadable could_not_prune w) (attempt-same could_not_prune w)
      (remove_listed-Removed dir names _)
  where
    next :
        (x : Result (Unit {0}) × World)
        → ((q : Bytes) → lookup q x.1.files ≡ lookup q w.files)
        → Removed dir names
            (discard (join dir name) x.1).1.files
            (remove_listed dir names (discard (join dir name) x.1).1)
        → Removed dir (name ∷ names) w.files (
            removed_next x
              (with_first name (remove_listed dir names (discard (join dir name) x.1).1)))
    next (err e, w') same k = (tt, λ q h. same q, (0, refl), inl (λ h. cc))
    next (ok u, w') same k =
        with_first-Removed dir name names w.files w'.files
          (remove_listed dir names (discard (join dir name) w').1) same
          (remove_listed-Missing (join dir name) dir names (discard (join dir name) w').1 (
            lookup-remove (join dir name) (join dir name) w'.files
            ∙ rw (bytes_eq_refl (join dir name)) refl))
          k

flush_removed-Removed :
    (dir : Bytes) (names : List Bytes) (before : Files) (x : Removal × World)
    → Removed dir names before x
    → Removed dir names before (flush_removed x)
unfolding flush_removed
flush_removed-Removed dir names before ((err e, removed), w) h = h
flush_removed-Removed dir names before ((ok u, []), w) h = h
flush_removed-Removed dir names before ((ok u, name ∷ removed), w) (all, frame, n, end) =
    (stays (name ∷ removed) all, λ q h. attempt-same flush w q ∙ frame q h, n, ended end)
  where
    flush : String
    flush = "could not flush backup retention"

    stays :
        (l : List Bytes)
        → AreGone dir l w.files
        → AreGone dir l (attempt config_unreadable "could not flush backup retention" w).1.files
    stays [] a = tt
    stays (n ∷ l) a =
        (attempt-same "could not flush backup retention" w (join dir n) ∙ a.0, stays l a.1)

    ended :
        (ok u ≢ ok tt) ⊎ (name ∷ removed ≡ names)
        → ((attempt config_unreadable "could not flush backup retention" w).0 ≢ ok tt)
          ⊎ (name ∷ removed ≡ names)
    ended (inl h) = absurd (h refl)
    ended (inr h) = inr h

drop_all : {A : Type 0} (n : ℕ) (xs : List A) → length xs ≤ n → drop n xs ≡ []
drop_all zero [] h = refl
drop_all zero (x ∷ xs) h = absurd (omega arith)
drop_all (suc n) [] h = refl
drop_all (suc n) (x ∷ xs) h = drop_all n xs (omega arith)

module _ (b : Backups) (instance_id base : Bytes) where
  abbrev names_of : Files → List Bytes
  names_of files = listed_names b instance_id base files

  abbrev dir : Bytes
  dir = join b.root instance_id

  nothing-Removed :
      (names : List Bytes) (before : Files) (r : Result (Unit {0})) (w : World)
      → w.files ≡ before
      → (r ≢ ok tt) ⊎ ([] ≡ names)
      → Removed dir names before ((r, []), w)
  nothing-Removed names before r w same end = (tt, λ q h. ap (lookup q) same, (0, refl), end)

  enough :
      (w : World) (few : Bool)
      → leb (length (names_of w.files)) b.keep ≡ few
      → Removed dir (drop b.keep (names_of w.files)) w.files (
          if few
          then ((ok tt, []), w)
          else flush_removed (remove_listed dir (drop b.keep (names_of w.files)) w))
  enough w true e =
      nothing-Removed (drop b.keep (names_of w.files)) w.files (ok tt) w refl
        (inr (sym (drop_all b.keep (names_of w.files) (leb→le _ _ e))))
  enough w false e =
      flush_removed-Removed dir (drop b.keep (names_of w.files)) w.files _
        (remove_listed-Removed dir (drop b.keep (names_of w.files)) w)

  -- Backups.Prune, whichever calls fail: the names that it reports are the first of those behind the
  -- retention count, in descending order, and their files are gone; without an error they are all of those;
  -- none of them is greater than one that is kept; and every other file is as it was.
  pub prune-Removed :
      (w : World)
      → Removed dir (drop b.keep (names_of w.files)) w.files (prune b instance_id base w)
        × AreBelow (take b.keep (names_of w.files)) (drop b.keep (names_of w.files))
  unfolding prune list prune_listed
  prune-Removed w = (
    checked (valid_component instance_id) (valid_component base),
    descending-AreBelow b.keep (names_of w.files) (
        unfold listed_names in
        reverse-IsDescending
          (sort_by (λ name. name) (select_names base (names_in (join b.root instance_id) w.files)))
          (sort_by-IsSorted (λ name. name)
            (select_names base (names_in (join b.root instance_id) w.files)))),
  )
    where
      attempted :
          (x : Result (Unit {0}) × World)
          → x.1.files ≡ w.files
          → Removed dir
              (drop b.keep (names_of w.files))
              w.files
              (prune_listed b dir (then_run (λ _. list_now b instance_id base) x))
      attempted (err e, w') same = nothing-Removed _ w.files (err e) w' same (inl (λ h. cc))
      attempted (ok u, w') same =
          subst
            (λ (files : Files).
              Removed dir (drop b.keep (names_of files)) files
                (prune_listed b dir (ok (names_of w'.files), w')))
            same (enough w' (leb (length (names_of w'.files)) b.keep) refl)

      checked :
          (r s : Result (Unit {0}))
          → Removed dir (drop b.keep (names_of w.files)) w.files (
              prune_listed b dir (
                (lift r
                    >> (lift s
                        >> (attempt config_unreadable "could not list backups"
                            >> list_now b instance_id base)))
                  w))
      checked (err e) s = nothing-Removed _ w.files (err e) w refl (inl (λ h. cc))
      checked (ok u) (err e) = nothing-Removed _ w.files (err e) w refl (inl (λ h. cc))
      checked (ok u) (ok u') = attempted (attempt config_unreadable "could not list backups" w) (
          (attempt-Keeps (λ x y. y ≡ x) (λ x. refl) (λ x y z h k. k ∙ h) config_unreadable
              "could not list backups").keeps
            w)
