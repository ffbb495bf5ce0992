-- ===== src/State/Newest.antt =====
-- `latestValidBackup`: the names that it visits, and what it finds.
use mathlib.Core.List.{reverse, reverse-cons, reverse-append, Memᴰ}
use mathlib.Core.Path.{subst}
use pmux.Base.{
  ◌≡◌, refl, sym, ap, ◌∙◌, true, false, Option, none, some, List, [], ◌∷◌, ◌++◌, Bytes, All,
  All-append, arith, bytes_eq, bytes_eq_sound, bytes_lt, Bool-cases, inl, inr, append_assoc, ◌==◌,
  ==_iff, has_prefix,
}
use pmux.Base.Assoc.{lookup}
use pmux.Base.Sorting.{IsSorted, sort_by-IsSorted, mem-sort_by}
use pmux.State.Disk.{
  slash, until_slash, base_of, join, document_backup_dir, name_in, names_in, with_name,
  is_backup_of, select_backups, backup_names,
}
use pmux.State.Frame.{Files}
use pmux.State.Places.{backup_at, All-reverse, has_prefix-append}
use pmux.State.Artifact.{NoSlash}

until_slash-stops : (x y : Bytes) → NoSlash x → until_slash (x ++ slash ∷ y) ≡ x
unfolding until_slash
until_slash-stops [] y h = refl
until_slash-stops (c ∷ x) y h = elim (Bool-cases (c == slash)) [
  | inl e ↦ absurd (h.0 ((==_iff c slash).0 e))
  | inr e ↦ rw e (ap (λ (t : Bytes). c ∷ t) (until_slash-stops x y h.1))
]

base_of-join : (dir name : Bytes) → NoSlash name → base_of (join dir name) ≡ name
unfolding base_of
base_of-join dir name h =
    ap (λ (t : Bytes). reverse (until_slash t)) backwards
    ∙ ap reverse (until_slash-stops (reverse name) (reverse dir) (All-reverse _ name h))
    ∙ mathlib.Core.List.reverse-reverse name
  where
    backwards : reverse (join dir name) ≡ reverse name ++ slash ∷ reverse dir
    backwards =
        reverse-append dir (slash ∷ name)
        ∙ ap (λ (t : Bytes). t ++ reverse dir) (reverse-cons slash name)
        ∙ append_assoc (reverse name) (slash ∷ []) (reverse dir)

name_in-join : (dir name : Bytes) → NoSlash name → name_in dir (join dir name) ≡ some name
unfolding name_in
name_in-join dir name h = rw (base_of-join dir name h) (rw starts (ground arith))
  where
    starts : has_prefix (join dir name) (join dir []) ≡ true
    starts =
        subst (λ (t : Bytes). has_prefix t (join dir []) ≡ true)
          (append_assoc dir (slash ∷ []) name) (has_prefix-append (join dir []) name)

-- A file in a directory is listed.
mem-names_in :
    (dir name b : Bytes) (files : Files)
    → NoSlash name
    → lookup (join dir name) files ≡ some b
    → Memᴰ name (names_in dir files)
unfolding names_in lookup
mem-names_in dir name b [] h there = cc
mem-names_in dir name b ((path, content) ∷ files) h there =
    elim (Bool-cases (bytes_eq path (join dir name))) [
      | inl e ↦
          rw (bytes_eq_sound path (join dir name) e) (rw (name_in-join dir name h) (Memᴰ.head refl))
      | inr e ↦ behind (name_in dir path) (mem-names_in dir name b files h (rw e at there))
    ]
  where
    behind :
        (o : Option Bytes)
        → Memᴰ name (names_in dir files)
        → Memᴰ name (with_name o (names_in dir files))
    behind none m = m
    behind (some other) m = Memᴰ.tail m

mem-select_backups :
    (path name : Bytes) (names : List Bytes)
    → is_backup_of path name ≡ true
    → Memᴰ name names
    → Memᴰ name (select_backups path names)
unfolding select_backups
mem-select_backups path name (other ∷ names) h (Memᴰ.head e) = rw (← e) (rw h (Memᴰ.head refl))
mem-select_backups path name (other ∷ names) h (Memᴰ.tail m) =
    let rest = mem-select_backups path name names h m in
    elim (Bool-cases (is_backup_of path other)) [
      | inl e ↦ rw e (Memᴰ.tail rest)
      | inr e ↦ rw e rest
    ]
mem-select_backups path name [] h m = elim m [ ]

mem-append_left : {A : Type 0} (a : A) (xs ys : List A) → Memᴰ a xs → Memᴰ a (xs ++ ys)
mem-append_left a [] ys m = elim m [ ]
mem-append_left a (x ∷ xs) ys (Memᴰ.head e) = Memᴰ.head e
mem-append_left a (x ∷ xs) ys (Memᴰ.tail m) = Memᴰ.tail (mem-append_left a xs ys m)

mem-append_right : {A : Type 0} (a : A) (xs ys : List A) → Memᴰ a ys → Memᴰ a (xs ++ ys)
mem-append_right a [] ys m = m
mem-append_right a (x ∷ xs) ys m = Memᴰ.tail (mem-append_right a xs ys m)

mem-reverse : {A : Type 0} (a : A) (xs : List A) → Memᴰ a xs → Memᴰ a (reverse xs)
mem-reverse a [] m = elim m [ ]
mem-reverse a (x ∷ xs) (Memᴰ.head e) =
    rw (reverse-cons x xs) (mem-append_right a (reverse xs) (x ∷ []) (Memᴰ.head e))
mem-reverse a (x ∷ xs) (Memᴰ.tail m) =
    rw (reverse-cons x xs) (mem-append_left a (reverse xs) (x ∷ []) (mem-reverse a xs m))

pub All-mem : {A : Type 0} (Q : A → Type 0) (a : A) (xs : List A) → All Q xs → Memᴰ a xs → Q a
All-mem Q a [] h m = elim m [ ]
All-mem Q a (x ∷ xs) h (Memᴰ.head e) = subst Q (sym e) h.0
All-mem Q a (x ∷ xs) h (Memᴰ.tail m) = All-mem Q a xs h.1 m

-- Every backup is visited.
pub mem-backup_names :
    (path name b : Bytes) (files : Files)
    → NoSlash name
    → is_backup_of path name ≡ true
    → lookup (backup_at path name) files ≡ some b
    → Memᴰ name (backup_names path files)
unfolding backup_names
mem-backup_names path name b files plain backup there = mem-reverse name _ (
    (mem-sort_by _ name _).1 (
      mem-select_backups path name _ backup
        (mem-names_in (document_backup_dir path) name b files plain there)))

-- No name stands before one that is greater.
abbrev pub IsDescending : List Bytes → Type 0
IsDescending [] = Unit
IsDescending (x ∷ xs) = All (λ y. bytes_lt x y ≡ false) xs × IsDescending xs

IsDescending-append :
    (xs : List Bytes) (y : Bytes)
    → IsDescending xs
    → All (λ x. bytes_lt x y ≡ false) xs
    → IsDescending (xs ++ y ∷ [])
IsDescending-append [] y d h = (tt, tt)
IsDescending-append (x ∷ xs) y d h =
    (All-append _ xs (y ∷ []) (d.0, (h.0, tt)), IsDescending-append xs y d.1 h.1)

pub reverse-IsDescending :
    (xs : List Bytes) → IsSorted (λ name. name) xs → IsDescending (reverse xs)
reverse-IsDescending [] s = tt
reverse-IsDescending (x ∷ xs) s =
    rw (reverse-cons x xs)
      (IsDescending-append (reverse xs) x (reverse-IsDescending xs s.1) (All-reverse _ xs s.0))

pub backup_names-IsDescending :
    (path : Bytes) (files : Files) → IsDescending (backup_names path files)
unfolding backup_names
backup_names-IsDescending path files =
    reverse-IsDescending _ (sort_by-IsSorted (λ name. name) (select_backups path _))
