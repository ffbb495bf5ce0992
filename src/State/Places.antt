-- ===== src/State/Places.antt =====
-- Where backups stand: none of them at the path of its document.
use mathlib.Core.List.{reverse, reverse-cons, reverse-append}
use mathlib.Core.Path.{subst}
use pmux.Base.{
  ℕ, ◌+◌, ◌≤◌, ◌≡◌, refl, ap, ◌∙◌, true, false, &&-eq-true, List, [], ◌∷◌, ◌++◌, Bytes, codes,
  length, length-append, append_assoc, drop, has_prefix, bytes_eq, bytes_eq_sound, Bool-cases, inl,
  inr, arith, zero, suc, All, All-append,
}
use pmux.Redact.{has_suffix}
use pmux.State.{Outside}
use pmux.State.Disk.{
  slash, before_slash, until_slash, dir_of, base_of, join, document_backup_dir, is_backup_of,
  select_backups,
}
use pmux.State.Store.{sha8}

length-reverse : (s : Bytes) → length (reverse s) ≡ length s
length-reverse [] = refl
length-reverse (c ∷ s) =
    rw (reverse-cons c s) (omega (arith, length-append (reverse s) (c ∷ []), length-reverse s))

slash_splits : (s : Bytes) → length s ≤ length (before_slash s) + length (until_slash s) + 1
unfolding before_slash until_slash
slash_splits [] = omega arith
slash_splits (c ∷ s) = ground (arith, slash_splits s)

length_parts : (path : Bytes) → length path ≤ length (dir_of path) + length (base_of path) + 1
unfolding dir_of base_of
length_parts path = omega (
  arith,
  slash_splits (reverse path),
  length-reverse path,
  length-reverse (before_slash (reverse path)),
  length-reverse (until_slash (reverse path)),
)

length-prefix : (t s : Bytes) → has_prefix t s ≡ true → length s ≤ length t
unfolding has_prefix
length-prefix t [] h = omega arith
length-prefix [] (a ∷ s) h = cc
length-prefix (b ∷ t) (a ∷ s) h = ground (arith, length-prefix t s)

-- A file of the directory of backups with the name of a backup.
abbrev pub backup_at : Bytes → Bytes → Bytes
backup_at path name = join (document_backup_dir path) name

pub backup-ne-document :
    (path name : Bytes)
    → is_backup_of path name ≡ true
    → bytes_eq (backup_at path name) path ≡ false
unfolding is_backup_of document_backup_dir
backup-ne-document path name h = elim (Bool-cases (bytes_eq (backup_at path name) path)) [
  | inr e ↦ e
  | inl e ↦ absurd (longer (bytes_eq_sound (backup_at path name) path e))
]
  where
    longer : backup_at path name ≡ path → ⊥
    longer e =
        let front = length-prefix name (base_of path ++ codes ".") (&&-eq-true _ _ h).0 in
        omega (
          arith,
          length_parts path,
          front,
          ap length e,
          length-append (base_of path) (codes "."),
          length-append (join (join (dir_of path) (codes "backups")) (codes "pmux")) (slash ∷ name),
          length-append (join (dir_of path) (codes "backups")) (slash ∷ codes "pmux"),
          length-append (dir_of path) (slash ∷ codes "backups"),
        )

pub has_prefix-append : (s t : Bytes) → has_prefix (s ++ t) s ≡ true
unfolding has_prefix
has_prefix-append [] t = refl
has_prefix-append (c ∷ s) t = ground (arith, has_prefix-append s t)

has_suffix-append : (s t : Bytes) → has_suffix (s ++ t) t ≡ true
unfolding has_suffix
has_suffix-append s t = rw (reverse-append s t) (has_prefix-append (reverse t) (reverse s))

-- The name of the backup of some bytes.
abbrev pub backup_name : Outside → Bytes → Bytes → Bytes
backup_name o path payload =
    base_of path ++ (codes "." ++ (o.stamp ++ (codes "." ++ (sha8 o payload ++ codes ".bak"))))

pub backup_name-IsBackup :
    (o : Outside) (path payload : Bytes) → is_backup_of path (backup_name o path payload) ≡ true
unfolding is_backup_of
backup_name-IsBackup o path payload = rw (starts, ends) refl
  where
    rest : Bytes
    rest = o.stamp ++ (codes "." ++ (sha8 o payload ++ codes ".bak"))

    starts : has_prefix (backup_name o path payload) (base_of path ++ codes ".") ≡ true
    starts =
        rw (← (append_assoc (base_of path) (codes ".") rest))
          (has_prefix-append (base_of path ++ codes ".") rest)

    ends : has_suffix (backup_name o path payload) (codes ".bak") ≡ true
    ends =
        subst (λ (s : Bytes). has_suffix s (codes ".bak") ≡ true)
          (append_assoc (base_of path) (codes "." ++ (o.stamp ++ (codes "." ++ sha8 o payload))) _
            ∙ ap (λ (s : Bytes). base_of path ++ (codes "." ++ s))
                (append_assoc o.stamp (codes "." ++ sha8 o payload) (codes ".bak")))
          (has_suffix-append
            (base_of path ++ (codes "." ++ (o.stamp ++ (codes "." ++ sha8 o payload))))
            (codes ".bak"))

abbrev pub Backups : Bytes → List Bytes → Type 0
Backups path = All (λ name. is_backup_of path name ≡ true)

pub select_backups-Backups :
    (path : Bytes) (names : List Bytes) → Backups path (select_backups path names)
unfolding select_backups
select_backups-Backups path [] = tt
select_backups-Backups path (name ∷ names) = elim (Bool-cases (is_backup_of path name)) [
  | inl e ↦ rw e (e, select_backups-Backups path names)
  | inr e ↦ rw e (select_backups-Backups path names)
]

pub All-reverse {ℓ κ} : {A : Type ℓ} (Q : A → Type κ) (xs : List A) → All Q xs → All Q (reverse xs)
All-reverse Q [] h = tt
All-reverse Q (x ∷ xs) h =
    rw (reverse-cons x xs) (All-append Q (reverse xs) (x ∷ []) (All-reverse Q xs h.1, (h.0, tt)))

pub All-drop {ℓ κ} :
    {A : Type ℓ} (Q : A → Type κ) (n : ℕ) (xs : List A) → All Q xs → All Q (drop n xs)
All-drop Q zero xs h = h
All-drop Q (suc n) [] h = tt
All-drop Q (suc n) (x ∷ xs) h = All-drop Q n xs h.1
