-- ===== src/State/Artifact.antt =====
-- The file to which a corrupt document is copied is none of its backups.
use mathlib.Core.List.{reverse, reverse-cons, reverse-append, reverse-reverse}
use pmux.Base.{
  ℕ, ◌≡◌, ◌≢◌, refl, sym, ap, ◌∙◌, false, [], ◌∷◌, ◌++◌, Bytes, codes, drop, All, arith, bytes_eq,
  bytes_eq_sound, Bool-cases, inl, inr, append_assoc, ◌==◌, ==_iff,
}
use pmux.State.{Outside}
use pmux.State.Disk.{slash, before_slash, until_slash, dir_of, base_of, join, document_backup_dir}
use pmux.State.Store.{artifact_path, sha8}
use pmux.State.Places.{backup_at, All-reverse}

abbrev pub NoSlash : Bytes → Type 0
NoSlash = All (λ c. c ≢ slash)

abbrev NoDot : Bytes → Type 0
NoDot = All (λ c. c ≢ 46)

pub until_slash-NoSlash : (s : Bytes) → NoSlash (until_slash s)
unfolding until_slash
until_slash-NoSlash [] = tt
until_slash-NoSlash (c ∷ s) = elim (Bool-cases (c == slash)) [
  | inl e ↦ rw e tt
  | inr e ↦ rw e (ground arith, until_slash-NoSlash s)
]

-- A text with a slash is what stands before its first slash, and what stands behind it.
parted :
    (s : Bytes)
    → until_slash (s ++ slash ∷ []) ++ slash ∷ before_slash (s ++ slash ∷ []) ≡ s ++ slash ∷ []
unfolding until_slash before_slash
parted [] = refl
parted (c ∷ s) = elim (Bool-cases (c == slash)) [
  | inl e ↦ rw e (ap (λ (a : ℕ). a ∷ (s ++ slash ∷ [])) (sym ((==_iff c slash).0 e)))
  | inr e ↦ rw e (ap (λ (t : Bytes). c ∷ t) (parted s))
]

-- An absolute path is its directory and its name.
pub path_parts :
    (rest : Bytes) → let path : Bytes = slash ∷ rest in join (dir_of path) (base_of path) ≡ path
unfolding dir_of base_of
path_parts rest =
    sym (whole (until_slash (reverse (slash ∷ rest))) (before_slash (reverse (slash ∷ rest))) back)
  where
    back :
        until_slash (reverse (slash ∷ rest)) ++ slash ∷ before_slash (reverse (slash ∷ rest))
        ≡ reverse (slash ∷ rest)
    back = rw (reverse-cons slash rest) (parted (reverse rest))

    whole :
        (u b : Bytes)
        → u ++ slash ∷ b ≡ reverse (slash ∷ rest)
        → slash ∷ rest ≡ join (reverse b) (reverse u)
    whole u b e =
        sym (reverse-reverse (slash ∷ rest))
        ∙ ap reverse (sym e)
        ∙ reverse-append u (slash ∷ b)
        ∙ ap (λ (t : Bytes). t ++ reverse u) (reverse-cons slash b)
        ∙ append_assoc (reverse b) (slash ∷ []) (reverse u)

differ : (x y r s : Bytes) → NoSlash x → NoDot y → x ++ 46 ∷ r ≢ y ++ slash ∷ s
differ [] [] r s nx ny e = let h : ◌≡◌ {A = ℕ} 46 slash = cc in omega arith
differ [] (c ∷ y) r s nx ny e = let h : 46 ≡ c = cc in ny.0 (sym h)
differ (c ∷ x) [] r s nx ny e = let h : c ≡ slash = cc in nx.0 h
differ (c ∷ x) (d ∷ y) r s nx ny e = differ x y r s nx.1 ny.1 (cc)

cancel : (d x y : Bytes) → d ++ x ≡ d ++ y → x ≡ y
cancel [] x y e = e
cancel (c ∷ d) x y e = cancel d x y (cc)

-- The copy of a corrupt document whose path is absolute stands at the path of none of its backups.
pub artifact-ne-backup :
    (o : Outside) (rest payload name : Bytes)
    → bytes_eq (artifact_path o (slash ∷ rest) payload) (backup_at (slash ∷ rest) name) ≡ false
unfolding artifact_path document_backup_dir
artifact-ne-backup o rest payload name =
    elim (Bool-cases (bytes_eq (artifact_path o path payload) (backup_at path name))) [
      | inr e ↦ e
      | inl e ↦ absurd (apart (bytes_eq_sound _ _ e))
    ]
  where
    path : Bytes
    path = slash ∷ rest

    tail : Bytes
    tail = codes "corrupt." ++ (o.stamp ++ (codes "." ++ sha8 o payload))

    apart : path ++ 46 ∷ tail ≡ backup_at path name → ⊥
    apart e =
        differ (base_of path) (codes "backups") tail (codes "pmux" ++ slash ∷ name) no_slash
          (omega arith) (ap (λ (t : Bytes). drop 1 t) (cancel (dir_of path) _ _ both))
      where
        no_slash : NoSlash (base_of path)
        no_slash =
            unfold base_of in
            All-reverse (λ c. c ≢ slash) (until_slash (reverse path))
              (until_slash-NoSlash (reverse path))

        both :
            dir_of path ++ slash ∷ (base_of path ++ 46 ∷ tail)
            ≡ dir_of path ++ slash ∷ (codes "backups" ++ slash ∷ (codes "pmux" ++ slash ∷ name))
        both =
            sym (append_assoc (dir_of path) (slash ∷ base_of path) (46 ∷ tail))
            ∙ ap (λ (t : Bytes). t ++ 46 ∷ tail) (path_parts rest)
            ∙ e
            ∙ append_assoc (dir_of path ++ slash ∷ codes "backups") (slash ∷ codes "pmux")
                (slash ∷ name)
            ∙ append_assoc (dir_of path) (slash ∷ codes "backups")
                (slash ∷ (codes "pmux" ++ slash ∷ name))
