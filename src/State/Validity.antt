-- ===== src/State/Validity.antt =====
-- What a valid state is, told without the code's checks and their order.
use mathlib.Core.Path.{subst}
use pmux.Base.{
  ℕ, zero, suc, ◌≤◌, ◌≡◌, ◌≢◌, refl, sym, ap, ◌∙◌, Bool, true, false, not, &&-eq-true, some, List,
  [], ◌∷◌, ◌++◌, Bytes, codes, length, drop, All, bytes_eq, bytes_eq_sound, bytes_eq_refl,
  has_prefix, has_prefix_split, leb→le, Bool-cases, arith, ◌⊎◌, inl, inr,
}
use pmux.Pmuxerr.{Result, ok, err, ◌>>◌}
use pmux.Redact.{member, stars, ellipsis, trim_space}
use pmux.State.{
  State, Installation, SecretReference, ContainerMetadata, Outside, is_path, is_hex, is_mask,
  are_short, trim_prefix, fingerprint_prefix, is_localhost,
}
use pmux.State.Utf.{split_mask, split_from, in_front, rune_count}

-- A mask hides the secret, or shows no more than seven characters before an ellipsis and four behind.
pub data Hides : Bytes → Type 0 where
  hidden : Hides stars
  shown :
      (front back : Bytes)
      → rune_count front ≤ 7
      → rune_count back ≤ 4
      → Hides (front ++ (ellipsis ++ back))

-- The parts of a text around its ellipses make it up again.
abbrev joined : List Bytes → Bytes
joined [] = []
joined (part ∷ []) = part
joined (part ∷ next ∷ parts) = part ++ (ellipsis ++ joined (next ∷ parts))

pub record IsReference (o : Outside) (r : SecretReference) : Type 0 where
  pub path_absolute : is_path o r.path ≡ true
  pub digest : Bytes
  pub prefixed : fingerprint_prefix ++ digest ≡ r.fingerprint
  pub long : length digest ≡ 64
  pub hexadecimal : is_hex digest ≡ true
  pub hides : Hides r.masked

pub record IsContainer (o : Outside) (c : ContainerMetadata) : Type 0 where
  pub runtime_named : trim_space c.runtime ≢ []
  pub id_named : trim_space c.id ≢ []
  pub image_named : trim_space c.image ≢ []
  pub mount_absolute : (c.config_mount ≡ []) ⊎ (o.is_abs c.config_mount ≡ true)
  pub endpoint_host : Bytes
  pub endpoint_splits : o.split_host c.endpoint ≡ some endpoint_host
  pub loopback : (is_localhost o endpoint_host ≡ true) ⊎ (o.is_loopback endpoint_host ≡ true)

-- An installation is a container, or has absolute paths and a reference to its key.
pub data IsInstallation (o : Outside) (i : Installation) : Type 0 where
  contained :
      (c : ContainerMetadata)
      → i.kind ≡ codes "container"
      → i.container ≡ some c
      → IsContainer o c
      → IsInstallation o i
  managed :
      is_path o i.binary_path ≡ true
      → is_path o i.config_path ≡ true
      → is_path o i.auth_dir ≡ true
      → is_path o i.runtime_dir ≡ true
      → IsReference o i.proxy_key_ref
      → IsInstallation o i

abbrev pub IsNamed : Outside → Installation → Type 0
IsNamed o i = (i.id ≢ []) × IsInstallation o i

abbrev pub AreDistinct : List Installation → Type 0
AreDistinct [] = Unit
AreDistinct (i ∷ rest) = All (λ j. j.id ≢ i.id) rest × AreDistinct rest

abbrev pub IsValid : Outside → State → Type 0
IsValid o s = All (IsNamed o) s.installations × AreDistinct s.installations

joined-cons :
    (part : Bytes) (skip : ℕ) (s : Bytes)
    → joined (part ∷ split_from skip s) ≡ part ++ (ellipsis ++ joined (split_from skip s))
joined-cons part skip s = more (split_from skip s) (never_empty skip s)
  where
    never_empty : (skip : ℕ) (s : Bytes) → split_from skip s ≢ []
    never_empty skip [] e = unfold split_from in cc
    never_empty (suc skip) (c ∷ s) e = never_empty skip s (unfold split_from in e)
    never_empty zero (c ∷ s) e =
        one (has_prefix (c ∷ s) ellipsis) (split_from 2 s) (split_from zero s)
          (unfold split_from in e)
      where
        one : (b : Bool) (x y : List Bytes) → (elim b [ true ↦ [] ∷ x | false ↦ in_front c y ]) ≢ []
        one true x y e = cc
        one false x [] e = cc
        one false x (p ∷ y) e = cc

    more :
        (parts : List Bytes)
        → parts ≢ []
        → joined (part ∷ parts) ≡ part ++ (ellipsis ++ joined parts)
    more [] h = absurd (h refl)
    more (p ∷ parts) h = refl

joined-in_front : (c : ℕ) (parts : List Bytes) → joined (in_front c parts) ≡ c ∷ joined parts
joined-in_front c [] = refl
joined-in_front c (p ∷ []) = refl
joined-in_front c (p ∷ q ∷ parts) = refl

joined-split : (skip : ℕ) (s : Bytes) → joined (split_from skip s) ≡ drop skip s
unfolding split_from
joined-split zero [] = refl
joined-split (suc skip) [] = refl
joined-split (suc skip) (c ∷ s) = joined-split skip s
joined-split zero (c ∷ s) =
    split (has_prefix (c ∷ s) ellipsis) refl (joined-split 2 s) (joined-split zero s)
  where
    split :
        (b : Bool)
        → has_prefix (c ∷ s) ellipsis ≡ b
        → joined (split_from 2 s) ≡ drop 2 s
        → joined (split_from zero s) ≡ s
        → joined (elim b [ true ↦ [] ∷ split_from 2 s | false ↦ in_front c (split_from zero s) ])
          ≡ c ∷ s
    split true e two rest =
        joined-cons [] 2 s
        ∙ ap (λ (t : Bytes). ellipsis ++ t) two
        ∙ has_prefix_split (c ∷ s) ellipsis e
    split false e two rest = joined-in_front c (split_from zero s) ∙ ap (λ (t : Bytes). c ∷ t) rest

short-Hides : (parts : List Bytes) (m : Bytes) → are_short parts ≡ true → joined parts ≡ m → Hides m
short-Hides [] m h e = cc
short-Hides (p ∷ []) m h e = cc
short-Hides (p ∷ q ∷ []) m h e =
    let (a, b) = &&-eq-true _ _ h in subst Hides e (shown p q (leb→le _ _ a) (leb→le _ _ b))
short-Hides (p ∷ q ∷ r ∷ parts) m h e = cc

pub is_mask-Hides : (m : Bytes) → is_mask m ≡ true → Hides m
unfolding is_mask
is_mask-Hides m h = elim (Bool-cases (bytes_eq m stars)) [
  | inl e ↦ subst Hides (sym (bytes_eq_sound m stars e)) hidden
  | inr e ↦ short-Hides (split_mask m) m (rw e at h) (unfold split_mask in joined-split zero m)
]

pub not-eq-false : (b : Bool) → not b ≡ false → b ≡ true
not-eq-false true h = refl
not-eq-false false h = cc

pub some_text : (s : Bytes) → bytes_eq s [] ≡ false → s ≢ []
some_text s h e = let same : bytes_eq s [] ≡ true = rw e (bytes_eq_refl []) in cc

pub both-ok : (r s : Result (Unit {0})) → (r >> s) ≡ ok tt → (r ≡ ok tt) × (s ≡ ok tt)
both-ok (ok u) s h = (refl, h)
both-ok (err e) s h = cc

pub five :
    (a b c d e : Result (Unit {0}))
    → (a >> (b >> (c >> (d >> e)))) ≡ ok tt
    → (a ≡ ok tt) × (b ≡ ok tt) × (c ≡ ok tt) × (d ≡ ok tt) × (e ≡ ok tt)
five (ok _) (ok _) (ok _) (ok _) e h = (refl, refl, refl, refl, h)
five (ok _) (ok _) (ok _) (err x) e h = cc
five (ok _) (ok _) (err x) d e h = cc
five (ok _) (err x) c d e h = cc
five (err x) b c d e h = cc

pub neither :
    (j id : Bytes) (seen : List Bytes)
    → member j (id ∷ seen) ≡ false
    → (j ≢ id) × (member j seen ≡ false)
unfolding member
neither j id seen h =
    (λ e. let same : bytes_eq id j ≡ true = rw e (bytes_eq_refl id) in ground arith, ground arith)

pub trim_prefix-split : (s p : Bytes) → has_prefix s p ≡ true → p ++ trim_prefix s p ≡ s
unfolding trim_prefix
trim_prefix-split s p h = rw h (has_prefix_split s p h)
