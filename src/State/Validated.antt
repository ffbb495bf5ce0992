-- ===== src/State/Validated.antt =====
-- `validateState` accepts valid states only.
use pmux.Base.{
  ℕ, zero, suc, ◌≤◌, ◌≡◌, ◌≢◌, refl, sym, ap, ◌∙◌, Bool, true, false, not, ◌&&◌, ◌||◌, &&-eq-true,
  Option, none, some, List, [], ◌∷◌, ◌++◌, Bytes, codes, length, drop, All, bytes_eq,
  bytes_eq_sound, bytes_eq_refl, has_prefix, has_prefix_split, leb, leb→le, Bool-cases, arith, ◌⊎◌,
  inl, inr, if◌then◌else◌, ◌==◌, ==_iff,
}
use pmux.Pmuxerr.{Result, ok, err, ◌>>◌, unless-eq-ok}
use pmux.Redact.{member}
use pmux.State.{
  State, Installation, SecretReference, ContainerMetadata, Outside, is_path, trim_prefix,
  fingerprint_prefix, validate_secret_reference, is_localhost, validate_host, validate_container,
  validate_path, about_installation, validate_parts, validate_each, validate_state,
}
use pmux.State.Validity.{
  IsReference, IsContainer, IsInstallation, contained, managed, IsNamed, AreDistinct, IsValid,
  is_mask-Hides, not-eq-false, some_text, both-ok, five, neither, trim_prefix-split,
}

module _ (o : Outside) where
  validate_secret_reference-IsReference :
      (r : SecretReference) → validate_secret_reference o r ≡ ok tt → IsReference o r
  unfolding validate_secret_reference
  validate_secret_reference-IsReference r h =
      let digest = trim_prefix r.fingerprint fingerprint_prefix in
      let (path, h1) = unless-eq-ok _ _ _ h in
      let (print, h2) = unless-eq-ok _ _ _ h1 in
      let (hex, h3) = unless-eq-ok _ _ _ h2 in
      let (mask, h4) = unless-eq-ok _ _ _ h3 in
      let (masked, h5) = unless-eq-ok _ _ _ h4 in
      let (long, prefixed) = &&-eq-true _ _ (not-eq-false _ print) in
      record {
        path_absolute = not-eq-false _ path;
        digest = digest;
        prefixed = trim_prefix-split r.fingerprint fingerprint_prefix prefixed;
        long = (==_iff _ _).0 long;
        hexadecimal = not-eq-false _ hex;
        hides = is_mask-Hides r.masked (not-eq-false _ masked);
      }

  path-is_path :
      (id : Bytes) (name : pmux.Base.String) (path : Bytes)
      → validate_path o id name path ≡ ok tt
      → is_path o path ≡ true
  unfolding validate_path
  path-is_path id name path h = ground arith

  host-loopback :
      (x : Option Bytes)
      → validate_host o x ≡ ok tt
      → (host : Bytes) × (x ≡ some host)
        × ((is_localhost o host ≡ true) ⊎ (o.is_loopback host ≡ true))
  unfolding validate_host
  host-loopback none h = cc
  host-loopback (some host) h =
      let (named, h1) = unless-eq-ok _ _ _ h in
      let (near, h2) = unless-eq-ok _ _ _ h1 in
      (host, refl, either (is_localhost o host) (o.is_loopback host) near)
    where
      either : (a b : Bool) → (not a && not b) ≡ false → (a ≡ true) ⊎ (b ≡ true)
      either true b h = inl refl
      either false true h = inr refl
      either false false h = cc

  validate_container-IsContainer :
      (x : Option ContainerMetadata)
      → validate_container o x ≡ ok tt
      → (c : ContainerMetadata) × (x ≡ some c) × IsContainer o c
  unfolding validate_container
  validate_container-IsContainer none h = cc
  validate_container-IsContainer (some c) h =
      let (named, h1) = unless-eq-ok _ _ _ h in
      let (mount, h2) = unless-eq-ok _ _ _ h1 in
      let (host, split, near) = host-loopback (o.split_host c.endpoint) h2 in
      let (a, (b, d)) = three _ _ _ named in
      (
        c,
        refl,
        record {
          runtime_named = some_text _ a;
          id_named = some_text _ b;
          image_named = some_text _ d;
          mount_absolute =
              either (bytes_eq c.config_mount []) (o.is_abs c.config_mount) refl refl mount;
          endpoint_host = host;
          endpoint_splits = split;
          loopback = near;
        },
      )
    where
      three : (a b d : Bool) → (a || (b || d)) ≡ false → (a ≡ false) × ((b ≡ false) × (d ≡ false))
      three a b d h = ground arith

      either :
          (a b : Bool)
          → bytes_eq c.config_mount [] ≡ a
          → o.is_abs c.config_mount ≡ b
          → (not a && not b) ≡ false
          → (c.config_mount ≡ []) ⊎ (o.is_abs c.config_mount ≡ true)
      either true b ea eb h = inl (bytes_eq_sound c.config_mount [] ea)
      either false true ea eb h = inr eb
      either false false ea eb h = cc

  about-eq-ok : (id : Bytes) (r : Result (Unit {0})) → about_installation o id r ≡ ok tt → r ≡ ok tt
  about-eq-ok id (ok u) h = refl
  about-eq-ok id (err e) h = cc

  parts-IsInstallation : (i : Installation) → validate_parts o i ≡ ok tt → IsInstallation o i
  unfolding validate_parts
  parts-IsInstallation i h = elim (Bool-cases (bytes_eq i.kind (codes "container"))) [
    | inl e ↦
        let inside = about-eq-ok i.id (validate_container o i.container) (rw e at h) in
        let (c, there, good) = validate_container-IsContainer i.container inside in
        contained c (bytes_eq_sound i.kind (codes "container") e) there good
    | inr e ↦ on_host (rw e at h)
  ]
    where
      on_host :
          (validate_path o i.id "binary" i.binary_path
              >> (validate_path o i.id "config" i.config_path
                  >> (validate_path o i.id "auth" i.auth_dir
                      >> (validate_path o i.id "runtime" i.runtime_dir
                          >> validate_secret_reference o i.proxy_key_ref))))
            ≡ ok tt
          → IsInstallation o i
      on_host h =
          let (binary, config, auth, run, reference) =
            five (validate_path o i.id "binary" i.binary_path)
              (validate_path o i.id "config" i.config_path) (validate_path o i.id "auth" i.auth_dir)
              (validate_path o i.id "runtime" i.runtime_dir)
              (validate_secret_reference o i.proxy_key_ref) h in
          managed (path-is_path i.id "binary" i.binary_path binary)
            (path-is_path i.id "config" i.config_path config)
            (path-is_path i.id "auth" i.auth_dir auth)
            (path-is_path i.id "runtime" i.runtime_dir run)
            (validate_secret_reference-IsReference i.proxy_key_ref reference)

  round-ok :
      (seen : List Bytes) (i : Installation) (rest : List Installation)
      → validate_each o seen (i ∷ rest) ≡ ok tt
      → (bytes_eq i.id [] ≡ false)
        × (member i.id seen ≡ false)
        × (validate_parts o i ≡ ok tt)
        × (validate_each o (i.id ∷ seen) rest ≡ ok tt)
  unfolding validate_each
  round-ok seen i rest h =
      let (named, h1) = unless-eq-ok _ _ _ h in
      let (new, h2) = unless-eq-ok _ _ _ h1 in
      let (good, h3) = both-ok (validate_parts o i) (validate_each o (i.id ∷ seen) rest) h2 in
      (named, new, good, h3)

  not_earlier :
      (id : Bytes) (seen : List Bytes) (l : List Installation)
      → All (λ i. member i.id (id ∷ seen) ≡ false) l
      → All (λ i. i.id ≢ id) l × All (λ i. member i.id seen ≡ false) l
  not_earlier id seen [] h = (tt, tt)
  not_earlier id seen (i ∷ l) h =
      let (apart, later) = neither i.id id seen h.0 in
      let (first, second) = not_earlier id seen l h.1 in ((apart, first), (later, second))

  fresh_ids :
      (seen : List Bytes) (l : List Installation)
      → validate_each o seen l ≡ ok tt
      → All (λ i. member i.id seen ≡ false) l
  fresh_ids seen [] h = tt
  fresh_ids seen (i ∷ rest) h =
      let (named, new, good, more) = round-ok seen i rest h in
      (new, (not_earlier i.id seen rest (fresh_ids (i.id ∷ seen) rest more)).1)

  each-IsValid :
      (seen : List Bytes) (l : List Installation)
      → validate_each o seen l ≡ ok tt
      → All (IsNamed o) l × AreDistinct l
  each-IsValid seen [] h = (tt, tt)
  each-IsValid seen (i ∷ rest) h =
      let (named, new, good, more) = round-ok seen i rest h in
      let (all, distinct) = each-IsValid (i.id ∷ seen) rest more in
      (
        ((some_text i.id named, parts-IsInstallation i good), all),
        ((not_earlier i.id seen rest (fresh_ids (i.id ∷ seen) rest more)).0, distinct),
      )

  pub validate_state-IsValid : (s : State) → validate_state o s ≡ ok tt → IsValid o s
  unfolding validate_state
  validate_state-IsValid s h = each-IsValid [] s.installations h
