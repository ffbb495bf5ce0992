-- ===== src/State.antt =====
-- internal/state/types.go: the documents that PMux keeps, and what makes them valid.
pub mod Utf
pub mod Disk
pub mod Store
pub mod Methods
pub mod Frame
pub mod Places
pub mod Saving
pub mod Atomic
pub mod Reading
pub mod Contract
pub mod Artifact
pub mod Newest
pub mod Validity
pub mod Validated
pub mod Loads
pub mod Pruning
pub mod Success
pub mod Unversioned
pub mod Usable
pub mod Recovering
pub mod Loading
use Prim.Native.String.{◌++◌ as concat}
use pmux.Base.{
  ℕ, Bool, true, false, not, ◌&&◌, ◌||◌, Option, none, some, List, [], ◌∷◌, Bytes, String, codes,
  leb, ◌==◌, length, drop, bytes_eq, has_prefix, if◌then◌else◌,
}
use pmux.Base.Int.{ℤ}
use pmux.Pmuxerr.{
  Result, ok, err, ◌>>=◌, ◌>>◌, Err, new_error, foreign, error_message, config_validation_failed,
  user,
}
use pmux.Redact.{member, trim_space, to_lower, stars}
use pmux.State.Utf.{rune_count, split_mask}

-- `Profile`.
pub record Profile : Type 0 where
  pub client : Bytes
  pub model : Bytes
  pub fallback : List Bytes
  pub args : List Bytes

pub record Config : Type 0 where
  pub version : ℤ
  pub theme : Bytes
  pub update_check : Bool
  pub default_installation : Bytes
  pub default_client : Bytes
  pub default_model : Bytes
  pub high_latency_mode : Option Bool
  pub log_line_limit : ℤ
  pub visual : List (Bytes × Bytes)
  pub persistent_claude_models : List (Bytes × Bytes)
  pub profiles : List (Bytes × Profile)

pub record SecretReference : Type 0 where
  pub path : Bytes
  pub masked : Bytes
  pub fingerprint : Bytes

pub record SecretReferences : Type 0 where
  pub version : ℤ
  pub management : List (Bytes × SecretReference)

pub record ContainerMetadata : Type 0 where
  pub runtime : Bytes
  pub id : Bytes
  pub name : Bytes
  pub image : Bytes
  pub endpoint : Bytes
  pub config_mount : Bytes

-- `observed_at` is in nanoseconds, 0 the zero time.
pub record Installation : Type 0 where
  pub id : Bytes
  pub kind : Bytes
  pub binary_path : Bytes
  pub binary_sha256 : Bytes
  pub config_path : Bytes
  pub proxy_key_ref : SecretReference
  pub auth_dir : Bytes
  pub runtime_dir : Bytes
  pub host : Bytes
  pub port : ℤ
  pub service_backend : Bytes
  pub core_version_seen : Bytes
  pub observed_at : ℕ
  pub container : Option ContainerMetadata

pub record State : Type 0 where
  pub version : ℤ
  pub installations : List Installation
  pub favorites : List Bytes
  pub recent_models : List Bytes

-- What the package takes from outside: `filepath.IsAbs`; the host of `net.SplitHostPort`, `none` for its
-- error; whether `net.ParseIP` gives a loopback address; `%q` and `%d` of `fmt`; `sha256.Sum256`; and
-- the stamp of `now`, of which every method takes at most one.
pub record Outside : Type 0 where
  pub is_abs : Bytes → Bool
  pub split_host : Bytes → Option Bytes
  pub is_loopback : Bytes → Bool
  pub quote : Bytes → String
  pub decimal : ℤ → String
  pub sha256 : Bytes → Bytes
  pub stamp : Bytes

abbrev pub validation_error : String → Err
validation_error message = new_error config_validation_failed user message

is_hex_digit : ℕ → Bool
is_hex_digit c = leb 48 c && leb c 57 || (leb 97 c && leb c 102 || leb 65 c && leb c 70)

-- `hex.DecodeString` of a string of even length has no error.
unfoldable pub is_hex : Bytes → Bool
unfolding is_hex_digit
is_hex [] = true
is_hex (c ∷ s) = is_hex_digit c && is_hex s

abbrev pub fingerprint_prefix : Bytes
fingerprint_prefix = codes "sha256:"

-- `strings.TrimPrefix`.
unfoldable pub trim_prefix : Bytes → Bytes → Bytes
trim_prefix s prefix = if has_prefix s prefix then drop (length prefix) s else s

-- The parts of a mask around its ellipsis.
abbrev pub are_short : List Bytes → Bool
are_short (front ∷ back ∷ []) = leb (rune_count front) 7 && leb (rune_count back) 4
are_short _ = false

unfoldable pub is_mask : Bytes → Bool
unfolding rune_count split_mask
is_mask masked = bytes_eq masked stars || are_short (split_mask masked)

module _ (o : Outside) where
  -- `path == "" || !filepath.IsAbs(path)` is false.
  abbrev pub is_path : Bytes → Bool
  is_path path = not (bytes_eq path []) && o.is_abs path

  -- `validateSecretReference`.
  unfoldable pub validate_secret_reference : SecretReference → Result (Unit {0})
  unfolding is_mask is_hex trim_prefix
  validate_secret_reference r =
      let digest = trim_prefix r.fingerprint fingerprint_prefix in
      if not (is_path r.path)
      then err (validation_error "secret reference path must be absolute")
      else if not (length digest == 64 && has_prefix r.fingerprint fingerprint_prefix)
      then err (validation_error "secret reference fingerprint must be a one-way sha256 reference")
      else if not (is_hex digest)
      then err
          (validation_error "secret reference fingerprint must contain a hexadecimal sha256 digest")
      else if bytes_eq r.masked []
      then err (validation_error "secret reference mask cannot be empty")
      else if not (is_mask r.masked)
      then err (
          validation_error
            "secret reference mask may contain at most the first seven and last four characters")
      else ok tt

  -- `strings.EqualFold(host, "localhost")`: the long s, U+017F, folds to s.
  unfoldable pub is_localhost : Bytes → Bool
  unfolding to_lower
  is_localhost host =
      bytes_eq (to_lower host) (codes "localhost")
      || bytes_eq (to_lower host) (108 ∷ 111 ∷ 99 ∷ 97 ∷ 108 ∷ 104 ∷ 111 ∷ 197 ∷ 191 ∷ 116 ∷ [])

  -- The endpoint, of which the host has been split off.
  unfoldable pub validate_host : Option Bytes → Result (Unit {0})
  unfolding is_localhost
  validate_host none = err (foreign "container endpoint must be a loopback host and port")
  validate_host (some host) =
      if bytes_eq host []
      then err (foreign "container endpoint must be a loopback host and port")
      else if not (is_localhost host) && not (o.is_loopback host)
      then err (foreign "container endpoint must be loopback")
      else ok tt

  -- `validateContainerMetadata`.
  unfoldable pub validate_container : Option ContainerMetadata → Result (Unit {0})
  unfolding validate_host trim_space
  validate_container none = err (foreign "container runtime, ID, and image are required")
  validate_container (some c) =
      if bytes_eq (trim_space c.runtime) []
        || (bytes_eq (trim_space c.id) [] || bytes_eq (trim_space c.image) [])
      then err (foreign "container runtime, ID, and image are required")
      else if not (bytes_eq c.config_mount []) && not (o.is_abs c.config_mount)
      then err (foreign "container config mount must be absolute")
      else validate_host (o.split_host c.endpoint)

  -- One round of the loop over the paths, which Go visits in any order.
  unfoldable pub validate_path : Bytes → String → Bytes → Result (Unit {0})
  validate_path id name path =
      if is_path path
      then ok tt
      else err (
          validation_error (
            concat "installation "
              (concat (o.quote id) (concat " " (concat name " path must be absolute")))))

  abbrev pub about_installation : Bytes → Result (Unit {0}) → Result (Unit {0})
  about_installation id (ok u) = ok u
  about_installation id (err e) = err (
      validation_error
        (concat "installation " (concat (o.quote id) (concat ": " (error_message e)))))

  -- The rest of a round of the loop of `validateState`, behind the checks of the ID.
  unfoldable pub validate_parts : Installation → Result (Unit {0})
  unfolding validate_container validate_path validate_secret_reference
  validate_parts i =
      if bytes_eq i.kind (codes "container")
      then about_installation i.id (validate_container i.container)
      else do
        validate_path i.id "binary" i.binary_path
        validate_path i.id "config" i.config_path
        validate_path i.id "auth" i.auth_dir
        validate_path i.id "runtime" i.runtime_dir
        validate_secret_reference i.proxy_key_ref

  -- The loop of `validateState`, with the IDs seen so far.
  unfoldable pub validate_each : List Bytes → List Installation → Result (Unit {0})
  unfolding validate_parts member
  validate_each seen [] = ok tt
  validate_each seen (i ∷ rest) =
      if bytes_eq i.id []
      then err (validation_error "installation ID cannot be empty")
      else if member i.id seen
      then err (validation_error "installation IDs must be unique")
      else validate_parts i >> validate_each (i.id ∷ seen) rest

  -- `validateState`.
  unfoldable pub validate_state : State → Result (Unit {0})
  unfolding validate_each
  validate_state s = validate_each [] s.installations

  -- The loop of `validateSecretReferences`.
  unfoldable pub validate_references : List (Bytes × SecretReference) → Result (Unit {0})
  unfolding validate_secret_reference trim_space
  validate_references [] = ok tt
  validate_references ((id, r) ∷ rest) =
      if bytes_eq (trim_space id) []
      then err (validation_error "secret reference installation ID cannot be empty")
      else validate_secret_reference r >> validate_references rest

  -- `validateSecretReferences`.
  unfoldable pub validate_secret_references : SecretReferences → Result (Unit {0})
  unfolding validate_references
  validate_secret_references s = validate_references s.management
