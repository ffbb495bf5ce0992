-- ===== src/Redact.antt =====
-- internal/redact/redact.go: masking of sensitive values and removal of known secrets.
pub mod Known
pub mod Masking
use pmux.Base.{
  Bytes, Bool, true, false, ◌||◌, ◌&&◌, List, [], ◌∷◌, ◌++◌, ℕ, zero, suc, ◌+◌, ◌-◌, leb, length,
  take, drop, codes, bytes_eq, has_prefix, contains, if◌then◌else◌, ◌==◌, map,
}
use mathlib.Core.List.{reverse}

-- `unicode.IsSpace` on a byte.
is_space : ℕ → Bool
is_space c = c == 32 || (leb 9 c && leb c 13)

trim_left : Bytes → Bytes
trim_left [] = []
trim_left (c ∷ s) = let rest = trim_left s in if is_space c then rest else c ∷ s

-- `strings.TrimSpace` on ASCII text.
unfoldable pub trim_space : Bytes → Bytes
unfolding trim_left is_space
trim_space s = reverse (trim_left (reverse (trim_left s)))

to_lower_byte : ℕ → ℕ
to_lower_byte c = if leb 65 c && leb c 90 then c + 32 else c

-- `strings.ToLower` on ASCII text.
unfoldable pub to_lower : Bytes → Bytes
unfolding to_lower_byte
to_lower = map to_lower_byte

unfoldable pub has_suffix : Bytes → Bytes → Bool
has_suffix t s = has_prefix (reverse t) (reverse s)

abbrev sensitive_keys : List Bytes
sensitive_keys =
    codes "authorization"
    ∷ codes "x-management-key"
    ∷ codes "api-key"
    ∷ codes "api_key"
    ∷ codes "token"
    ∷ codes "access_token"
    ∷ codes "refresh_token"
    ∷ codes "client_secret"
    ∷ codes "private_key"
    ∷ codes "anthropic_auth_token"
    ∷ codes "password"
    ∷ codes "secret"
    ∷ []

unfoldable pub member : Bytes → List Bytes → Bool
member k [] = false
member k (j ∷ js) = bytes_eq j k || member k js

unfoldable pub is_sensitive_key : Bytes → Bool
unfolding to_lower trim_space member has_suffix
is_sensitive_key key =
    let k = to_lower (trim_space key) in
    member k sensitive_keys
    || has_suffix k (codes "_key")
    || has_suffix k (codes "-key")
    || has_suffix k (codes "_token")
    || has_suffix k (codes "-token")
    || has_suffix k (codes "_secret")
    || has_suffix k (codes "-secret")

abbrev pub stars : Bytes
stars = codes "********"

-- The bytes of `…` in UTF-8.
abbrev pub ellipsis : Bytes
ellipsis = 226 ∷ 128 ∷ 166 ∷ []

unfoldable pub mask : Bytes → Bytes
mask [] = []
mask value =
    if leb (length value) 11
    then stars
    else take 7 value ++ (ellipsis ++ drop (length value - 4) value)

abbrev pub redacted : Bytes
redacted = codes "<redacted>"

-- `strings.ReplaceAll text secret "<redacted>"`: `skip` counts the bytes of a match still to drop.
unfoldable pub replace_all : ℕ → Bytes → Bytes → Bytes
replace_all skip secret [] = []
replace_all (suc skip) secret (c ∷ text) = replace_all skip secret text
replace_all zero secret (c ∷ text) = elim (has_prefix (c ∷ text) secret) [
  | true ↦ redacted ++ replace_all (length secret - 1) secret text
  | false ↦ c ∷ replace_all zero secret text
]

-- One round of the loop of `Known`.
unfoldable pub redact_one : Bytes → Bytes → Bytes
unfolding replace_all
redact_one [] text = text
redact_one secret text = replace_all zero secret text

unfoldable pub known : Bytes → List Bytes → Bytes
unfolding redact_one
known text [] = text
known text (secret ∷ secrets) = known (redact_one secret text) secrets

-- `Map`; a Go map is an association list, and its keys stay as they are.
unfoldable pub redact_map : List (Bytes × Bytes) → List (Bytes × Bytes)
unfolding mask is_sensitive_key
redact_map [] = []
redact_map ((key, value) ∷ values) =
    (key, if is_sensitive_key key then mask value else value) ∷ redact_map values
