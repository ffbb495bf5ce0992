-- ===== src/Audit/Accept.antt =====
-- Which entries `Append` accepts, and what of a secret they show.
use mathlib.Core.List.{Memᴰ}
use pmux.Base.{
  ℕ, zero, ◌≡◌, ◌↔◌, refl, sym, ap, ◌∙◌, map, All, Bool, true, false, ◌||◌, some, List, [], ◌∷◌,
  ◌++◌, Bytes, bytes_eq, contains, if◌then◌else◌, has_prefix, Bool-cases, inl, inr, arith,
}
use pmux.Pmuxerr.{Result, ok, err, ◌>>◌}
use pmux.Redact.{known, redact_one, replace_all, redact_map}
use pmux.Redact.Known.{IsOpaque, known-removes_secrets}
use pmux.Files.{newline}
use pmux.Files.Quiet.{quiet, append-quiet}
use pmux.Audit.{
  Entry, Coding, Log, messages, is_result, sanitize_entry, validate_entry, encode_entry,
  append_payload, append_entry,
}

replace_all_nonempty :
    (secret : Bytes) (c : ℕ) (t : Bytes) → bytes_eq (replace_all zero secret (c ∷ t)) [] ≡ false
unfolding replace_all bytes_eq
replace_all_nonempty secret c t = elim (Bool-cases (has_prefix (c ∷ t) secret)) [
  | inl e ↦ rw (e, replace_all, bytes_eq)
  | inr e ↦ rw (e, replace_all, bytes_eq)
]

redact_one_empty : (secret t : Bytes) → bytes_eq (redact_one secret t) [] ≡ bytes_eq t []
redact_one_empty [] t = unfold redact_one in refl
redact_one_empty (d ∷ secret) [] = unfold redact_one replace_all in refl
redact_one_empty (d ∷ secret) (c ∷ t) =
    unfold redact_one in rw (replace_all_nonempty (d ∷ secret) c t) (unfold bytes_eq in refl)

-- Redaction empties no text.
known_empty : (t : Bytes) (secrets : List Bytes) → bytes_eq (known t secrets) [] ≡ bytes_eq t []
unfolding known
known_empty t [] = refl
known_empty t (s ∷ secrets) = rw (known_empty (redact_one s t) secrets) (redact_one_empty s t)

-- The entries that are complete as they are given to `Append`.
unfoldable pub is_complete : Entry → Bool
is_complete e =
    if bytes_eq e.operation [] || bytes_eq e.command [] || bytes_eq e.target []
    then false
    else is_result e.outcome

validate-sanitize_entry :
    (now : ℕ) (secrets : List Bytes) (e : Entry)
    → validate_entry (sanitize_entry now secrets e) ≡ validate_entry e
unfolding sanitize_entry validate_entry
validate-sanitize_entry now secrets e =
    rw
      (known_empty e.operation secrets, known_empty e.command secrets, known_empty e.target secrets)
      refl

validate_entry_iff : (e : Entry) → (validate_entry e ≡ ok tt) ↔ (is_complete e ≡ true)
unfolding validate_entry is_complete
validate_entry_iff e = ground arith

-- `json.Marshal` of an entry succeeds: its fields are strings, numbers, a map of strings and a time
-- of a year up to 9999.
abbrev pub IsTotal : Coding → Type 0
IsTotal c = (e : Entry) → (b : Bytes) × (c.encode e ≡ some b)

module _ (c : Coding) (total : IsTotal c) (now : ℕ) (e : Entry) (l : Log) where
  payload_written : (entry : Entry) → (append_payload quiet l (encode_entry c entry)).0 ≡ ok tt
  unfolding encode_entry append_payload
  payload_written entry =
      let (b, p) = total entry in
      rw (p, append_payload, encode_entry) (append-quiet messages (b ++ newline ∷ []) l.file)

  accepted :
      (entry : Entry) (v : Result (Unit {0}))
      → (append_payload quiet l (v >> encode_entry c entry)).0 ≡ ok tt
      → v ≡ ok tt
  unfolding append_payload
  accepted entry (ok u) h = refl
  accepted entry (err x) h = cc

  -- When no call fails and the encoding is total, `Append` succeeds exactly for the entries that
  -- name an operation, a command and a target and have a known result: redaction never makes a
  -- complete entry one that is refused.
  pub append_entry_accepts : ((append_entry c quiet now e l).0 ≡ ok tt) ↔ (is_complete e ≡ true)
  unfolding append_entry
  append_entry_accepts = (
    λ h. (validate_entry_iff e).0 (
        sym (validate-sanitize_entry now l.secrets e)
        ∙ accepted (sanitize_entry now l.secrets e) _ h),
    λ h.
        rw (validate-sanitize_entry now l.secrets e)
          (rw ((validate_entry_iff e).1 h) (payload_written (sanitize_entry now l.secrets e))),
  )

-- The names and the values of parameters, and the texts of an entry but the names.
abbrev pub names : List (Bytes × Bytes) → List Bytes
names params = map (λ p. p.0) params

abbrev pub values : List (Bytes × Bytes) → List Bytes
values params = map (λ p. p.1) params

abbrev pub texts : Entry → List Bytes
texts e = e.operation ∷ e.actor ∷ e.command ∷ e.target ∷ e.error_code ∷ values e.params

values_hide :
    (secrets : List Bytes) (s : Bytes)
    → IsOpaque s
    → Memᴰ s secrets
    → (params : List (Bytes × Bytes))
    → All (λ t. contains t s ≡ false) (values (map (λ p. (p.0, known p.1 secrets)) params))
values_hide secrets s o m [] = tt
values_hide secrets s o m ((k, v) ∷ params) =
    (known-removes_secrets v s secrets o m, values_hide secrets s o m params)

names_kept :
    (secrets : List Bytes) (params : List (Bytes × Bytes))
    → names (map (λ p. (p.0, known p.1 secrets)) (redact_map params)) ≡ names params
unfolding redact_map
names_kept secrets [] = refl
names_kept secrets ((k, v) ∷ params) = ap (λ (ks : List Bytes). k ∷ ks) (names_kept secrets params)

-- A secret that is opaque (see `IsOpaque`) and registered is in none of these texts of the entry that
-- `Append` writes: its operation, actor, command, target, error code and the values of its parameters.
-- The names of the parameters are those that were given, whatever they hold.
pub sanitize_entry-hides :
    (now : ℕ) (secrets : List Bytes) (e : Entry) (s : Bytes)
    → IsOpaque s
    → Memᴰ s secrets
    → All (λ t. contains t s ≡ false) (texts (sanitize_entry now secrets e))
      × (names (sanitize_entry now secrets e).params ≡ names e.params)
unfolding sanitize_entry
sanitize_entry-hides now secrets e s o m =
    let hides : (t : Bytes) → contains (known t secrets) s ≡ false =
      λ t. known-removes_secrets t s secrets o m in
    (
      (
        hides e.operation,
        (
          hides e.actor,
          (
            hides e.command,
            (hides e.target, (hides e.error_code, values_hide secrets s o m (redact_map e.params))),
          ),
        ),
      ),
      names_kept secrets e.params,
    )
