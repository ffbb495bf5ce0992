-- ===== src/State/Store.antt =====
-- internal/state/store.go and internal/state/recovery.go: the methods of `Store`.
use Prim.Native.String.{◌++◌ as concat}
use pmux.Base.{
  ℕ, Bool, true, false, Option, none, some, List, [], ◌∷◌, ◌++◌, Bytes, String, codes, take,
  text_of, if◌then◌else◌,
}
use pmux.Base.Assoc.{lookup}
use pmux.Base.Int.{ℤ, pos, is_nat, exceeds}
use pmux.Pmuxerr.{
  Result, ok, err, Err, fields, typed, wrap, foreign, environment, internal, config_unreadable,
  config_mutation_conflict, unhandled_internal, document_corrupt, recovery_needed, typed_with,
  joined,
}
use pmux.Files.{newline}
use pmux.Journal.Store.{hex}
use pmux.State.{Outside}
use pmux.State.Disk.{
  Notice, World, M, pure, fail, lift, ◌>>=◌, ◌>>◌, call, attempt, base_of, join,
  document_backup_dir, write_bytes, write_exclusive_private, list_backups, prune_document_backups,
}

-- What is behind the first value of a text: nothing but white space, another value, or an error.
pub data Rest : Type 0 where
  end_of_text another : Rest
  broken : Err → Rest

-- What a decoder makes of a text: an error, a value that has not ended, or a value and the rest.
pub data Decoded (V : Type 0) : Type 0 where
  bad : Err → Decoded V
  unfinished : Decoded V
  value : V → Rest → Decoded V

-- `encoding/json` on one type: `json.MarshalIndent`, `none` its error; `Decoder.Decode` into a value
-- that holds something already; and the error of `json.Unmarshal` into an `any`.
pub record Codec (V : Type 0) : Type 0 where
  pub encode : V → Option Bytes
  pub decode : V → Bytes → Decoded V
  pub check_any : Bytes → Option Err

-- A kind of document: its name, its path, the zero value, the fields `Version`, and its checks.
pub record Document (V : Type 0) : Type 0 where
  pub codec : Codec V
  pub kind : Bytes
  pub path : Bytes
  pub zero_value : V
  pub version : V → ℤ
  pub set_version : ℤ → V → V
  pub validate : V → Result (Unit {0})

abbrev pub schema_version : ℕ
schema_version = 1

-- `checkVersion`.
unfoldable pub check_version : Outside → Bytes → ℤ → Result (Unit {0})
check_version o kind version =
    if is_nat version schema_version
    then ok tt
    else if exceeds version schema_version
    then err (
        typed (
          fields config_unreadable environment (
            concat "pmux " (
              concat (text_of kind) (
                concat " was written by a newer PMux (version " (
                  concat (o.decimal version) (
                    concat "; this binary understands "
                      (concat (o.decimal (pos schema_version)) ")"))))))))
    else err (
        typed (
          fields config_unreadable environment (
            concat "pmux " (
              concat (text_of kind)
                (concat " has unsupported schema version " (o.decimal version))))))

-- `errors.As(err, &target)` with a `documentCorruptError`.
unfoldable pub is_document_corrupt : Err → Bool
is_document_corrupt (document_corrupt e) = true
is_document_corrupt (typed_with f c) = is_document_corrupt c
is_document_corrupt (recovery_needed kind path cause) = is_document_corrupt cause
is_document_corrupt (joined a b) =
    let rest = is_document_corrupt b in if is_document_corrupt a then true else rest
is_document_corrupt _ = false

abbrev pub corrupt : Err → String → Err
corrupt e message = document_corrupt (wrap e config_unreadable environment message)

abbrev pub invalid_json : String
invalid_json = "PMux state contains invalid JSON"

abbrev pub trailing_data : String
trailing_data = "PMux state contains trailing data"

-- Where the text ends: at its end, or where a read has failed.
abbrev pub ended_with : Err → Option Err → Err
ended_with e none = e
ended_with e (some failure) = failure

abbrev pub after_value : {V : Type 0} → V → Rest → Option Err → Result V
after_value v end_of_text none = ok v
after_value v end_of_text (some failure) = err (corrupt failure trailing_data)
after_value v another failure = err (corrupt (foreign "multiple JSON values") trailing_data)
after_value v (broken e) failure = err (corrupt e trailing_data)

-- The two calls of `Decode` in `readJSON`.
abbrev pub decoded : {V : Type 0} → Decoded V → Option Err → Result V
decoded (bad e) failure = err (corrupt e invalid_json)
decoded unfinished failure =
    err (corrupt (ended_with (foreign "unexpected EOF") failure) invalid_json)
decoded (value v rest) failure = after_value v rest failure

-- `json.Unmarshal`, which wants a text of one value.
abbrev pub unmarshalled : {V : Type 0} → Decoded V → Result V
unmarshalled (bad e) = err e
unmarshalled unfinished = err (foreign "unexpected end of JSON input")
unmarshalled (value v end_of_text) = ok v
unmarshalled (value v another) = err (foreign "invalid character after top-level value")
unmarshalled (value v (broken e)) = err e

abbrev pub content_at : Bytes → M (Option Bytes)
content_at path w = (ok (lookup path w.files), w)

-- `16<<20`.
unfoldable pub read_limit : ℕ
read_limit = 16777216

-- What the limited reader gives, and the error of a read that fails.
abbrev pub delivered : Option (ℕ × Err) → Bytes → Bytes
delivered none text = text
delivered (some (n, e)) text = take n text

abbrev pub failure_of : Option (ℕ × Err) → Option Err
failure_of none = none
failure_of (some (n, e)) = some e

-- `os.ReadFile` of a file that is there.
abbrev pub whole : Option Bytes → Option (ℕ × Err) → Result Bytes
whole content (some (n, e)) = err e
whole none none = err (foreign "file does not exist")
whole (some payload) none = ok payload

unfoldable pub read_file : Bytes → M Bytes
unfolding call
read_file path = call >>= λ outcome. content_at path >>= λ content. lift (whole content outcome)

module _ (o : Outside) where
  -- `sha8`.
  unfoldable pub sha8 : Bytes → Bytes
  unfolding hex
  sha8 payload = hex (take 4 (o.sha256 payload))

  -- The path of a backup of these bytes.
  unfoldable pub backup_path : Bytes → Bytes → Bytes
  unfolding base_of document_backup_dir sha8
  backup_path path payload =
      join (document_backup_dir path)
        (base_of path ++ (codes "." ++ (o.stamp ++ (codes "." ++ (sha8 payload ++ codes ".bak")))))

  unfoldable pub artifact_path : Bytes → Bytes → Bytes
  unfolding sha8
  artifact_path path payload =
      path ++ (codes ".corrupt." ++ (o.stamp ++ (codes "." ++ sha8 payload)))

  -- `preserveCorrupt`.
  unfoldable pub preserve_corrupt : Bytes → M Bytes
  unfolding read_file artifact_path write_exclusive_private
  preserve_corrupt path = do
    payload ← read_file path
    write_exclusive_private (artifact_path path payload) payload
    pure (artifact_path path payload)

abbrev pub with_failure : Option (ℕ × Err) → Bytes → Bytes × Option Err
with_failure outcome text = (delivered outcome text, failure_of outcome)

module _ {V : Type 0} (o : Outside) (d : Document V) where
  -- `validateConfigBytes` and `validateStateBytes`.
  unfoldable pub validate_value : Result V → Result (Unit {0})
  unfolding check_version
  validate_value (err e) = err e
  validate_value (ok v) = elim (check_version o d.kind (d.version v)) [
    | err e ↦ err e
    | ok u ↦ d.validate v
  ]

  unfoldable pub validate_bytes : Bytes → Result (Unit {0})
  unfolding validate_value
  validate_bytes payload = validate_value (unmarshalled (d.codec.decode d.zero_value payload))

  -- `readJSON` behind the call of `Open`, into a value that holds something already.
  unfoldable pub read_opened : V → Option Bytes → M (Option V)
  unfolding attempt call read_limit
  read_opened start none = pure none
  read_opened start (some payload) = do
    attempt config_unreadable "could not inspect PMux state"
    outcome ← call
    v ← lift (
        decoded (d.codec.decode start (delivered outcome (take read_limit payload)))
          (failure_of outcome))
    pure (some v)

  -- `readJSON`; `none` where there is no file.
  unfoldable pub read_json : V → M (Option V)
  unfolding attempt read_opened
  read_json start = do
    attempt config_unreadable "could not open PMux state"
    content ← content_at d.path
    read_opened start content

  unfoldable pub write_encoded : Option Bytes → M (Unit {0})
  unfolding write_bytes
  write_encoded none = fail (
      wrap (foreign "json: unsupported value") unhandled_internal internal
        "could not encode PMux state")
  write_encoded (some payload) = write_bytes d.path (payload ++ newline ∷ [])

  -- `writeJSON`.
  unfoldable pub write_json : V → M (Unit {0})
  unfolding write_encoded
  write_json v = write_encoded (d.codec.encode v)

  abbrev pub or_refuse : Result (Unit {0}) → Result (Unit {0})
  or_refuse (ok u) = ok u
  or_refuse (err e) = err (
      wrap e config_mutation_conflict environment
        "existing PMux state is invalid; refusing to replace it before recovery")

  unfoldable pub back_up : Option Bytes → M (Unit {0})
  unfolding validate_bytes write_exclusive_private backup_path
  back_up none = pure tt
  back_up (some payload) =
      lift (or_refuse (validate_bytes payload))
      >> write_exclusive_private (backup_path o d.path payload) payload

  -- `backupCurrent`.
  unfoldable pub backup_current : M (Unit {0})
  unfolding attempt back_up
  backup_current = do
    attempt config_unreadable "could not read PMux state before backup"
    content ← content_at d.path
    back_up content

  -- `SaveState`; `SaveConfig` is the same without a validation.
  unfoldable pub save_document : V → M (Unit {0})
  unfolding backup_current write_json prune_document_backups
  save_document v =
      let dated = d.set_version (pos schema_version) v in
      lift (d.validate dated)
      >> (backup_current >> (write_json dated >> prune_document_backups d.path))

  -- Whether a round of the loop of `latestValidBackup` has found its backup.
  abbrev pub usable : Result Bytes → Option Bytes
  usable (err e) = none
  usable (ok payload) = elim (validate_bytes payload) [ err e ↦ none | ok u ↦ some payload ]

  abbrev pub found_or :
      Bytes → M (Option (Bytes × Bytes)) → Option Bytes → M (Option (Bytes × Bytes))
  found_or backup next none = next
  found_or backup next (some payload) = pure (some (payload, backup))

  unfoldable pub first_valid : List Bytes → M (Option (Bytes × Bytes))
  unfolding call validate_bytes document_backup_dir
  first_valid [] = pure none
  first_valid (name ∷ names) =
      let backup = join (document_backup_dir d.path) name in
      let next = first_valid names in
      call >>= λ outcome.
      content_at backup >>= λ content. found_or backup next (usable (whole content outcome))

  -- `latestValidBackup`: the bytes and the path.
  unfoldable pub latest_valid_backup : M (Option (Bytes × Bytes))
  unfolding list_backups first_valid
  latest_valid_backup = list_backups "could not list PMux state backups" d.path >>= first_valid

  abbrev pub value_or_zero : Option V → V
  value_or_zero none = d.zero_value
  value_or_zero (some v) = v

  abbrev valid_any : Option Err → Result (Unit {0})
  valid_any none = ok tt
  valid_any (some e) = err e

  -- `writeRawJSON`.
  unfoldable pub write_raw_json : Bytes → M (Unit {0})
  unfolding write_bytes
  write_raw_json payload =
      lift (valid_any (d.codec.check_any payload)) >> write_bytes d.path payload

abbrev pub notify : Notice → M (Unit {0})
notify notice w = (ok tt, record w { notices = w.notices ++ notice ∷ [] })

abbrev pub restored_message : Bytes → Bytes → Bytes → Bytes
restored_message kind backup artifact =
    codes "pmux "
    ++ (kind
        ++ (codes " was corrupt and restored from backup "
            ++ (backup ++ (codes ". The corrupt file was saved as " ++ (artifact ++ codes ".")))))

abbrev pub restored_notice : Bytes → Bytes → Bytes → Notice
restored_notice kind backup artifact = record {
  kind = kind;
  corrupt_path = artifact;
  backup_path = backup;
  message = restored_message kind backup artifact;
}

-- `RecoveryNeeded` without its cause.
pub record Recovery : Type 0 where
  pub kind : Bytes
  pub corrupt_path : Bytes

module _ {V : Type 0} (o : Outside) (d : Document V) (check : V → Result (Unit {0})) where
  -- `recoverConfig` and `recoverState` with what `latestValidBackup` has found.
  unfoldable pub restore : Err → Bytes → Option (Bytes × Bytes) → M V
  unfolding write_raw_json read_json
  restore cause artifact none = fail (recovery_needed d.kind artifact cause)
  restore cause artifact (some (payload, backup)) = do
    write_raw_json o d payload
    read ← read_json o d d.zero_value
    let v = value_or_zero o d read
    lift (check v)
    notify (restored_notice d.kind backup artifact)
    pure v

  -- `recoverConfig` and `recoverState`, which differ in the kind and in their last check.
  unfoldable pub recover_document : Err → M V
  unfolding preserve_corrupt latest_valid_backup restore
  recover_document cause = do
    artifact ← preserve_corrupt o d.path
    found ← latest_valid_backup o d
    restore cause artifact found

  unfoldable pub or_recover : Err → M V
  unfolding is_document_corrupt recover_document
  or_recover e = if is_document_corrupt e then recover_document e else fail e

  abbrev pub unless_invalid : V → Result (Unit {0}) → M V
  unless_invalid v (ok u) = pure v
  unless_invalid v (err e) = recover_document e

  -- `LoadState` behind the call of `readJSON`.
  unfoldable pub loaded : Result (Option V) × World → Result V × World
  unfolding or_recover check_version recover_document
  loaded (err e, w) = or_recover e w
  loaded (ok none, w) = (ok (d.set_version (pos schema_version) d.zero_value), w)
  loaded (ok (some v), w) =
      (lift (check_version o d.kind (d.version v)) >> unless_invalid v (d.validate v)) w

  -- `LoadState`; `LoadConfig` is the same without a validation.
  unfoldable pub load_document : M V
  unfolding read_json loaded
  load_document w = loaded (read_json o d (d.set_version (pos schema_version) d.zero_value) w)
