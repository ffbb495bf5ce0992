-- ===== src/Audit.antt =====
-- internal/audit/audit.go: the audit log, a file of JSON lines with one record for each mutation.
pub mod Reading
pub mod Accept
pub mod Wire
use pmux.Base.{
  ℕ, ◌+◌, Bool, true, false, ◌&&◌, ◌||◌, not, Option, none, some, List, [], ◌∷◌, ◌++◌, Bytes,
  String, ◌==◌, bytes_eq, if◌then◌else◌,
}
use pmux.Pmuxerr.{
  Result, ok, err, ◌>>=◌, ◌>>◌, Err, new_error, wrap, foreign, journal_corrupt, unhandled_internal,
  config_validation_failed, config_unreadable, config_insecure_permissions, internal, environment,
  user,
}
use pmux.Redact.{known}
use pmux.Files.{
  newline, File, Messages, AppendFaults, append, read_lines, check, contents, is_missing, and_then,
}
use pmux.Journal.{sanitize_map}

-- The strings of `Result`.
pub data Outcome : Type 0 where
  succeeded failed rolled_back : Outcome
  other_outcome : Bytes → Outcome

-- Times are nanoseconds since the zero time.
pub record Entry : Type 0 where
  pub version : ℕ
  pub timestamp : ℕ
  pub operation : Bytes
  pub actor : Bytes
  pub command : Bytes
  pub target : Bytes
  pub params : List (Bytes × Bytes)
  pub outcome : Outcome
  pub error_code : Bytes

abbrev pub record_version : ℕ
record_version = 1

-- `json.Marshal` of an entry, `none` its error, and `json.Unmarshal` of a line into a fresh entry.
pub record Coding : Type 0 where
  pub encode : Entry → Option Bytes
  pub decode : Bytes → Option Entry

-- `Log`: the file at its path, and the secrets that it knows.
pub record Log : Type 0 where
  pub file : File
  pub secrets : List Bytes

-- `RegisterKnownSecrets`, and `WithKnownSecrets` on a new log.
unfoldable pub register_known_secrets : List Bytes → Log → Log
register_known_secrets values l = record l { secrets = l.secrets ++ values }

abbrev pub messages : Messages
messages = record {
  trim_code = journal_corrupt;
  open_for_recovery = "could not open audit log for recovery";
  inspect = "could not inspect audit log for recovery";
  inspect_tail = "could not inspect audit log tail";
  scan_tail = "could not scan audit log tail";
  remove_torn = "could not remove torn audit record";
  flush_recovery = "could not flush audit recovery";
  append_code = config_unreadable;
  create_dir = "could not create audit directory";
  protect_dir = "could not protect audit directory";
  open_for_append = "could not open audit log for append";
  protect_file = "could not protect audit log";
  append_record = "could not append audit log";
  flush = "could not flush audit log";
  close = "could not close audit log";
  flush_dir = "could not flush audit directory";
}

-- Which system calls of `Prepare` fail.
pub record PrepareFaults : Type 0 where
  pub mkdir : Option Err
  pub chmod_dir : Option Err
  pub open_file : Option Err
  pub chmod : Option Err
  pub sync : Option Err
  pub close : Option Err
  pub sync_dir : Option Err

-- `Prepare` from the call of `Chmod` on the open file on.
unfoldable pub protect_and_flush : PrepareFaults → File → Result (Unit {0})
unfolding check
protect_and_flush f file = do
  check f.chmod config_insecure_permissions "could not protect audit log"
  check f.sync config_unreadable "could not flush audit log"
  check f.close config_unreadable "could not close audit log"
  if is_missing file
      then check f.sync_dir config_unreadable "could not flush audit directory"
      else ok tt

-- `Prepare`, on the file, which exists once it is open.
unfoldable pub prepare : PrepareFaults → File → Result (Unit {0}) × File
unfolding check protect_and_flush
prepare f file =
    and_then
      (check f.mkdir config_unreadable "could not create audit directory"
        >> check f.chmod_dir config_insecure_permissions "could not protect audit directory"
        >> check f.open_file config_unreadable "could not prepare audit log")
      file (protect_and_flush f file, some (contents file))

-- The entry that `Append` writes: dated, with the version, and redacted.
unfoldable pub sanitize_entry : ℕ → List Bytes → Entry → Entry
unfolding known sanitize_map
sanitize_entry now secrets e = record {
  version = record_version;
  timestamp = if e.timestamp == 0 then now else e.timestamp;
  operation = known e.operation secrets;
  actor = known e.actor secrets;
  command = known e.command secrets;
  target = known e.target secrets;
  params = sanitize_map e.params secrets;
  outcome = e.outcome;
  error_code = known e.error_code secrets;
}

-- The results that `Append` lets through.
unfoldable pub is_result : Outcome → Bool
is_result succeeded = true
is_result failed = true
is_result rolled_back = true
is_result (other_outcome _) = false

-- The checks of `Append` on an entry that is redacted.
unfoldable pub validate_entry : Entry → Result (Unit {0})
unfolding is_result
validate_entry e =
    if bytes_eq e.operation [] || bytes_eq e.command [] || bytes_eq e.target []
    then err (new_error config_validation_failed user "audit entry is missing required fields")
    else if is_result e.outcome
    then ok tt
    else err (new_error config_validation_failed user "audit entry has an invalid result")

-- `json.Marshal` of the entry and its newline.
unfoldable pub encode_entry : Coding → Entry → Result Bytes
encode_entry c e = elim (c.encode e) [
  | none ↦ err (
      wrap (foreign "json: unsupported value") unhandled_internal internal
        "could not encode audit record")
  | some payload ↦ ok (payload ++ newline ∷ [])
]

unfoldable pub append_payload : AppendFaults → Log → Result Bytes → Result (Unit {0}) × Log
unfolding append
append_payload f l (err e) = (err e, l)
append_payload f l (ok payload) =
    let (r, g) = append messages f payload l.file in (r, record l { file = g })

-- `Append`.
unfoldable pub append_entry : Coding → AppendFaults → ℕ → Entry → Log → Result (Unit {0}) × Log
unfolding sanitize_entry validate_entry encode_entry append_payload
append_entry c f now e l =
    let entry = sanitize_entry now l.secrets e in
    append_payload f l (validate_entry entry >> encode_entry c entry)

-- One line of the file.
unfoldable pub parse_entry : Coding → Bytes → Result Entry
parse_entry c line = elim (c.decode line) [
  | none ↦ err (
      wrap (foreign "invalid JSON") journal_corrupt internal "audit log contains an invalid record")
  | some e ↦
      if e.version == record_version
      then ok e
      else err (
          wrap (foreign "unsupported audit record version") journal_corrupt internal
            "audit log contains an invalid record")
]

unfoldable pub parse_entries : Coding → List Bytes → Result (List Entry)
unfolding parse_entry
parse_entries c [] = ok []
parse_entries c (line ∷ lines) =
    parse_entry c line >>= λ e. parse_entries c lines >>= λ entries. ok (e ∷ entries)

-- Which calls of `Entries` fail; a failing read has delivered some bytes before.
pub record ReadFaults : Type 0 where
  pub open_file : Option Err
  pub read : Option (ℕ × Err)

-- A read that fails in the middle: the unterminated rest is parsed too, and then the error returned.
unfoldable pub entries_broken : Coding → List Bytes × Bytes → Err → Result (List Entry)
unfolding parse_entries
entries_broken c (lines, rest) e = parse_entries c lines >>= λ _.
    (if bytes_eq rest [] then ok tt else parse_entry c rest >>= λ _. ok tt)
    >> err (wrap e journal_corrupt environment "could not read audit log")

-- `Entries`; at the end of the file an unterminated rest is skipped.
unfoldable pub entries : Coding → ReadFaults → File → Result (List Entry)
unfolding parse_entries entries_broken
entries c f none = ok []
entries c f (some file) = elim f.open_file [
  | some e ↦ err (wrap e config_unreadable environment "could not open audit log")
  | none ↦ elim f.read [
    | none ↦ parse_entries c (read_lines file).0
    | some (n, e) ↦ entries_broken c (read_lines (pmux.Base.take n file)) e
  ]
]
