-- ===== src/Fs.antt =====
-- internal/adapter/fs: private files that are replaced, created and appended to, and backups of them.
pub mod Frame
pub mod Writing
pub mod Creating
pub mod Pruning
use mathlib.Core.List.{reverse}
use pmux.Base.{
  ℕ, leb, Bool, true, false, not, ◌&&◌, ◌||◌, Option, none, some, List, [], ◌∷◌, ◌++◌, Bytes,
  String, codes, take, drop, length, contains, bytes_eq, has_prefix, if◌then◌else◌, ◌==◌,
}
use pmux.Base.Assoc.{lookup}
use pmux.Base.Sorting.{sort_by}
use pmux.Pmuxerr.{
  Result, ok, err, Err, new_error, wrap, environment, user, config_unreadable,
  config_mutation_conflict, config_validation_failed,
}
use pmux.Redact.{has_suffix}
use pmux.Files.{Messages, TrimFaults, File, trim_torn_tail}
use pmux.Journal.Store.{hex}
use pmux.State.Disk.{
  World, M, pure, fail, lift, ◌>>=◌, ◌>>◌, put, discard, call, attempt, unless_complete,
  left_behind, removed_or, remove_temporary, remove_file, slash, join, dir_of, base_of, names_in,
}

-- A call whose error is returned as it is.
abbrev pub unless_broken : Option (ℕ × Err) → M (Unit {0})
unless_broken none = pure tt
unless_broken (some (n, e)) = fail e

-- `protectPrivatePath` and `ProtectPrivateFile`; permissions are not modelled.
unfoldable pub protect : M (Unit {0})
unfolding call
protect = call >>= unless_broken

-- `EnsurePrivateDir`.
unfoldable pub ensure_private_dir : M (Unit {0})
unfolding attempt protect
ensure_private_dir = attempt config_unreadable "could not create private directory" >> protect

-- `AtomicWritePrivate` from the protection of the temporary file to the replacement.
unfoldable pub fill_temporary : M (Unit {0})
unfolding attempt protect
fill_temporary = do
  protect
  attempt config_unreadable "could not write private temporary file"
  attempt config_unreadable "could not flush private temporary file"
  attempt config_unreadable "could not close private temporary file"
  attempt config_mutation_conflict "could not atomically replace private file"

-- `AtomicWritePrivate`. Behind the replacement the deferred removal finds no temporary file.
unfoldable pub atomic_write_private : Bytes → Bytes → M (Unit {0})
unfolding attempt protect fill_temporary remove_temporary
atomic_write_private path payload = do
  attempt config_unreadable "could not create target directory"
  attempt config_unreadable "could not create private temporary file"
  unless_complete fill_temporary remove_temporary
  put path payload
  protect
  attempt config_unreadable "could not flush private directory"

-- `Write` to the new file, of which a failing call has written some bytes.
abbrev pub written : Bytes → Bytes → Option (ℕ × Err) → M (Unit {0})
written path payload none = put path payload
written path payload (some (n, e)) =
    put path (take n payload)
    >> fail (wrap e config_unreadable environment "could not write private file")

-- `WritePrivateExclusive` behind the creation.
unfoldable pub fill_private : Bytes → Bytes → M (Unit {0})
unfolding attempt protect call
fill_private path payload = do
  protect
  call >>= written path payload
  attempt config_unreadable "could not flush private file"
  attempt config_unreadable "could not close private file"
  protect
  attempt config_unreadable "could not flush private directory"

-- `OpenFile` with `O_CREATE|O_EXCL`, whose error on a file that is there has a message of its own.
abbrev pub refuse_existing : Bytes → Option Bytes → M (Unit {0})
refuse_existing path none = put path []
refuse_existing path (some old) = fail (
    new_error config_mutation_conflict environment
      "private file already exists; refusing to overwrite it")

abbrev pub create_private : Bytes → M (Unit {0})
create_private path w = refuse_existing path (lookup path w.files) w

-- `WritePrivateExclusive`.
unfoldable pub write_private_exclusive : Bytes → Bytes → M (Unit {0})
unfolding attempt ensure_private_dir fill_private remove_file
write_private_exclusive path payload = do
  ensure_private_dir
  attempt config_unreadable "could not create private file"
  create_private path
  unless_complete (fill_private path payload) (remove_file path)

abbrev pub bytes_of : Option Bytes → Bytes
bytes_of none = []
bytes_of (some file) = file

abbrev pub appended : Bytes → Bytes → Bytes → Option (ℕ × Err) → M (Unit {0})
appended path old payload none = put path (old ++ payload)
appended path old payload (some (n, e)) =
    put path (old ++ take n payload)
    >> fail (wrap e config_unreadable environment "could not append private record")

abbrev pub is_created : Option Bytes → Option (ℕ × Err) → Bool
is_created none none = true
is_created _ _ = false

-- `AppendPrivate` behind the call of `Stat`, on the file that is there.
unfoldable pub append_to : Bytes → Bytes → Option Bytes → Bool → M (Unit {0})
unfolding attempt protect call
append_to path payload file created = do
  attempt config_unreadable "could not open private append-only file"
  put path (bytes_of file)
  protect
  call >>= appended path (bytes_of file) payload
  attempt config_unreadable "could not flush private append-only file"
  attempt config_unreadable "could not close private append-only file"
  if created
      then attempt config_unreadable "could not flush private append-only directory"
      else pure tt

abbrev pub append_now : Bytes → Bytes → Option (ℕ × Err) → M (Unit {0})
append_now path payload stat w =
    append_to path payload (lookup path w.files) (is_created (lookup path w.files) stat) w

-- `AppendPrivate`; `Stat` says that the file is missing if it is and the call does not fail.
unfoldable pub append_private : Bytes → Bytes → M (Unit {0})
unfolding ensure_private_dir append_to call
append_private path payload = ensure_private_dir >> (call >>= append_now path payload)

abbrev pub messages : Messages
messages = record {
  trim_code = config_unreadable;
  open_for_recovery = "could not open append-only file for crash recovery";
  inspect = "could not inspect append-only file for crash recovery";
  inspect_tail = "could not inspect append-only tail";
  scan_tail = "could not scan append-only tail";
  remove_torn = "could not remove torn append-only record";
  flush_recovery = "could not flush append-only crash recovery";
  append_code = config_unreadable;
  create_dir = "could not create private directory";
  protect_dir = "";
  open_for_append = "could not open private append-only file";
  protect_file = "";
  append_record = "could not append private record";
  flush = "could not flush private append-only file";
  close = "could not close private append-only file";
  flush_dir = "could not flush private append-only directory";
}

-- `TrimPartialLine`, which scans as `trimTornTail` of the journal does.
unfoldable pub trim_partial_line : TrimFaults → File → Result (Unit {0}) × File
unfolding trim_torn_tail
trim_partial_line = trim_torn_tail messages

-- `Backups`, with what it takes from outside: `filepath.IsAbs`, SHA-256 and the stamp of `now`.
pub record Backups : Type 0 where
  pub root : Bytes
  pub keep : ℕ
  pub sha256 : Bytes → Bytes
  pub stamp : Bytes

abbrev pub default_backup_retention : ℕ
default_backup_retention = 10

-- `NewBackups` of a retention that is not negative.
unfoldable pub new_backups : (Bytes → Bool) → (Bytes → Bytes) → Bytes → Bytes → ℕ → Result Backups
new_backups is_abs sha256 stamp root keep =
    if bytes_eq root [] || not (is_abs root)
    then err (new_error config_validation_failed user "backup root must be absolute")
    else ok (record {
      root = root;
      keep = if keep == 0 then default_backup_retention else keep;
      sha256 = sha256;
      stamp = stamp;
    })

-- `filepath.Base(value) == value`, of a value that is neither empty nor a root, and no separator in it.
unfoldable pub is_component : Bytes → Bool
is_component value = not (
    bytes_eq value []
    || bytes_eq value (codes ".")
    || bytes_eq value (codes "..")
    || contains value (slash ∷ [])
    || contains value (92 ∷ []))

-- `validComponent`.
unfoldable pub valid_component : Bytes → Result (Unit {0})
unfolding is_component
valid_component value =
    if not (is_component value)
    then err
        (new_error config_validation_failed user "backup name contains an invalid path component")
    else ok tt

-- The path of `Create`.
unfoldable pub backup_path : Backups → Bytes → Bytes → Bytes → Bytes
unfolding hex
backup_path b instance_id base payload = join (join b.root instance_id) (
    base
    ++ (codes "." ++ (b.stamp ++ (codes "." ++ (hex (take 4 (b.sha256 payload)) ++ codes ".bak")))))

-- `Backups.Create`.
unfoldable pub create : Backups → Bytes → Bytes → Bytes → M Bytes
unfolding valid_component backup_path write_private_exclusive
create b instance_id base payload = do
  lift (valid_component instance_id)
  lift (valid_component base)
  write_private_exclusive (backup_path b instance_id base payload) payload
  pure (backup_path b instance_id base payload)

unfoldable pub is_backup : Bytes → Bytes → Bool
unfolding has_suffix
is_backup base name = has_prefix name (base ++ codes ".") && has_suffix name (codes ".bak")

unfoldable pub select_names : Bytes → List Bytes → List Bytes
unfolding is_backup
select_names base [] = []
select_names base (name ∷ names) =
    let rest = select_names base names in if is_backup base name then name ∷ rest else rest

-- The names of the backups, the greatest first.
unfoldable pub listed_names : Backups → Bytes → Bytes → List (Bytes × Bytes) → List Bytes
unfolding names_in select_names sort_by
listed_names b instance_id base files =
    reverse (sort_by (λ name. name) (select_names base (names_in (join b.root instance_id) files)))

abbrev pub list_now : Backups → Bytes → Bytes → M (List Bytes)
list_now b instance_id base w = (ok (listed_names b instance_id base w.files), w)

-- `Backups.List`, by the names of the files in the directory.
unfoldable pub list : Backups → Bytes → Bytes → M (List Bytes)
unfolding valid_component attempt listed_names
list b instance_id base = do
  lift (valid_component instance_id)
  lift (valid_component base)
  attempt config_unreadable "could not list backups"
  list_now b instance_id base

-- A result and the names that were removed, which `Prune` returns beside an error too.
abbrev pub Removal : Type 0
Removal = Result (Unit {0}) × List Bytes

abbrev pub with_first : Bytes → Removal × World → Removal × World
with_first name ((r, removed), w) = ((r, name ∷ removed), w)

abbrev pub removed_next : Result (Unit {0}) × World → Removal × World → Removal × World
removed_next (err e, w) next = ((err e, []), w)
removed_next (ok u, w) next = next

-- The loop of `Prune`.
unfoldable pub remove_listed : Bytes → List Bytes → World → Removal × World
unfolding attempt
remove_listed dir [] w = ((ok tt, []), w)
remove_listed dir (name ∷ names) w =
    let x = attempt config_unreadable "could not prune old backup" w in
    removed_next x (with_first name (remove_listed dir names (discard (join dir name) x.1).1))

unfoldable pub flush_removed : Removal × World → Removal × World
unfolding attempt
flush_removed ((err e, removed), w) = ((err e, removed), w)
flush_removed ((ok u, []), w) = ((ok u, []), w)
flush_removed ((ok u, name ∷ removed), w) =
    let x = attempt config_unreadable "could not flush backup retention" w in
    ((x.0, name ∷ removed), x.1)

unfoldable pub prune_listed : Backups → Bytes → Result (List Bytes) × World → Removal × World
unfolding remove_listed flush_removed
prune_listed b dir (err e, w) = ((err e, []), w)
prune_listed b dir (ok names, w) =
    if leb (length names) b.keep
    then ((ok tt, []), w)
    else flush_removed (remove_listed dir (drop b.keep names) w)

-- `Backups.Prune`.
unfoldable pub prune : Backups → Bytes → Bytes → World → Removal × World
unfolding list prune_listed
prune b instance_id base w = prune_listed b (join b.root instance_id) (list b instance_id base w)
