-- ===== src/State/Disk.antt =====
-- The files of internal/state/store.go, and the calls of the system that read and write them.
use mathlib.Core.List.{reverse}
use pmux.Base.{
  ℕ, ◌-◌, ltb, Bool, true, false, ◌&&◌, Option, none, some, List, [], ◌∷◌, ◌++◌, Bytes, String,
  codes, take, drop, length, has_prefix, if◌then◌else◌, ◌==◌,
}
use pmux.Base.Assoc.{lookup, insert, remove}
use pmux.Base.Sorting.{sort_by}
use pmux.Pmuxerr.{
  Result, ok, err, Err, Code, wrap, foreign, environment, config_unreadable,
  config_insecure_permissions, config_mutation_conflict,
}
use pmux.Redact.{has_suffix}

-- `RecoveryNotice`.
pub record Notice : Type 0 where
  pub kind : Bytes
  pub corrupt_path : Bytes
  pub backup_path : Bytes
  pub message : Bytes

-- The regular files by their paths, the notices of the `Store`, how many temporary files have been left
-- behind, and the outcomes of the calls to come: `none` for success, else the error, and how many
-- bytes a failing read or write had moved. When the list is at its end, every further call succeeds.
pub record World : Type 0 where
  pub files : List (Bytes × Bytes)
  pub notices : List Notice
  pub leftovers : ℕ
  pub outcomes : List (Option (ℕ × Err))

abbrev pub M {ℓ} : Type ℓ → Type ℓ
M V = World → Result V × World

abbrev pub pure {ℓ} : {V : Type ℓ} → V → M V
pure v w = (ok v, w)

abbrev pub fail {ℓ} : {V : Type ℓ} → Err → M V
fail e w = (err e, w)

-- An error ends the method; what was written before stays written.
abbrev pub then_run {ℓ κ} :
    {V : Type ℓ} {W : Type κ} → (V → M W) → Result V × World → Result W × World
then_run next (ok v, w) = next v w
then_run next (err e, w) = (err e, w)

infixl 5 ◌>>=◌ ◌>>◌
abbrev pub ◌>>=◌ {ℓ κ} : {V : Type ℓ} {W : Type κ} → M V → (V → M W) → M W
◌>>=◌ first next w = then_run next (first w)

abbrev pub ◌>>◌ {ℓ} : {W : Type ℓ} → M (Unit {0}) → M W → M W
first >> next = first >>= λ _. next

-- A result that no call decides.
abbrev pub lift {ℓ} : {V : Type ℓ} → Result V → M V
lift r w = (r, w)

abbrev pub put : Bytes → Bytes → M (Unit {0})
put path payload w = (ok tt, record w { files = insert path payload w.files })

abbrev pub discard : Bytes → M (Unit {0})
discard path w = (ok tt, record w { files = remove path w.files })

-- A call of the system: its outcome is the next of the list.
abbrev pub next_outcome : List (Option (ℕ × Err)) → Option (ℕ × Err)
next_outcome [] = none
next_outcome (outcome ∷ rest) = outcome

abbrev pub later_outcomes : List (Option (ℕ × Err)) → List (Option (ℕ × Err))
later_outcomes [] = []
later_outcomes (outcome ∷ rest) = rest

unfoldable pub call : M (Option (ℕ × Err))
call w = (ok (next_outcome w.outcomes), record w { outcomes = later_outcomes w.outcomes })

abbrev pub unless_failed : Code → String → Option (ℕ × Err) → M (Unit {0})
unless_failed code message none = pure tt
unless_failed code message (some (n, e)) = fail (wrap e code environment message)

-- A call behind which stands `if err != nil { return pmuxerr.Wrap(err, code, Environment, message) }`.
unfoldable pub attempt : Code → String → M (Unit {0})
unfolding call
attempt code message = call >>= unless_failed code message

-- The deferred function: without success it cleans up, and the error stays.
abbrev pub or_else : M (Unit {0}) → Result (Unit {0}) × World → Result (Unit {0}) × World
or_else clean (ok u, w) = (ok u, w)
or_else clean (err e, w) = (err e, (clean w).1)

abbrev pub unless_complete : M (Unit {0}) → M (Unit {0}) → M (Unit {0})
unless_complete body clean w = or_else clean (body w)

-- The directory and the name of a clean absolute path, `filepath.Dir` and `filepath.Base`; the root is
-- the empty text, so that `join` is `filepath.Join` of clean paths.
abbrev pub slash : ℕ
slash = 47

unfoldable pub before_slash : Bytes → Bytes
before_slash [] = []
before_slash (c ∷ s) = let rest = before_slash s in if c == slash then s else rest

unfoldable pub until_slash : Bytes → Bytes
until_slash [] = []
until_slash (c ∷ s) = let rest = until_slash s in if c == slash then [] else c ∷ rest

unfoldable pub dir_of : Bytes → Bytes
unfolding before_slash
dir_of path = reverse (before_slash (reverse path))

unfoldable pub base_of : Bytes → Bytes
unfolding until_slash
base_of path = reverse (until_slash (reverse path))

abbrev pub join : Bytes → Bytes → Bytes
join dir name = dir ++ slash ∷ name

-- `documentBackupDir`.
unfoldable pub document_backup_dir : Bytes → Bytes
unfolding dir_of
document_backup_dir path = join (join (dir_of path) (codes "backups")) (codes "pmux")

-- A removal whose error is ignored; `clean` is done where it succeeds, and `kept` where it fails.
abbrev pub removed_or : M (Unit {0}) → M (Unit {0}) → Option (ℕ × Err) → M (Unit {0})
removed_or clean kept none = clean
removed_or clean kept (some failure) = kept

abbrev pub left_behind : M (Unit {0})
left_behind w = (ok tt, record w { leftovers = pmux.Base.suc w.leftovers })

-- `os.Remove` of the temporary file, which stays if it fails.
unfoldable pub remove_temporary : M (Unit {0})
unfolding call
remove_temporary = call >>= removed_or (pure tt) left_behind

-- From `Chmod` of the temporary file to its replacement of the file at the path.
unfoldable pub fill_temporary : M (Unit {0})
unfolding attempt
fill_temporary = do
  attempt config_insecure_permissions "could not protect temporary PMux state"
  attempt config_unreadable "could not write temporary PMux state"
  attempt config_unreadable "could not flush temporary PMux state"
  attempt config_unreadable "could not close temporary PMux state"
  attempt config_mutation_conflict "could not atomically replace PMux state"

-- `writeBytes`. Once the temporary file has taken the place of the old one, the deferred removal finds
-- nothing. Nothing reads a temporary file, so its bytes are not kept.
unfoldable pub write_bytes : Bytes → Bytes → M (Unit {0})
unfolding attempt fill_temporary remove_temporary
write_bytes path payload = do
  attempt config_unreadable "could not create PMux state directory"
  attempt config_insecure_permissions "could not protect PMux state directory"
  attempt config_unreadable "could not create temporary PMux state"
  unless_complete fill_temporary remove_temporary
  put path payload
  attempt config_unreadable "could not flush PMux state directory"

-- `Write` to a file that has just been created, of which a failing call has written some bytes.
abbrev pub written : Bytes → Bytes → Option (ℕ × Err) → M (Unit {0})
written path payload none = put path payload
written path payload (some (n, e)) =
    put path (take n payload)
    >> fail (wrap e config_unreadable environment "could not write private recovery artifact")

unfoldable pub remove_file : Bytes → M (Unit {0})
unfolding call
remove_file path = call >>= removed_or (discard path) (pure tt)

-- `writeExclusivePrivate` from the call of `Chmod` on the new file on.
unfoldable pub fill_exclusive : Bytes → Bytes → M (Unit {0})
unfolding attempt call
fill_exclusive path payload = do
  attempt config_insecure_permissions "could not protect private recovery artifact"
  call >>= written path payload
  attempt config_unreadable "could not flush private recovery artifact"
  attempt config_unreadable "could not close private recovery artifact"
  attempt config_unreadable "could not flush private recovery directory"

-- `OpenFile` with `O_CREATE|O_EXCL` refuses a path that has a file.
abbrev pub refuse_existing : Bytes → Option Bytes → M (Unit {0})
refuse_existing path none = put path []
refuse_existing path (some old) = fail (
    wrap (foreign "file exists") config_mutation_conflict environment
      "could not create private recovery artifact")

abbrev pub create_exclusive : Bytes → M (Unit {0})
create_exclusive path w = refuse_existing path (lookup path w.files) w

-- `writeExclusivePrivate`.
unfoldable pub write_exclusive_private : Bytes → Bytes → M (Unit {0})
unfolding attempt fill_exclusive remove_file
write_exclusive_private path payload = do
  attempt config_unreadable "could not create private recovery directory"
  attempt config_insecure_permissions "could not protect private recovery directory"
  attempt config_mutation_conflict "could not create private recovery artifact"
  create_exclusive path
  unless_complete (fill_exclusive path payload) (remove_file path)

-- The names of the files in a directory, as `os.ReadDir` lists them.
unfoldable pub name_in : Bytes → Bytes → Option Bytes
unfolding base_of
name_in dir path =
    let name = base_of path in
    if has_prefix path (join dir []) && length path == length (join dir name)
    then some name
    else none

abbrev pub with_name : Option Bytes → List Bytes → List Bytes
with_name none names = names
with_name (some name) names = name ∷ names

unfoldable pub names_in : Bytes → List (Bytes × Bytes) → List Bytes
unfolding name_in
names_in dir [] = []
names_in dir ((path, content) ∷ files) = with_name (name_in dir path) (names_in dir files)

unfoldable pub is_backup_of : Bytes → Bytes → Bool
unfolding base_of
is_backup_of path name =
    has_prefix name (base_of path ++ codes ".") && has_suffix name (codes ".bak")

unfoldable pub select_backups : Bytes → List Bytes → List Bytes
unfolding is_backup_of
select_backups path [] = []
select_backups path (name ∷ names) =
    let rest = select_backups path names in if is_backup_of path name then name ∷ rest else rest

-- The names of a document's backups, the greatest first; the stamps make that the newest first.
unfoldable pub backup_names : Bytes → List (Bytes × Bytes) → List Bytes
unfolding names_in select_backups document_backup_dir
backup_names path files =
    reverse
      (sort_by (λ name. name) (select_backups path (names_in (document_backup_dir path) files)))

abbrev pub list_now : Bytes → M (List Bytes)
list_now path w = (ok (backup_names path w.files), w)

-- The listing of `latestValidBackup` and `pruneDocumentBackups`; a directory that is missing holds none.
unfoldable pub list_backups : String → Bytes → M (List Bytes)
unfolding attempt backup_names
list_backups message path = attempt config_unreadable message >> list_now path

abbrev pub keep : ℕ
keep = 10

-- The loop of `pruneDocumentBackups`.
unfoldable pub remove_each : Bytes → List Bytes → M (Unit {0})
unfolding attempt
remove_each dir [] = pure tt
remove_each dir (name ∷ names) =
    attempt config_unreadable "could not prune PMux state backup"
    >> (discard (join dir name) >> remove_each dir names)

-- `pruneDocumentBackups`.
unfoldable pub prune_listed : Bytes → List Bytes → M (Unit {0})
unfolding remove_each attempt document_backup_dir
prune_listed path names = do
  remove_each (document_backup_dir path) (drop keep names)
  if ltb keep (length names)
      then attempt config_unreadable "could not flush PMux state backup retention"
      else pure tt

unfoldable pub prune_document_backups : Bytes → M (Unit {0})
unfolding list_backups prune_listed
prune_document_backups path =
    list_backups "could not list PMux state backups for retention" path >>= prune_listed path
