-- ===== src/State/Saving.antt =====
-- What a save does to the document, to its backups and to the other files, whichever calls fail.
use pmux.Base.{
  ◌≡◌, refl, ◌∙◌, true, false, Option, none, some, List, [], ◌∷◌, Bytes, String, drop, bytes_eq,
  All,
}
use pmux.Base.Assoc.{lookup, lookup-insert, lookup-remove}
use pmux.Base.Sorting.{All-sort_by}
use pmux.Pmuxerr.{Result, ok, err, config_unreadable}
use pmux.State.{Outside}
use pmux.State.Disk.{
  World, M, put, discard, then_run, list_backups, list_now, backup_names, names_in, prune_listed,
  prune_document_backups, keep, is_backup_of, attempt,
}
use pmux.State.Store.{
  Document, content_at, back_up, backup_current, write_encoded, write_json, save_document,
  backup_path,
}
use pmux.State.Frame.{
  Files, Keeps, >>=-Keeps, >>-Keeps, lift-Keeps, attempt-Keeps, write_bytes-Keeps,
  write_exclusive_private-Keeps, prune_listed-Keeps,
}
use pmux.State.Places.{
  backup_at, backup_name, backup_name-IsBackup, Backups, select_backups-Backups, All-reverse,
  All-drop,
}

-- The file at `q` is the same in both.
abbrev pub Same : Bytes → Files → Files → Type 0
Same q a b = lookup q b ≡ lookup q a

pub Same-refl : (q : Bytes) (a : Files) → Same q a a
Same-refl q a = refl

pub Same-trans : (q : Bytes) (a b c : Files) → Same q a b → Same q b c → Same q a c
Same-trans q a b c h k = k ∙ h

-- An operation leaves the file at `q` as it is.
abbrev pub Leaves {ℓ} : {V : Type ℓ} → Bytes → M V → Type ℓ
Leaves q m = Keeps (Same q) (Same-refl q) (Same-trans q) m

pub put-Leaves : (path q payload : Bytes) → bytes_eq path q ≡ false → Leaves q (put path payload)
put-Leaves path q payload h = record { keeps = λ w. lookup-insert path q payload w.files ∙ rw h }

pub discard-Leaves : (path q : Bytes) → bytes_eq path q ≡ false → Leaves q (discard path)
discard-Leaves path q h = record { keeps = λ w. lookup-remove path q w.files ∙ rw h }

-- No backup of the document stands at `q`.
abbrev pub Apart : Bytes → Bytes → Type 0
Apart path q =
    (name : Bytes) → is_backup_of path name ≡ true → bytes_eq (backup_at path name) q ≡ false

backup_names-Backups : (path : Bytes) (files : Files) → Backups path (backup_names path files)
unfolding backup_names
backup_names-Backups path files =
    All-reverse _ _ (All-sort_by _ _ _ (select_backups-Backups path (names_in _ files)))

list_backups-Leaves : (q path : Bytes) (message : String) → Leaves q (list_backups message path)
unfolding list_backups
list_backups-Leaves q path message =
    >>-Keeps _ _ _ _ _ (attempt-Keeps _ _ _ _ _) (record { keeps = λ w. refl })

discards-Leaves :
    (path q : Bytes) (names : List Bytes)
    → Apart path q
    → Backups path names
    → All (λ name. Leaves q (discard (backup_at path name))) names
discards-Leaves path q [] apart h = tt
discards-Leaves path q (name ∷ names) apart h = (
  discard-Leaves (backup_at path name) q (apart name h.0),
  discards-Leaves path q names apart h.1,
)

pub prune-Leaves : (path q : Bytes) → Apart path q → Leaves q (prune_document_backups path)
unfolding prune_document_backups list_backups
prune-Leaves path q apart = record {
  keeps = λ w.
      pruned w.files (attempt config_unreadable _ w)
        ((attempt-Keeps (Same q) (Same-refl q) (Same-trans q) config_unreadable _).keeps w);
}
  where
    pruned :
        (a : Files) (x : Result (Unit {0}) × World)
        → Same q a x.1.files
        → Same q a (then_run (prune_listed path) (then_run (λ _. list_now path) x)).1.files
    pruned a (err e, w) h = h
    pruned a (ok u, w) h = Same-trans q a w.files _ h (
        (prune_listed-Keeps _ _ _ path (backup_names path w.files) (
            discards-Leaves path q (drop keep (backup_names path w.files)) apart
              (All-drop _ keep _ (backup_names-Backups path w.files)))).keeps
          w)

module _ {V : Type 0} (o : Outside) (d : Document V) (q : Bytes) (apart : Apart d.path q) where
  back_up-Leaves : (content : Option Bytes) → Leaves q (back_up o d content)
  unfolding back_up backup_path
  back_up-Leaves none = lift-Keeps _ _ _ (ok tt)
  back_up-Leaves (some payload) =
      let other = apart (backup_name o d.path payload) (backup_name-IsBackup o d.path payload) in
      >>-Keeps _ _ _ _ _ (lift-Keeps _ _ _ _) (
        write_exclusive_private-Keeps _ _ _ _ payload (λ b. put-Leaves _ q b other)
          (discard-Leaves _ q other))

  pub backup_current-Leaves : Leaves q (backup_current o d)
  unfolding backup_current
  backup_current-Leaves =
      >>-Keeps _ _ _ _ _ (attempt-Keeps _ _ _ _ _)
        (>>=-Keeps _ _ _ (content_at d.path) _ (record { keeps = λ w. refl }) back_up-Leaves)

  write_json-Leaves : bytes_eq d.path q ≡ false → (v : V) → Leaves q (write_json o d v)
  unfolding write_json write_encoded
  write_json-Leaves h v = encoded (d.codec.encode v)
    where
      encoded : (b : Option Bytes) → Leaves q (write_encoded o d b)
      encoded none = lift-Keeps _ _ _ (err _)
      encoded (some b) = write_bytes-Keeps _ _ _ d.path _ (put-Leaves d.path q _ h)

  -- A save leaves the files alone that are neither the document nor its backups.
  pub save-Leaves : bytes_eq d.path q ≡ false → (v : V) → Leaves q (save_document o d v)
  unfolding save_document
  save-Leaves h v = >>-Keeps _ _ _ _ _ (lift-Keeps _ _ _ _) (
      >>-Keeps _ _ _ _ _ backup_current-Leaves
        (>>-Keeps _ _ _ _ _ (write_json-Leaves h _) (prune-Leaves d.path q apart)))
