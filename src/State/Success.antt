-- ===== src/State/Success.antt =====
-- A save of a valid value where no call fails.
use pmux.Base.{
  ℕ, ltb, ◌≡◌, refl, ap, ◌∙◌, Bool, true, false, Option, none, some, List, [], ◌∷◌, ◌++◌, Bytes,
  drop, length, if◌then◌else◌,
}
use pmux.Base.Assoc.{lookup, insert, lookup-insert}
use pmux.Base.Int.{pos}
use pmux.Pmuxerr.{ok, config_unreadable}
use pmux.Files.{newline}
use pmux.State.{State, Outside, validate_state}
use pmux.State.Disk.{
  M, Notice, ◌>>◌, pure, then_run, attempt, call, join, document_backup_dir, backup_names,
  list_backups, remove_each, prune_listed, prune_document_backups, keep, write_exclusive_private,
  fill_exclusive,
}
use pmux.State.Store.{
  Document, schema_version, backup_current, back_up, backup_path, write_json, write_encoded,
  save_document,
}
use pmux.State.Methods.{Paths, Codecs, state_document, save_state}
use pmux.State.Frame.{Files}
use pmux.State.Atomic.{dated, IsReplaceable}
use pmux.State.Reading.{at_rest}
use pmux.State.Usable.{write_bytes-at_rest}

-- The operation succeeds where no call fails, whatever the files, and then no later call fails.
abbrev Calm : M (Unit {0}) → Type 0
Calm m =
    (files : Files) (notices : List Notice) (l : ℕ)
    → (after : Files) × (m (at_rest files notices l) ≡ (ok tt, at_rest after notices l))

remove_each-Calm : (dir : Bytes) (names : List Bytes) → Calm (remove_each dir names)
unfolding remove_each attempt call
remove_each-Calm dir [] files notices l = (files, refl)
remove_each-Calm dir (name ∷ names) files notices l =
    remove_each-Calm dir names (pmux.Base.Assoc.remove (join dir name) files) notices l

>>-Calm : (m n : M (Unit {0})) → Calm m → Calm n → Calm (m >> n)
>>-Calm m n hm hn files notices l =
    let (middle, e) = hm files notices l in
    let (after, e') = hn middle notices l in (after, ap (then_run (λ _. n)) e ∙ e')

prune_listed-Calm : (path : Bytes) (names : List Bytes) → Calm (prune_listed path names)
unfolding prune_listed
prune_listed-Calm path names =
    >>-Calm (remove_each (document_backup_dir path) (drop keep names)) _
      (remove_each-Calm (document_backup_dir path) (drop keep names))
      (flushed (ltb keep (length names)))
  where
    flushed :
        (many : Bool)
        → Calm (
            if many
            then attempt config_unreadable "could not flush PMux state backup retention"
            else pure tt)
    flushed true files notices l = (files, unfold attempt call in refl)
    flushed false files notices l = (files, refl)

prune-Calm : (path : Bytes) → Calm (prune_document_backups path)
unfolding prune_document_backups list_backups
prune-Calm path files notices l = prune_listed-Calm path (backup_names path files) files notices l

-- A backup of the document has a new name, if there is a document.
abbrev pub IsNew : {V : Type 0} → Outside → Document V → Files → Option Bytes → Type 0
IsNew o d files none = Unit
IsNew o d files (some payload) = lookup (backup_path o d.path payload) files ≡ none

module _ {V : Type 0} (o : Outside) (d : Document V) where
  back_up-at_rest :
      (content : Option Bytes) (files : Files) (notices : List Notice) (l : ℕ)
      → IsReplaceable o d content
      → IsNew o d files content
      → (after : Files) × (back_up o d content (at_rest files notices l)
          ≡ (ok tt, at_rest after notices l))
  unfolding back_up
  back_up-at_rest none files notices l valid new = (files, refl)
  back_up-at_rest (some payload) files notices l valid new = (
    insert (backup_path o d.path payload) payload (insert (backup_path o d.path payload) [] files),
    rw valid
        (unfold write_exclusive_private in rw new (unfold fill_exclusive attempt call in refl)),
  )

  write_json-at_rest : (v : V) (b : Bytes) → d.codec.encode v ≡ some b → Calm (write_json o d v)
  unfolding write_json
  write_json-at_rest v b e files notices l = (
    insert d.path (b ++ newline ∷ []) files,
    rw e (unfold write_encoded in write_bytes-at_rest d.path (b ++ newline ∷ []) files notices l),
  )

  save-at_rest :
      (v : V) (b : Bytes) (files : Files) (notices : List Notice) (l : ℕ)
      → d.validate (dated o d v) ≡ ok tt
      → d.codec.encode (dated o d v) ≡ some b
      → IsReplaceable o d (lookup d.path files)
      → IsNew o d files (lookup d.path files)
      → (after : Files) × (save_document o d v (at_rest files notices l)
          ≡ (ok tt, at_rest after notices l))
  unfolding save_document
  save-at_rest v b files notices l valid e replaceable new =
      let (backed, e1) = back_up-at_rest (lookup d.path files) files notices l replaceable new in
      let (after, e2) =
        >>-Calm (write_json o d (dated o d v)) (prune_document_backups d.path)
          (write_json-at_rest (dated o d v) b e) (prune-Calm d.path) backed notices l in
      (
        after,
        rw valid (
            ap (then_run (λ _. write_json o d (dated o d v) >> prune_document_backups d.path))
              (unfold backup_current attempt call in e1)
            ∙ e2),
      )

module _ (o : Outside) (c : Codecs) (p : Paths) where
  -- Where no call fails, SaveState of a valid state that has an encoding succeeds, if the state document
  -- is missing, or is valid and no file has the name of its backup; and then the next load and save
  -- begin with no failing call.
  pub save_state-succeeds :
      (v : State) (b : Bytes) (files : Files) (notices : List Notice) (l : ℕ)
      → validate_state o (record v { version = pos schema_version }) ≡ ok tt
      → c.state.encode (record v { version = pos schema_version }) ≡ some b
      → IsReplaceable o (state_document o c p) (lookup p.state files)
      → IsNew o (state_document o c p) files (lookup p.state files)
      → (after : Files) × (save_state o c p v (at_rest files notices l)
          ≡ (ok tt, at_rest after notices l))
  unfolding save_state
  save_state-succeeds v b files notices l =
      save-at_rest o (state_document o c p) v b files notices l
