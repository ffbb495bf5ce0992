-- ===== src/State/Atomic.antt =====
-- A save replaces the document as a whole or leaves it, and replaces none that is invalid.
use pmux.Base.{
  ◌≡◌, refl, ◌∙◌, Option, none, some, [], ◌∷◌, ◌++◌, Bytes, bytes_eq_refl, ◌⊎◌, inl, inr,
}
use pmux.Base.Assoc.{lookup, lookup-insert}
use pmux.Base.Int.{pos}
use pmux.Pmuxerr.{Result, ok, err, config_unreadable}
use pmux.Files.{newline}
use pmux.State.{Outside}
use pmux.State.Disk.{
  World, ◌>>=◌, ◌>>◌, put, then_run, attempt, write_bytes, prune_document_backups,
  write_exclusive_private,
}
use pmux.State.Store.{
  Document, schema_version, content_at, validate_bytes, back_up, backup_current, write_encoded,
  write_json, save_document, or_refuse, backup_path,
}
use pmux.State.Frame.{Files, Keeps, write_bytes-Keeps, attempt-Keeps}
use pmux.State.Places.{backup-ne-document}
use pmux.State.Saving.{Same, Same-refl, Same-trans, backup_current-Leaves, prune-Leaves}

-- The file at `q` stays, or it becomes this one.
abbrev pub Becomes : Bytes → Bytes → Files → Files → Type 0
Becomes q b x y = Same q x y ⊎ (lookup q y ≡ some b)

pub Becomes-trans :
    (q b : Bytes) (x y z : Files) → Becomes q b x y → Becomes q b y z → Becomes q b x z
Becomes-trans q b x y z h (inr e) = inr e
Becomes-trans q b x y z (inl e) (inl f) = inl (f ∙ e)
Becomes-trans q b x y z (inr e) (inl f) = inr (f ∙ e)

pub put-Becomes : (q b : Bytes) → Keeps (Becomes q b) (λ x. inl refl) (Becomes-trans q b) (put q b)
put-Becomes q b = record { keeps = λ w. inr (lookup-insert q q b w.files ∙ rw (bytes_eq_refl q)) }

-- The document is absent, or valid as a backup must be.
abbrev pub IsReplaceable : {V : Type 0} → Outside → Document V → Option Bytes → Type 0
IsReplaceable o d none = Unit
IsReplaceable o d (some payload) = validate_bytes o d payload ≡ ok tt

module _ {V : Type 0} (o : Outside) (d : Document V) where
  -- The value that is saved has the schema's version.
  abbrev pub dated : V → V
  dated v = d.set_version (pos schema_version) v

  -- What a save makes of the document in the first files.
  pub data Saved (v : V) (before after : Files) : Type 0 where
    kept : lookup d.path after ≡ lookup d.path before → Saved v before after
    replaced :
        (b : Bytes)
        → d.codec.encode (dated v) ≡ some b
        → lookup d.path after ≡ some (b ++ newline ∷ [])
        → d.validate (dated v) ≡ ok tt
        → IsReplaceable o d (lookup d.path before)
        → Saved v before after

  -- What a write alone makes of it.
  abbrev Wrote : V → Files → Files → Type 0
  Wrote v x y =
      Same d.path x y
      ⊎ ((b : Bytes) × (d.codec.encode v ≡ some b) × (lookup d.path y ≡ some (b ++ newline ∷ [])))

  pub write_json-Wrote : (v : V) (w : World) → Wrote v w.files (write_json o d v w).1.files
  unfolding write_json
  write_json-Wrote v w = encoded (d.codec.encode v) refl
    where
      took :
          (b : Bytes)
          → d.codec.encode v ≡ some b
          → Becomes d.path
              (b ++ newline ∷ [])
              w.files
              (write_bytes d.path (b ++ newline ∷ []) w).1.files
          → Wrote v w.files (write_bytes d.path (b ++ newline ∷ []) w).1.files
      took b e (inl same) = inl same
      took b e (inr new) = inr (b, e, new)

      encoded :
          (x : Option Bytes)
          → d.codec.encode v ≡ x
          → Wrote v w.files (write_encoded o d x w).1.files
      encoded none e = unfold write_encoded in inl refl
      encoded (some b) e =
          unfold write_encoded in
          took b e
            ((write_bytes-Keeps _ _ (Becomes-trans _ _) d.path _ (put-Becomes d.path _)).keeps w)

  back_up-ok :
      (content : Option Bytes) (w : World)
      → (back_up o d content w).0 ≡ ok tt
      → IsReplaceable o d content
  unfolding back_up
  back_up-ok none w h = tt
  back_up-ok (some payload) w h = accepted (validate_bytes o d payload) h
    where
      accepted :
          (r : Result (Unit {0}))
          → (then_run
              (λ _. write_exclusive_private (backup_path o d.path payload) payload)
              (or_refuse o d r, w)).0
            ≡ ok tt
          → r ≡ ok tt
      accepted (ok u) h = refl
      accepted (err e) h = cc

  backup_current-ok :
      (w : World) → (backup_current o d w).0 ≡ ok tt → IsReplaceable o d (lookup d.path w.files)
  unfolding backup_current
  backup_current-ok w h =
      read (attempt config_unreadable _ w)
        ((attempt-Keeps (Same d.path) (Same-refl d.path) (Same-trans d.path) config_unreadable
            _).keeps
          w)
        h
    where
      read :
          (x : Result (Unit {0}) × World)
          → Same d.path w.files x.1.files
          → (then_run (λ _. content_at d.path >>= back_up o d) x).0 ≡ ok tt
          → IsReplaceable o d (lookup d.path w.files)
      read (err e, w') same h = cc
      read (ok u, w') same h = rw (← same) (back_up-ok (lookup d.path w'.files) w' h)

  -- A save, whichever calls fail, leaves the document, or puts the whole encoding of the value, which
  -- is valid, in the place of a document that was absent or valid.
  pub save-Saved : (v : V) (w : World) → Saved v w.files (save_document o d v w).1.files
  unfolding save_document
  save-Saved v w = validated (d.validate (dated v)) refl
    where
      pruned :
          (w1 : World) (x : Result (Unit {0}) × World)
          → Wrote (dated v) w1.files x.1.files
          → Wrote (dated v) w1.files (then_run (λ _. prune_document_backups d.path) x).1.files
      pruned w1 (err e, w2) h = h
      pruned w1 (ok u, w2) (inl same) =
          inl ((prune-Leaves d.path d.path (backup-ne-document d.path)).keeps w2 ∙ same)
      pruned w1 (ok u, w2) (inr (b, e, new)) =
          inr (b, e, (prune-Leaves d.path d.path (backup-ne-document d.path)).keeps w2 ∙ new)

      saved :
          (after : Files)
          → d.validate (dated v) ≡ ok tt
          → IsReplaceable o d (lookup d.path w.files)
          → Wrote (dated v) w.files after
          → Saved v w.files after
      saved after valid old (inl same) = kept same
      saved after valid old (inr (b, e, new)) = replaced b e new valid old

      onto : (x y z : Files) → Same d.path x y → Wrote (dated v) y z → Wrote (dated v) x z
      onto x y z same (inl same') = inl (same' ∙ same)
      onto x y z same (inr new) = inr new

      backed :
          (x : Result (Unit {0}) × World)
          → d.validate (dated v) ≡ ok tt
          → Same d.path w.files x.1.files
          → (x.0 ≡ ok tt → IsReplaceable o d (lookup d.path w.files))
          → Saved v w.files
              (then_run (λ _. write_json o d (dated v) >> prune_document_backups d.path) x).1.files
      backed (err e, w1) valid same old = kept same
      backed (ok u, w1) valid same old = saved _ valid (old refl) (
          onto w.files w1.files _ same
            (pruned w1 (write_json o d (dated v) w1) (write_json-Wrote (dated v) w1)))

      validated :
          (r : Result (Unit {0}))
          → d.validate (dated v) ≡ r
          → Saved v w.files
              (then_run
                (λ _.
                  backup_current o d >> (write_json o d (dated v) >> prune_document_backups d.path))
                (r, w)).1.files
      validated (err e) valid = kept refl
      validated (ok u) valid =
          backed (backup_current o d w) valid
            ((backup_current-Leaves o d d.path (backup-ne-document d.path)).keeps w)
            (backup_current-ok w)
