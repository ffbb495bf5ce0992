-- ===== src/State/Unversioned.antt =====
-- A configuration without a version: `LoadConfig` decodes it into a value that has the version already,
-- and `validateConfigBytes` into one that has none.
use pmux.Base.{ℕ, ◌≤◌, ◌≡◌, refl, some, List, Bytes, length, codes}
use pmux.Base.Assoc.{lookup}
use pmux.Base.Int.{pos}
use pmux.Pmuxerr.{ok, err, Err}
use pmux.State.{Config, Outside}
use pmux.State.Disk.{World, Notice, attempt, call}
use pmux.State.Store.{
  value, end_of_text, schema_version, read_limit, validate_bytes, validate_value, check_version,
  back_up, backup_current, save_document, or_refuse,
}
use pmux.State.Methods.{Paths, Codecs, config_document, load_config, save_config, zero_config}
use pmux.State.Reading.{at_rest, load_document-at_rest}

module _ (o : Outside) (c : Codecs) (p : Paths) where
  no_version : (e : Err) × (check_version o (codes "config") (pos 0) ≡ err e)
  unfolding check_version
  no_version = (_, refl)

  refused :
      (u : Config) (b : Bytes)
      → c.config.decode zero_config b ≡ value u end_of_text
      → u.version ≡ pos 0
      → (e : Err) × (validate_bytes o (config_document o c p) b ≡ err e)
  unfolding validate_bytes validate_value
  refused u b whole zero = let (e, h) = no_version in (e, rw whole (rw zero (rw h)))

  refusal : (e : Err) → (e' : Err) × (or_refuse o (config_document o c p) (err e) ≡ err e')
  refusal e = (_, refl)

  back_up-refused :
      (b : Bytes) (e : Err) (w : World)
      → validate_bytes o (config_document o c p) b ≡ err e
      → (e' : Err) × (back_up o (config_document o c p) (some b) w ≡ (err e', w))
  unfolding back_up
  back_up-refused b e w h = let (e', q) = refusal e in (e', rw h (rw q))

  not_saved :
      (new : Config) (b : Bytes) (e : Err) (files : List (Bytes × Bytes)) (notices : List Notice)
      (l : ℕ)
      → lookup p.config files ≡ some b
      → back_up o (config_document o c p) (some b) (at_rest files notices l)
        ≡ (err e, at_rest files notices l)
      → save_document o (config_document o c p) new (at_rest files notices l)
        ≡ (err e, at_rest files notices l)
  unfolding save_document backup_current attempt call
  not_saved new b e files notices l there stopped = rw there (rw stopped)

  -- Where no call fails: a configuration of at most 16 MiB that decodes with the version 1 if the value has
  -- it before, and with the version 0 if not, as one does that lacks the field, is what LoadConfig
  -- returns; but SaveConfig of any value fails then, and leaves all files as they are.
  pub unversioned-stuck :
      (v u new : Config) (b : Bytes) (files : List (Bytes × Bytes)) (notices : List Notice) (l : ℕ)
      → lookup p.config files ≡ some b
      → length b ≤ read_limit
      → c.config.decode (record zero_config { version = pos schema_version }) b
        ≡ value v end_of_text
      → v.version ≡ pos schema_version
      → c.config.decode zero_config b ≡ value u end_of_text
      → u.version ≡ pos 0
      → (load_config o c p (at_rest files notices l) ≡ (ok v, at_rest files notices l))
        × ((e : Err) × (save_config o c p new (at_rest files notices l)
              ≡ (err e, at_rest files notices l)))
  unfolding load_config save_config
  unversioned-stuck v u new b files notices l there small fresh one whole zero =
      let (e, invalid) = refused u b whole zero in
      let (e', stopped) = back_up-refused b e (at_rest files notices l) invalid in
      (
        load_document-at_rest o (config_document o c p)
            (λ w. check_version o (codes "config") w.version) v b files notices l there small fresh
            one refl,
        (e', not_saved new b e' files notices l there stopped),
      )
