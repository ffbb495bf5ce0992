-- ===== src/State/Contract.antt =====
-- What `SaveState` and `SaveConfig` promise.
use pmux.Base.{ℕ, ◌≡◌, refl, false, List, Bytes, bytes_eq, codes}
use pmux.Base.Assoc.{lookup}
use pmux.Base.Int.{pos}
use pmux.Pmuxerr.{ok}
use pmux.State.{Config, State, Outside, validate_state}
use pmux.State.Disk.{World, Notice}
use pmux.State.Store.{schema_version, check_version}
use pmux.State.Methods.{
  Paths, Codecs, state_document, config_document, save_state, load_state, save_config, load_config,
}
use pmux.State.Saving.{Apart, save-Leaves}
use pmux.State.Atomic.{Saved, save-Saved}
use pmux.State.Reading.{IsFaithful, at_rest, saved-load, IsSmall}

module _ (o : Outside) (c : Codecs) (p : Paths) where
  -- SaveState, whichever calls fail, leaves the state document as it was, or replaces it by the whole
  -- encoding of the value with the schema's version, which is valid, and then the document was absent
  -- or valid before; and every file is as it was that is neither the document nor one of its backups.
  pub save_state-Saved :
      (v : State) (w : World)
      → Saved o (state_document o c p) v w.files (save_state o c p v w).1.files
        × ((q : Bytes)
            → bytes_eq p.state q ≡ false
            → Apart p.state q
            → lookup q (save_state o c p v w).1.files ≡ lookup q w.files)
  unfolding save_state
  save_state-Saved v w = (
    save-Saved o (state_document o c p) v w,
    λ q other apart. (save-Leaves o (state_document o c p) q apart other v).keeps w,
  )

  -- With a faithful encoding, a state that SaveState has saved, whichever calls it met, is what
  -- LoadState then returns, with the schema's version, if no further call fails and the encoding is
  -- shorter than 16 MiB; and LoadState changes nothing.
  pub save_state-load_state :
      (v : State) (w : World) (notices : List Notice) (l : ℕ)
      → IsFaithful (state_document o c p)
      → IsSmall (c.state.encode (record v { version = pos schema_version }))
      → (save_state o c p v w).0 ≡ ok tt
      → load_state o c p (at_rest (save_state o c p v w).1.files notices l) ≡ (
        ok (record v { version = pos schema_version }),
        at_rest (save_state o c p v w).1.files notices l,
      )
  unfolding save_state load_state
  save_state-load_state v w notices l f small =
      saved-load o (state_document o c p) (validate_state o) v w notices l f small refl

  -- The same for SaveConfig and LoadConfig.
  pub save_config-load_config :
      (v : Config) (w : World) (notices : List Notice) (l : ℕ)
      → IsFaithful (config_document o c p)
      → IsSmall (c.config.encode (record v { version = pos schema_version }))
      → (save_config o c p v w).0 ≡ ok tt
      → load_config o c p (at_rest (save_config o c p v w).1.files notices l) ≡ (
        ok (record v { version = pos schema_version }),
        at_rest (save_config o c p v w).1.files notices l,
      )
  unfolding save_config load_config
  save_config-load_config v w notices l f small =
      saved-load o (config_document o c p) (λ u. check_version o (codes "config") u.version) v w
        notices l f small refl
