-- ===== src/State/Loads.antt =====
-- What `LoadState` returns, whichever calls fail.
use pmux.Base.{◌≡◌, refl, Bool, true, false, Option, none, some, Bytes, if◌then◌else◌}
use pmux.Base.Int.{pos}
use pmux.Pmuxerr.{Result, ok, err, Err}
use pmux.State.{State, Outside, validate_state}
use pmux.State.Disk.{World, M, ◌>>=◌, ◌>>◌, pure, fail, lift, then_run}
use pmux.State.Store.{
  Document, schema_version, read_json, preserve_corrupt, latest_valid_backup, restore,
  recover_document, or_recover, is_document_corrupt, unless_invalid, loaded, load_document,
  write_raw_json, value_or_zero, notify, restored_notice, check_version,
}
use pmux.State.Methods.{Paths, Codecs, state_document, load_state}
use pmux.State.Validity.{IsValid}
use pmux.State.Validated.{validate_state-IsValid}

-- Every value that an operation returns has a property.
record Gives {V : Type 0} (P : V → Type 0) (m : M V) : Type 0 where
  pub gives : (w : World) (v : V) → (m w).0 ≡ ok v → P v

module _ {V : Type 0} (P : V → Type 0) where
  fail-Gives : (e : Err) → Gives P (fail e)
  fail-Gives e = record { gives = λ w v h. cc }

  pure-Gives : (v : V) → P v → Gives P (pure v)
  pure-Gives v p = record { gives = λ w u h. given u h }
    where
      given : (u : V) → ok v ≡ ok u → P u
      given u h = let same : v ≡ u = cc in rw (← same) p

  >>=-Gives {κ} :
      {U : Type κ} (m : M U) (f : U → M V) → ((u : U) → Gives P (f u)) → Gives P (m >>= f)
  >>=-Gives {U} m f hf = record { gives = λ w. next (m w) }
    where
      next : (x : Result U × World) (v : V) → (then_run f x).0 ≡ ok v → P v
      next (ok u, w) v h = (hf u).gives w v h
      next (err e, w) v h = cc

  -- What follows a check that succeeded.
  lift-Gives : (r : Result (Unit {0})) (m : M V) → (r ≡ ok tt → Gives P m) → Gives P (lift r >> m)
  lift-Gives (ok u) m h = record { gives = λ w. (h refl).gives w }
  lift-Gives (err e) m h = record { gives = λ w v h. cc }

module _ {V : Type 0} (o : Outside) (d : Document V) (check : V → Result (Unit {0}))
    (P : V → Type 0) (checked : (v : V) → check v ≡ ok tt → P v) where
  restore-Gives :
      (cause : Err) (artifact : Bytes) (found : Option (Bytes × Bytes))
      → Gives P (restore o d check cause artifact found)
  unfolding restore
  restore-Gives cause artifact none = fail-Gives P _
  restore-Gives cause artifact (some (payload, backup)) =
      >>=-Gives P (write_raw_json o d payload) _ λ _.
        >>=-Gives P (read_json o d d.zero_value) _ λ read.
          lift-Gives P (check (value_or_zero o d read)) _ λ good.
            >>=-Gives P (notify (restored_notice d.kind backup artifact)) _
              λ _. pure-Gives P (value_or_zero o d read) (checked _ good)

  recover-Gives : (cause : Err) → Gives P (recover_document o d check cause)
  unfolding recover_document
  recover-Gives cause =
      >>=-Gives P (preserve_corrupt o d.path) _
        λ artifact. >>=-Gives P (latest_valid_backup o d) _ (restore-Gives cause artifact)

  or_recover-Gives : (e : Err) → Gives P (or_recover o d check e)
  unfolding or_recover
  or_recover-Gives e = either (is_document_corrupt e)
    where
      either : (b : Bool) → Gives P (if b then recover_document o d check e else fail e)
      either true = recover-Gives e
      either false = fail-Gives P e

  loaded-Gives :
      P (d.set_version (pos schema_version) d.zero_value)
      → ((v : V) → d.validate v ≡ ok tt → P v)
      → (x : Result (Option V) × World) (v : V) → (loaded o d check x).0 ≡ ok v
      → P v
  unfolding loaded
  loaded-Gives start valid (err e, w) v h = (or_recover-Gives e).gives w v h
  loaded-Gives start valid (ok none, w) v h = (pure-Gives P _ start).gives w v h
  loaded-Gives start valid (ok (some u), w) v h =
      (lift-Gives P (check_version o d.kind (d.version u)) _ λ _. either (d.validate u) refl).gives
        w v h
    where
      either : (r : Result (Unit {0})) → d.validate u ≡ r → Gives P (unless_invalid o d check u r)
      either (ok _) e = pure-Gives P u (valid u e)
      either (err x) e = recover-Gives x

module _ (o : Outside) (c : Codecs) (p : Paths) where
  -- Every state that LoadState returns, whichever calls fail and whatever the files hold, is valid: its
  -- installations have distinct IDs that are not empty, and each is a container with a loopback endpoint, or
  -- has absolute paths and a key reference whose mask shows at most seven and four characters.
  pub load_state-IsValid : (w : World) (v : State) → (load_state o c p w).0 ≡ ok v → IsValid o v
  unfolding load_state load_document
  load_state-IsValid w v h =
      loaded-Gives o (state_document o c p) (validate_state o) (IsValid o)
        (validate_state-IsValid o) (tt, tt) (validate_state-IsValid o)
        (read_json o (state_document o c p) _ w) v h
