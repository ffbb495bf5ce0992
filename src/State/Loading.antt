-- ===== src/State/Loading.antt =====
-- `LoadState` and `LoadConfig` of a document that is to be recovered, where no call fails.
use mathlib.Core.Path.{subst}
use pmux.Base.{
  ℕ, ◌≡◌, refl, sym, ap, String, codes, ◌∙◌, Option, none, some, List, ◌∷◌, Bytes, take,
}
use pmux.Base.Assoc.{lookup}
use pmux.Base.Int.{pos}
use pmux.Pmuxerr.{Result, ok, err, Err, foreign}
use pmux.State.{Outside, State, validate_state}
use pmux.State.Methods.{Paths, Codecs, state_document, load_state, zero_state}
use pmux.State.Disk.{World, Notice, slash, pure, then_run, attempt}
use pmux.State.Store.{
  Document, Decoded, bad, unfinished, value, end_of_text, another, broken, artifact_path,
  read_limit, validate_value, read_json, recover_document, decoded, loaded, load_document, corrupt,
  invalid_json, trailing_data, check_version, schema_version, read_opened,
}
use pmux.State.Frame.{Files}
use pmux.State.Reading.{at_rest, IsFaithful}
use pmux.State.Recovering.{Recovered, AreSmall, recover-Recovered}

module _ {V : Type 0} (o : Outside) (d : Document V) (check : V → Result (Unit {0})) where
  -- Why a document, as it was decoded, is to be recovered.
  abbrev pub invalid : V → Result (Unit {0}) → Result (Unit {0}) → Option Err
  invalid v (err e) valid = none
  invalid v (ok u) (ok u') = none
  invalid v (ok u) (err e) = some e

  abbrev pub trouble : Result V → Option Err
  trouble (err e) = some e
  trouble (ok v) = invalid v (check_version o d.kind (d.version v)) (d.validate v)

  abbrev pub fresh : V
  fresh = d.set_version (pos schema_version) d.zero_value

  read_json-decoded :
      (payload : Bytes) (files : Files) (notices : List Notice) (l : ℕ)
      → lookup d.path files ≡ some payload
      → read_json o d fresh (at_rest files notices l)
        ≡ then_run
            (λ v. pure (some v))
            (decoded (d.codec.decode fresh (take read_limit payload)) none, at_rest files notices l)
  unfolding read_json attempt
  read_json-decoded payload files notices l there = rw there (unfold read_opened in refl)

  corrupted :
      (e : Err) (message : String) (cause : Err) (w : World)
      → some (corrupt e message) ≡ some cause
      → loaded o d check (err (corrupt e message), w) ≡ recover_document o d check cause w
  corrupted e message cause w h =
      let same : corrupt e message ≡ cause = cc in
      unfold loaded in ap (λ (x : Err). recover_document o d check x w) same

  loaded-troubled :
      (x : Decoded V) (cause : Err) (w : World)
      → trouble (decoded x none) ≡ some cause
      → loaded o d check (then_run (λ v. pure (some v)) (decoded x none, w))
        ≡ recover_document o d check cause w
  loaded-troubled (bad e) cause w h = corrupted e invalid_json cause w h
  loaded-troubled unfinished cause w h = corrupted (foreign "unexpected EOF") invalid_json cause w h
  loaded-troubled (value v end_of_text) cause w h =
      refused (check_version o d.kind (d.version v)) (d.validate v) refl refl h
    where
      refused :
          (c valid : Result (Unit {0}))
          → check_version o d.kind (d.version v) ≡ c
          → d.validate v ≡ valid
          → invalid v c valid ≡ some cause
          → loaded o d check (ok (some v), w) ≡ recover_document o d check cause w
      refused (err e) valid ec ev h = cc
      refused (ok u) (ok u') ec ev h = cc
      refused (ok u) (err e) ec ev h =
          let same : e ≡ cause = cc in unfold loaded in rw ec (rw ev (rw same))
  loaded-troubled (value v another) cause w h =
      corrupted (foreign "multiple JSON values") trailing_data cause w h
  loaded-troubled (value v (broken e)) cause w h = corrupted e trailing_data cause w h

  -- LoadState and LoadConfig on a document that is to be recovered, where no call fails.
  pub load-Recovered :
      (rest payload : Bytes) (cause : Err) (files : Files) (notices : List Notice) (l : ℕ)
      → IsFaithful d
      → d.path ≡ slash ∷ rest
      → AreSmall o d check files
      → ((v : V) → validate_value o d (ok v) ≡ ok tt → check v ≡ ok tt)
      → lookup d.path files ≡ some payload
      → lookup (artifact_path o d.path payload) files ≡ none
      → trouble (decoded (d.codec.decode fresh (take read_limit payload)) none) ≡ some cause
      → Recovered o d check payload cause files notices l
          (load_document o d check (at_rest files notices l))
  load-Recovered rest payload cause files notices l f absolute small ends there new h =
      subst (Recovered o d check payload cause files notices l) (sym steps) (
        recover-Recovered o d check rest payload cause files notices l f absolute small ends there
          new)
    where
      steps :
          load_document o d check (at_rest files notices l)
          ≡ recover_document o d check cause (at_rest files notices l)
      steps =
          unfold load_document in
          ap (loaded o d check) (read_json-decoded payload files notices l there)
          ∙ loaded-troubled (d.codec.decode fresh (take read_limit payload)) cause
              (at_rest files notices l) h

-- The end of a check that succeeds.
valid_state :
    (o : Outside) (c : Codecs) (p : Paths) (v : State)
    → validate_value o (state_document o c p) (ok v) ≡ ok tt
    → validate_state o v ≡ ok tt
unfolding validate_value
valid_state o c p v h = last (check_version o (codes "state") v.version) h
  where
    last :
        (r : Result (Unit {0}))
        → (elim r [ err e ↦ err e | ok u ↦ validate_state o v ]) ≡ ok tt
        → validate_state o v ≡ ok tt
    last (ok u) h = h
    last (err e) h = cc

module _ (o : Outside) (c : Codecs) (p : Paths) where
  -- LoadState of a state document at an absolute path that does not decode, has trailing data or is not
  -- valid, where no call fails, the encoding is faithful, no backup is longer than 16 MiB and the copy has a
  -- new name: the document is copied; then, if some backup is a valid state, the one with the greatest name
  -- takes its place, is returned and put into a notice, and else the error says that recovery is needed, and
  -- the document stays. No other file changes.
  pub load_state-Recovered :
      (rest payload : Bytes) (cause : Err) (files : Files) (notices : List Notice) (l : ℕ)
      → IsFaithful (state_document o c p)
      → p.state ≡ slash ∷ rest
      → AreSmall o (state_document o c p) (validate_state o) files
      → lookup p.state files ≡ some payload
      → lookup (artifact_path o p.state payload) files ≡ none
      → trouble o (state_document o c p) (validate_state o) (
          decoded
            (c.state.decode
              (record zero_state { version = pos schema_version })
              (take read_limit payload))
            none)
        ≡ some cause
      → Recovered o
          (state_document o c p)
          (validate_state o)
          payload
          cause
          files
          notices
          l
          (load_state o c p (at_rest files notices l))
  unfolding load_state
  load_state-Recovered rest payload cause files notices l f absolute small there new h =
      load-Recovered o (state_document o c p) (validate_state o) rest payload cause files notices l
        f absolute small (valid_state o c p) there new h
