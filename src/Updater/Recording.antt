-- ===== src/Updater/Recording.antt =====
-- The record of a pending update: what `read` gives, and what a checkpoint leaves.
use pmux.Base.{
  ℕ, ◌≤◌, ◌<◌, ◌≡◌, ◌⊎◌, inl, inr, refl, ◌∙◌, true, false, Option, none, some, [], ◌∷◌, ◌++◌, Bytes,
  take, length, length-append, bytes_eq, bytes_eq_refl, arith,
}
use pmux.Base.Assoc.{lookup, insert, lookup-insert}
use pmux.Pmuxerr.{ok, Err}
use pmux.Files.{newline}
use pmux.State.Disk.{World, lift}
use pmux.State.Store.{
  Decoded, value, bad, unfinished, end_of_text, another, broken, delivered, failure_of,
}
use pmux.State.Reading.{take_all}
use pmux.State.Frame.{Files}
use pmux.Updater.{
  RecoveryRecord, Engine, is_supported, checked_record, decoded_record, record_limit,
}
use pmux.Updater.Recover.{
  read_record, read_found, read_text, changed, checkpoint, stamped, write_record, write_encoded,
  fill_record,
}
use pmux.Updater.Triples.{
  Outcome, Quiet, attempt_plain-Quiet, >>-Quiet, staged-Quiet, Leads, >>=-Leads, >>-Leads,
  pure-Leads, fail-Leads, Quiet-Leads, call-Leads, attempt-Leads, attempt_plain-Leads, put-Leads,
}

-- What the documentation of `encoding/json` gives: a record that is marshalled, with the newline that
-- `write` puts behind it, is read back; and the encoding is shorter than 1 MiB.
pub record IsReadable (e : Engine) (r : RecoveryRecord) : Type 0 where
  pub round_trip :
      (b : Bytes) → e.encode r ≡ some b → e.decode (b ++ newline ∷ []) ≡ value r end_of_text
  pub is_short : (b : Bytes) → e.encode r ≡ some b → length b < record_limit

-- The file at the path of the manager holds the record.
abbrev pub Stored : Engine → RecoveryRecord → Files → Type 0
Stored e r files =
    (text : Bytes) × (lookup e.path files ≡ some text)
    × (e.decode (take record_limit text) ≡ value r end_of_text)

abbrev pub At : Bytes → Option Bytes → Files → Type 0
At path x files = lookup path files ≡ x

module _ (e : Engine) (r : RecoveryRecord) (pointer : Bytes)
    (change : RecoveryRecord → RecoveryRecord) where
  -- The record is there, and the pointer selects what it is given.
  abbrev pub Begun : Option Bytes → Files → Type 0
  Begun x files = Stored e r files × At pointer x files

  -- The record is there, as it was or changed.
  abbrev pub Pending : Files → Type 0
  Pending files = Stored e r files ⊎ Stored e (stamped e (change r)) files

  abbrev pub Changed : Option Bytes → Files → Type 0
  Changed x a = At pointer x a × Stored e (stamped e (change r)) a

  abbrev pub Noted : Option Bytes → Files → Type 0
  Noted x a = At pointer x a × Pending a

  abbrev pub Read : Option Bytes → Option RecoveryRecord → Files → Type 0
  Read x o a = (o ≡ some r) × Begun x a

module _ (e : Engine) (r : RecoveryRecord) (pointer : Bytes)
    (change : RecoveryRecord → RecoveryRecord) (supported : is_supported r ≡ true)
    (apart : bytes_eq e.path pointer ≡ false) (good : IsReadable e (stamped e (change r))) where
  abbrev Begins : Option Bytes → Files → Type 0
  Begins = Begun e r pointer change

  abbrev Notes : Option Bytes → Files → Type 0
  Notes = Noted e r pointer change

  abbrev Reads : Option Bytes → Option RecoveryRecord → Files → Type 0
  Reads = Read e r pointer change

  abbrev Changes : Option Bytes → Files → Type 0
  Changes = Changed e r pointer change

  begun : (x : Option Bytes) (a : Files) → Begins x a → Notes x a
  begun x a p = (p.1, inl p.0)

  -- A read that fails is an error, whatever it has delivered.
  failed-Leads :
      (x : Option Bytes) (d : Decoded RecoveryRecord) (failure : Err)
      → Leads (Notes x) (Begins x) (Reads x) (lift (decoded_record d (some failure)))
  unfolding decoded_record checked_record
  failed-Leads x (bad f) failure = fail-Leads _ _ (begun x)
  failed-Leads x unfinished failure = fail-Leads _ _ (begun x)
  failed-Leads x (value s end_of_text) failure = fail-Leads _ _ (begun x)
  failed-Leads x (value s another) failure = fail-Leads _ _ (begun x)
  failed-Leads x (value s (broken f)) failure = fail-Leads _ _ (begun x)

  read_text-Leads :
      (x : Option Bytes) (text : Bytes)
      → e.decode (take record_limit text) ≡ value r end_of_text
      → Leads (Notes x) (Begins x) (Reads x) (read_text e text)
  unfolding decoded_record checked_record
  read_text-Leads x text d = call-Leads (Notes x) _ either
    where
      whole : decoded_record (e.decode (take record_limit text)) none ≡ ok (some r)
      whole = rw d (rw supported refl)

      either :
          (outcome : Option (ℕ × Err))
          → Leads (Notes x) (Begins x) (Reads x) (
              lift (
                decoded_record
                  (e.decode (take record_limit (delivered outcome text)))
                  (failure_of outcome)))
      either none = rw whole (pure-Leads _ _ λ a p. (refl, p))
      either (some (n, f)) = failed-Leads x _ f

  -- `read` gives the record, or an error.
  pub read_record-Leads : (x : Option Bytes) → Leads (Notes x) (Begins x) (Reads x) (read_record e)
  unfolding read_record
  read_record-Leads x =
      >>-Leads _ (Begins x) _ _ (attempt-Leads _ _ _ (begun x))
        (record { leads = λ w p. found w p (lookup e.path w.files) p.0.1 })
    where
      found :
          (w : World) (p : Begins x w.files) (content : Option Bytes)
          → content ≡ some p.0.0
          → Outcome (Reads x) (Notes x) (read_found e content w)
      found w p none h = cc
      found w p (some text) h =
          let same : text ≡ p.0.0 = cc in (read_text-Leads x text (rw same p.0.2)).leads w p

  fill_record-Quiet : Quiet fill_record
  unfolding fill_record
  fill_record-Quiet =
      >>-Quiet _ _
        (>>-Quiet _ _
          (>>-Quiet _ _
            (>>-Quiet _ _ (>>-Quiet _ _ attempt_plain-Quiet attempt_plain-Quiet)
              attempt_plain-Quiet)
            attempt_plain-Quiet)
          attempt_plain-Quiet)
        attempt_plain-Quiet

  write_encoded-Leads :
      (x : Option Bytes) (b : Option Bytes)
      → e.encode (stamped e (change r)) ≡ b
      → Leads (Notes x) (Begins x) (λ _. Changes x) (write_encoded e b)
  unfolding write_encoded
  write_encoded-Leads x none h = fail-Leads _ _ (begun x)
  write_encoded-Leads x (some b) h = >>-Leads _ (Begins x) _ _ (attempt-Leads _ _ _ (begun x)) (
      >>-Leads _ (Begins x) _ _ (Quiet-Leads _ _ (staged-Quiet _ fill_record-Quiet) (begun x)) (
        >>-Leads _ (Changes x) _ _ (put-Leads _ _ _ placed)
          (attempt_plain-Leads _ λ a p. (p.0, inr p.1))))
    where
      fits : length (b ++ newline ∷ []) ≤ record_limit
      fits = omega (arith, length-append b (newline ∷ []), good.is_short b h)

      readable :
          e.decode (take record_limit (b ++ newline ∷ []))
          ≡ value (stamped e (change r)) end_of_text
      readable = rw (take_all record_limit (b ++ newline ∷ []) fits) (good.round_trip b h)

      placed : (a : Files) → Begins x a → Changes x (insert e.path (b ++ newline ∷ []) a)
      placed a p = (
        lookup-insert e.path pointer (b ++ newline ∷ []) a ∙ rw apart p.1,
        (
          b ++ newline ∷ [],
          lookup-insert e.path e.path (b ++ newline ∷ []) a ∙ rw (bytes_eq_refl e.path),
          readable,
        ),
      )

  -- The checkpoint behind which the recovery begins.
  pub checkpoint-Leads :
      (x : Option Bytes) → Leads (Notes x) (Begins x) (λ _. Changes x) (checkpoint e change)
  unfolding checkpoint write_record
  checkpoint-Leads x = >>=-Leads _ (Reads x) _ _ (read_record-Leads x) either
    where
      either :
          (o : Option RecoveryRecord)
          → Leads (Notes x) (Reads x o) (λ _. Changes x) (changed e change o)
      either none = fail-Leads _ _ λ a p. begun x a p.1
      either (some s) = record {
        leads = λ w p.
            let same : s ≡ r = cc in
            rw same (
              (>>-Leads _ (Begins x) _ _ (attempt-Leads _ _ _ (begun x))
                  (write_encoded-Leads x _ refl)).leads
                w p.1);
      }
