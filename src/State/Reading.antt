-- ===== src/State/Reading.antt =====
-- A document that has been saved is read back.
use pmux.Base.{
  ℕ, zero, suc, ◌≤◌, ◌<◌, ◌≡◌, refl, ap, ◌∙◌, Option, none, some, List, [], ◌∷◌, ◌++◌, Bytes, take,
  length, length-append, arith, bytes_eq_refl,
}
use pmux.Base.Assoc.{lookup, lookup-insert}
use pmux.Base.Int.{ℤ, pos}
use pmux.Pmuxerr.{Result, ok, err, config_unreadable, config_insecure_permissions}
use pmux.Files.{newline}
use pmux.State.{Outside}
use pmux.State.Disk.{
  World, M, Notice, ◌>>◌, lift, put, then_run, attempt, write_bytes, prune_document_backups,
  unless_complete, fill_temporary, remove_temporary,
}
use pmux.State.Store.{
  Document, value, end_of_text, schema_version, check_version, read_json, read_limit, write_encoded,
  write_json, save_document, load_document, loaded, backup_current, read_opened,
}
use pmux.State.Frame.{attempt-Keeps}
use pmux.State.Places.{backup-ne-document}
use pmux.State.Saving.{Same, Same-refl, Same-trans, prune-Leaves}
use pmux.State.Atomic.{dated}

-- A world in which no further call fails.
abbrev pub at_rest : List (Bytes × Bytes) → List Notice → ℕ → World
at_rest files notices leftovers = record {
  files = files;
  notices = notices;
  leftovers = leftovers;
  outcomes = [];
}

-- What the documentation of `encoding/json` gives: a value that is marshalled, with the newline that
-- `writeJSON` puts behind it, is read back into a zero value of any version, since `version` is always
-- written; the strings of the model are UTF-8. And text that is a value of the type is valid JSON.
pub record IsFaithful {V : Type 0} (d : Document V) : Type 0 where
  pub round_trip :
      (v : V) (b : Bytes)
      → d.codec.encode v ≡ some b
      → (n : ℤ)
      → d.codec.decode (d.set_version n d.zero_value) (b ++ newline ∷ []) ≡ value v end_of_text
  pub is_valid :
      (v : V) (b : Bytes)
      → d.codec.decode d.zero_value b ≡ value v end_of_text
      → d.codec.check_any b ≡ none

-- An operation that succeeds leaves files with a property.
pub record Ends (Q : List (Bytes × Bytes) → Type 0) (m : M (Unit {0})) : Type 0 where
  pub ends : (w : World) → (m w).0 ≡ ok tt → Q (m w).1.files

-- The last part decides.
pub >>-Ends : (Q : List (Bytes × Bytes) → Type 0) (m n : M (Unit {0})) → Ends Q n → Ends Q (m >> n)
>>-Ends Q m n hn = record { ends = λ w. last (m w) }
  where
    last :
        (x : Result (Unit {0}) × World)
        → (then_run (λ _. n) x).0 ≡ ok tt
        → Q (then_run (λ _. n) x).1.files
    last (ok u, w) h = hn.ends w h
    last (err e, w) h = cc

-- A last part that keeps the property may follow.
pub kept-Ends :
    (Q : List (Bytes × Bytes) → Type 0) (m n : M (Unit {0}))
    → Ends Q m
    → ((w : World) → Q w.files → Q (n w).1.files)
    → Ends Q (m >> n)
kept-Ends Q m n hm hn = record { ends = λ w h. first (m w) (hm.ends w) h }
  where
    first :
        (x : Result (Unit {0}) × World)
        → (x.0 ≡ ok tt → Q x.1.files)
        → (then_run (λ _. n) x).0 ≡ ok tt
        → Q (then_run (λ _. n) x).1.files
    first (ok u, w) q h = hn w (q refl)
    first (err e, w) q h = cc

abbrev pub Holds : Bytes → Bytes → List (Bytes × Bytes) → Type 0
Holds path payload files = lookup path files ≡ some payload

pub put-Ends : (path payload : Bytes) → Ends (Holds path payload) (put path payload)
put-Ends path payload = record {
  ends = λ w h. lookup-insert path path payload w.files ∙ rw (bytes_eq_refl path);
}

-- A write that succeeds has replaced the file.
pub write_bytes-Ends : (path payload : Bytes) → Ends (Holds path payload) (write_bytes path payload)
unfolding write_bytes
write_bytes-Ends path payload =
    >>-Ends _ (attempt config_unreadable "could not create PMux state directory") _ (
      >>-Ends _ (attempt config_insecure_permissions "could not protect PMux state directory") _ (
        >>-Ends _ (attempt config_unreadable "could not create temporary PMux state") _ (
          >>-Ends _ (unless_complete fill_temporary remove_temporary) _ (
            kept-Ends _ _ (attempt config_unreadable "could not flush PMux state directory")
              (put-Ends path payload)
              λ w same.
                (attempt-Keeps (Same path) (Same-refl path) (Same-trans path) config_unreadable
                    "could not flush PMux state directory").keeps
                  w
                ∙ same))))

pub take_all : (n : ℕ) (s : Bytes) → length s ≤ n → take n s ≡ s
take_all zero [] h = refl
take_all zero (c ∷ s) h = absurd (omega arith)
take_all (suc n) [] h = refl
take_all (suc n) (c ∷ s) h = ap (λ (t : Bytes). c ∷ t) (take_all n s (omega arith))

module _ {V : Type 0} (o : Outside) (d : Document V) where
  -- A document is there that holds the encoding of the value.
  abbrev pub Written : V → List (Bytes × Bytes) → Type 0
  Written v files =
      (b : Bytes) × (d.codec.encode v ≡ some b) × (lookup d.path files ≡ some (b ++ newline ∷ []))

  pub write_json-Ends : (v : V) → Ends (Written v) (write_json o d v)
  unfolding write_json
  write_json-Ends v = encoded (d.codec.encode v) refl
    where
      encoded : (x : Option Bytes) → d.codec.encode v ≡ x → Ends (Written v) (write_encoded o d x)
      encoded none e = record { ends = λ w h. unfold write_encoded in cc }
      encoded (some b) e = record {
        ends = λ w h.
            unfold write_encoded in (b, e, (write_bytes-Ends d.path (b ++ newline ∷ [])).ends w h);
      }

  -- A save that succeeds has written the value.
  pub save-Ends : (v : V) → Ends (Written (dated o d v)) (save_document o d v)
  unfolding save_document
  save-Ends v = >>-Ends _ (lift (d.validate (dated o d v))) _ (
      >>-Ends _ (backup_current o d) _ (
        kept-Ends _ _ (prune_document_backups d.path) (write_json-Ends (dated o d v))
          λ w (b, e, new).
            (b, e, (prune-Leaves d.path d.path (backup-ne-document d.path)).keeps w ∙ new)))

  -- A file that holds a whole value and is no longer than the limit is read.
  pub read_json-at_rest :
      (start v : V) (b : Bytes) (files : List (Bytes × Bytes)) (notices : List Notice) (l : ℕ)
      → lookup d.path files ≡ some b
      → length b ≤ read_limit
      → d.codec.decode start b ≡ value v end_of_text
      → read_json o d start (at_rest files notices l) ≡ (ok (some v), at_rest files notices l)
  unfolding read_json attempt
  read_json-at_rest start v b files notices l there small whole =
      rw there (unfold read_opened in rw (take_all read_limit b small) (rw whole))

  -- A valid document of the schema's version is loaded as it is.
  pub load_document-at_rest :
      (check : V → Result (Unit {0})) (v : V) (b : Bytes) (files : List (Bytes × Bytes))
      (notices : List Notice) (l : ℕ)
      → lookup d.path files ≡ some b
      → length b ≤ read_limit
      → d.codec.decode (d.set_version (pos schema_version) d.zero_value) b ≡ value v end_of_text
      → d.version v ≡ pos schema_version
      → d.validate v ≡ ok tt
      → load_document o d check (at_rest files notices l) ≡ (ok v, at_rest files notices l)
  unfolding load_document
  load_document-at_rest check v b files notices l there small whole dated valid =
      rw
        (read_json-at_rest (d.set_version (pos schema_version) d.zero_value) v b files notices l
          there small whole)
        (unfold loaded check_version in rw dated (rw valid))

  save-valid :
      (v : V) (w : World) → (save_document o d v w).0 ≡ ok tt → d.validate (dated o d v) ≡ ok tt
  unfolding save_document
  save-valid v w h = passed (d.validate (dated o d v)) h
    where
      passed :
          (r : Result (Unit {0}))
          → (then_run
              (λ _.
                backup_current o d
                >> (write_json o d (dated o d v) >> prune_document_backups d.path))
              (r, w)).0
            ≡ ok tt
          → r ≡ ok tt
      passed (ok u) h = refl
      passed (err e) h = cc

-- The encoding of a value is shorter than what a reader takes.
abbrev pub IsSmall : Option Bytes → Type 0
IsSmall none = Unit
IsSmall (some b) = length b < read_limit

module _ {V : Type 0} (o : Outside) (d : Document V) where
  pub saved-load :
      (check : V → Result (Unit {0})) (v : V) (w : World) (notices : List Notice) (l : ℕ)
      → IsFaithful d
      → IsSmall (d.codec.encode (dated o d v))
      → d.version (dated o d v) ≡ pos schema_version
      → (save_document o d v w).0 ≡ ok tt
      → load_document o d check (at_rest (save_document o d v w).1.files notices l)
        ≡ (ok (dated o d v), at_rest (save_document o d v w).1.files notices l)
  saved-load check v w notices l f small version h =
      let (b, e, there) = (save-Ends o d v).ends w h in
      let short : IsSmall (some b) = rw e at small in
      load_document-at_rest o d check (dated o d v) (b ++ newline ∷ []) _ notices l there
        (omega (arith, length-append b (newline ∷ [])))
        (f.round_trip (dated o d v) b e (pos schema_version)) version (save-valid o d v w h)
