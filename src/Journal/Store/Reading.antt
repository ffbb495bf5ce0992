-- ===== src/Journal/Store/Reading.antt =====
-- Reading the journal back: a method's append adds its event, or nothing, for the next reader.
use pmux.Base.{
  ℕ, ◌+◌, false, ◌≡◌, refl, sym, ap, ◌∙◌, Option, none, some, List, [], ◌∷◌, ◌++◌, Bytes, take, All,
  bytes_eq, arith, if◌then◌else◌,
}
use mathlib.Core.Path.{subst}
use pmux.Pmuxerr.{
  wrap, foreign, unhandled_internal, internal, environment, journal_corrupt, >>-eq-ok, Result, ok,
  err, Err, ◌>>=◌, >>=-eq-ok, ◌>>◌,
}
use pmux.Files.{File, newline, contents, append, AppendFaults, read_lines}
use pmux.Files.Lines.{lines_of}
use pmux.Files.Append.{line_of, Appended, written, append-Appended}
use pmux.Journal.{Event, event_version, u64, last_sequence, next_sequence}
use pmux.Journal.Encoding.{Encoding, IsFaithful}
use pmux.Journal.Store.{
  ReadFaults, parse_line, read_loop, read_broken, read_events, append_event, messages,
}

-- What `readEvents` returns when no call fails.
abbrev pub read_all : Encoding → File → Result (List Event)
read_all c file = read_loop c 0 (lines_of (contents file))

read_broken-fails :
    (c : Encoding) (r : List Bytes × Bytes) (e : Err) (events : List Event)
    → read_broken c r e ≡ ok events
    → ⊥
unfolding read_broken
read_broken-fails c (lines, rest) e events h =
    let (es, p, q) =
      >>=-eq-ok (read_loop c 0 lines)
        (λ es.
          (if bytes_eq rest []
            then ok tt
            else parse_line c (last_sequence 0 es) rest >>= λ _. ok tt)
          >> err (wrap e journal_corrupt environment "could not read operation journal"))
        h in
    let k : err (wrap e journal_corrupt environment "could not read operation journal")
        ≡ ok events =
      >>-eq-ok
        (if bytes_eq rest [] then ok tt else parse_line c (last_sequence 0 es) rest >>= λ _. ok tt)
        _ q in
    cc

-- A reader that returns events has seen the whole file.
pub read_events-read_all :
    (c : Encoding) (f : ReadFaults) (file : File) (events : List Event)
    → read_events c f file ≡ ok events
    → read_all c file ≡ ok events
read_events-read_all c f none events h = unfold read_events read_loop read_lines in h
read_events-read_all c f (some file) events h = unfold read_events in opened f.open_file f.read h
  where
    opened :
        (o : Option Err) (r : Option (ℕ × Err))
        → (elim o [
          | some e ↦ err (wrap e journal_corrupt environment "could not open operation journal")
          | none ↦ elim r [
            | none ↦ read_loop c 0 (read_lines file).0
            | some (n, e) ↦ read_broken c (read_lines (take n file)) e
          ]
        ])
          ≡ ok events
        → read_all c (some file) ≡ ok events
    opened (some e) r h = cc
    opened none none h = h
    opened none (some (n, e)) h = absurd (read_broken-fails c (read_lines (take n file)) e events h)

-- An event that may follow one with sequence `last`.
pub record Fits (last : ℕ) (e : Event) : Type 0 where
  pub right_version : e.version ≡ event_version
  pub in_sequence : e.sequence ≡ u64 (last + 1)
  pub named : bytes_eq e.tx_id [] ≡ false

parse_line-ok :
    (c : Encoding) (last : ℕ) (line : Bytes) (e : Event)
    → Fits last e
    → c.decode line ≡ some e
    → parse_line c last line ≡ ok e
unfolding parse_line
parse_line-ok c last line e fits h = ground arith

read_loop-snoc :
    (c : Encoding) (last : ℕ) (lines : List Bytes) (line : Bytes) (events : List Event) (e : Event)
    → read_loop c last lines ≡ ok events
    → parse_line c (last_sequence last events) line ≡ ok e
    → read_loop c last (lines ++ line ∷ []) ≡ ok (events ++ e ∷ [])
unfolding read_loop last_sequence
read_loop-snoc c last [] line [] e h p = rw p
read_loop-snoc c last [] line (x ∷ xs) e h p = cc
read_loop-snoc c last (l ∷ lines) line events e h p =
    let (first, p0, q) =
      >>=-eq-ok (parse_line c last l) (λ x. read_loop c x.sequence lines >>= λ es. ok (x ∷ es)) h in
    let (es, r0, s0) = >>=-eq-ok (read_loop c first.sequence lines) (λ es. ok (first ∷ es)) q in
    let same : first ∷ es ≡ events = cc in
    let p' : parse_line c (last_sequence first.sequence es) line ≡ ok e =
      subst (λ (l : List Event). parse_line c (last_sequence last l) line ≡ ok e) (sym same) p in
    let whole : read_loop c last ((l ∷ lines) ++ line ∷ []) ≡ ok (first ∷ (es ++ e ∷ [])) =
      ap
        (λ (r : Result Event).
          r >>= λ x. read_loop c x.sequence (lines ++ line ∷ []) >>= λ t. ok (x ∷ t))
        p0
      ∙ ap (λ (r : Result (List Event)). r >>= λ t. ok (first ∷ t))
          (read_loop-snoc c first.sequence lines line es e r0 p') in
    whole ∙ ap (λ (l : List Event). ok (l ++ e ∷ [])) same

pub next_sequence-last :
    (events : List Event) → next_sequence events ≡ u64 (last_sequence 0 events + 1)
unfolding next_sequence last_sequence
next_sequence-last [] = refl
next_sequence-last (e ∷ events) = refl

-- After an append of an event that may follow, a reader finds the old events, or the old ones and
-- the new one; and the latter if the append succeeded.
pub data Stored (c : Encoding) (events : List Event) (e : Event)
    : Result (Unit {0}) × File → Type 0 where
  lost : (x : Err) (g : File) → read_all c g ≡ ok events → Stored c events e (err x, g)
  stored :
      (r : Result (Unit {0})) (g : File)
      → read_all c g ≡ ok (events ++ e ∷ [])
      → Stored c events e (r, g)

module _ (c : Encoding) (faithful : IsFaithful c) (e : Event) (events : List Event)
    (fits : Fits (last_sequence 0 events) e) (file : File) (h : read_all c file ≡ ok events) where
  of_Appended :
      (b : Bytes)
      → c.encode e ≡ some b
      → {o : Result (Unit {0}) × File} → Appended file (line_of b) o
      → Stored c events e o
  of_Appended b enc (Appended.lost x g same) = lost x g (ap (read_loop c 0) same ∙ h)
  of_Appended b enc (written r g more clean) = stored r g (
      ap (read_loop c 0) more
      ∙ read_loop-snoc c 0 (lines_of (contents file)) (line_of b) events e h (
          parse_line-ok c (last_sequence 0 events) (line_of b) e fits
            (faithful.round_trip e b enc)))

  pub append_event-Stored : (f : AppendFaults) → Stored c events e (append_event c f e file)
  unfolding append_event
  append_event-Stored f = encoded (c.encode e) refl
    where
      encoded :
          (o : Option Bytes)
          → c.encode e ≡ o
          → Stored c events e (elim o [
            | none ↦ (
              err (
                  wrap
                    (foreign "json: unsupported value")
                    unhandled_internal
                    internal
                    "could not encode operation journal record"),
              file,
            )
            | some payload ↦ append messages f (payload ++ newline ∷ []) file
          ])
      encoded none enc = lost _ file h
      encoded (some b) enc =
          of_Appended b enc (append-Appended messages f b (faithful.one_line e b enc) file)

parse_line-named :
    (c : Encoding) (last : ℕ) (line : Bytes) (e : Event)
    → parse_line c last line ≡ ok e
    → bytes_eq e.tx_id [] ≡ false
unfolding parse_line
parse_line-named c last line e h = ground arith

-- Every event that was read names a transaction.
pub read_loop-named :
    (c : Encoding) (last : ℕ) (lines : List Bytes) (events : List Event)
    → read_loop c last lines ≡ ok events
    → All (λ e. bytes_eq e.tx_id [] ≡ false) events
unfolding read_loop
read_loop-named c last [] [] h = tt
read_loop-named c last [] (e ∷ events) h = cc
read_loop-named c last (l ∷ lines) events h =
    let (first, p, q) =
      >>=-eq-ok (parse_line c last l) (λ x. read_loop c x.sequence lines >>= λ es. ok (x ∷ es)) h in
    let (es, r, s) = >>=-eq-ok (read_loop c first.sequence lines) (λ es. ok (first ∷ es)) q in
    let same : first ∷ es ≡ events = cc in
    subst (λ (l : List Event). All (λ e. bytes_eq e.tx_id [] ≡ false) l) same
      (parse_line-named c last l first p, read_loop-named c first.sequence lines es r)
