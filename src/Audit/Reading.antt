-- ===== src/Audit/Reading.antt =====
-- `Append` of the audit log: what a reader finds in the file after it, whatever fails.
use pmux.Base.{ℕ, ◌≡◌, refl, ap, ◌∙◌, Option, none, some, List, [], ◌∷◌, ◌++◌, Bytes}
use pmux.Pmuxerr.{Result, ok, err, Err, ◌>>=◌, ◌>>◌, >>=-eq-ok}
use pmux.Files.{File, newline, contents, AppendFaults}
use pmux.Files.Lines.{NoNewline, lines_of}
use pmux.Files.Append.{line_of, Appended, written, append-Appended}
use pmux.Audit.{
  Entry, Coding, Log, messages, record_version, sanitize_entry, validate_entry, encode_entry,
  append_payload, append_entry, parse_entry, parse_entries,
}

-- What the documentation of `encoding/json` gives: a marshalled entry is one line, since control
-- characters are escaped, and unmarshalling it with trailing white space gives the entry back.
pub record IsFaithful (c : Coding) : Type 0 where
  pub one_line : (e : Entry) (b : Bytes) → c.encode e ≡ some b → NoNewline b
  pub round_trip :
      (e : Entry) (b : Bytes) → c.encode e ≡ some b → c.decode (b ++ newline ∷ []) ≡ some e

-- The records that a log holds.
abbrev pub records : Coding → Log → Result (List Entry)
records c l = parse_entries c (lines_of (contents l.file))

-- An `Append` of `e` to a log that held `es`: an error with the records kept, or the record behind
-- them.
pub data Logged (c : Coding) (es : List Entry) (e : Entry) (l : Log)
    : Result (Unit {0}) × Log → Type 0 where
  kept :
      (x : Err) (l' : Log)
      → records c l' ≡ ok es
      → l'.secrets ≡ l.secrets
      → Logged c es e l (err x, l')
  logged :
      (r : Result (Unit {0})) (l' : Log)
      → validate_entry e ≡ ok tt
      → records c l' ≡ ok (es ++ e ∷ [])
      → l'.secrets ≡ l.secrets
      → Logged c es e l (r, l')

parse_entries-snoc :
    (c : Coding) (lines : List Bytes) (line : Bytes) (es : List Entry) (e : Entry)
    → parse_entries c lines ≡ ok es
    → parse_entry c line ≡ ok e
    → parse_entries c (lines ++ line ∷ []) ≡ ok (es ++ e ∷ [])
unfolding parse_entries
parse_entries-snoc c [] line [] e h p = rw p
parse_entries-snoc c [] line (x ∷ xs) e h p = cc
parse_entries-snoc c (l ∷ lines) line es e h p =
    let (first, p0, q) =
      >>=-eq-ok (parse_entry c l) (λ x. parse_entries c lines >>= λ xs. ok (x ∷ xs)) h in
    let (rest, r0, s0) = >>=-eq-ok (parse_entries c lines) (λ xs. ok (first ∷ xs)) q in
    let same : first ∷ rest ≡ es = cc in
    rw p0 (
      rw (parse_entries-snoc c lines line rest e r0 p)
        (ap (λ (xs : List Entry). ok (xs ++ e ∷ [])) same))

module _ (c : Coding) (faithful : IsFaithful c) (f : AppendFaults) (l : Log) (es : List Entry)
    (held : records c l ≡ ok es) (entry : Entry) (versioned : entry.version ≡ record_version) where
  of_Appended :
      (b : Bytes)
      → c.encode entry ≡ some b
      → validate_entry entry ≡ ok tt
      → {o : Result (Unit {0}) × File} → Appended l.file (line_of b) o
      → Logged c es entry l (o.0, record l { file = o.1 })
  of_Appended b enc valid (Appended.lost x g same) =
      kept x _ (ap (parse_entries c) same ∙ held) refl
  of_Appended b enc valid (written r g more clean) =
      logged r _ valid
        (ap (parse_entries c) more
          ∙ parse_entries-snoc c (lines_of (contents l.file)) (line_of b) es entry held parses)
        refl
    where
      parses : parse_entry c (line_of b) ≡ ok entry
      parses =
          unfold parse_entry in rw (faithful.round_trip entry b enc, parse_entry) (rw versioned)

  append_payload-Logged :
      (o : Option Bytes)
      → c.encode entry ≡ o
      → validate_entry entry ≡ ok tt
      → Logged c es entry l (append_payload f l (encode_entry c entry))
  unfolding encode_entry append_payload
  append_payload-Logged none enc valid = rw (enc, append_payload, encode_entry) (kept _ l held refl)
  append_payload-Logged (some b) enc valid =
      rw (enc, append_payload, encode_entry)
        (of_Appended b enc valid
          (append-Appended messages f b (faithful.one_line entry b enc) l.file))

  checked_payload-Logged :
      (v : Result (Unit {0}))
      → validate_entry entry ≡ v
      → Logged c es entry l (append_payload f l (v >> encode_entry c entry))
  checked_payload-Logged (err x) valid = unfold append_payload in kept x l held refl
  checked_payload-Logged (ok u) valid = append_payload-Logged (c.encode entry) refl valid

-- `Append` with a faithful encoding to a log that holds the records `es`, whichever calls fail and
-- wherever the write is torn: it returns an error and the log still holds `es`, or the log holds
-- behind them the entry, dated and redacted, which has the required fields and a known result; a
-- success is the latter, and the known secrets stay.
pub append_entry-Logged :
    (c : Coding)
    → IsFaithful c
    → (f : AppendFaults) (now : ℕ) (e : Entry) (l : Log) (es : List Entry) → records c l ≡ ok es
    → Logged c es (sanitize_entry now l.secrets e) l (append_entry c f now e l)
unfolding append_entry
append_entry-Logged c faithful f now e l es held =
    checked_payload-Logged c faithful f l es held (sanitize_entry now l.secrets e)
      (unfold sanitize_entry in refl) (validate_entry (sanitize_entry now l.secrets e)) refl
