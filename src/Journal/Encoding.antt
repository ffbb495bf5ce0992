-- ===== src/Journal/Encoding.antt =====
-- What the journal uses of `encoding/json`, `time` and `crypto/rand`.
use pmux.Base.{ℕ, Option, some, [], ◌∷◌, ◌++◌, Bytes, ◌≡◌}
use pmux.Files.{newline}
use pmux.Files.Lines.{NoNewline}
use pmux.Journal.{Event}

-- `encode` is `json.Marshal` of an event, `none` its error; `decode` is `json.Unmarshal` of a line
-- into a fresh event; `stamp` is `now.UTC().Format("20060102T150405")`.
pub record Encoding : Type 0 where
  pub encode : Event → Option Bytes
  pub decode : Bytes → Option Event
  pub stamp : ℕ → Bytes

-- What the documentation of `encoding/json` gives: a marshalled event is one line, since control
-- characters are escaped, and unmarshalling it with trailing white space gives the event back.
pub record IsFaithful (c : Encoding) : Type 0 where
  pub one_line : (e : Event) (b : Bytes) → c.encode e ≡ some b → NoNewline b
  pub round_trip :
      (e : Event) (b : Bytes) → c.encode e ≡ some b → c.decode (b ++ newline ∷ []) ≡ some e

-- `json.Marshal` of an event succeeds: its fields are strings, numbers, maps of strings and times of
-- a year up to 9999.
abbrev pub IsTotal : Encoding → Type 0
IsTotal c = (e : Event) → (b : Bytes) × (c.encode e ≡ some b)
