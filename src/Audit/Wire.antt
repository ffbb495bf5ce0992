-- ===== src/Audit/Wire.antt =====
-- A concrete encoding of audit entries that is faithful: it stands for `encoding/json` where the
-- theorems about the audit log are applied.
use mathlib.Core.Path.{subst}
use pmux.Base.{ℕ, zero, suc, ◌≡◌, refl, ap, Option, none, some, List, [], ◌∷◌, ◌++◌, Bytes}
use pmux.Files.{newline}
use pmux.Files.Lines.{NoNewline}
use pmux.Journal.Wire.{bytes, entries, bytes-IsCoder, entries-IsCoder, tagged-IsCoder}
use pmux.Journal.Wire.Coders.{
  Coder, nat, pair, convert, nat-IsCoder, pair-IsCoder, convert-IsCoder, IsCoder,
}
use pmux.Audit.{Entry, Outcome, Coding, succeeded, failed, rolled_back, other_outcome}
use pmux.Audit.Reading.{IsFaithful}
use pmux.Audit.Accept.{IsTotal}

abbrev outcome_of_code : ℕ × Bytes → Outcome
outcome_of_code (zero, b) = succeeded
outcome_of_code (suc zero, b) = failed
outcome_of_code (suc (suc zero), b) = rolled_back
outcome_of_code (suc (suc (suc n)), b) = other_outcome b

abbrev code_of_outcome : Outcome → ℕ × Bytes
code_of_outcome succeeded = (0, [])
code_of_outcome failed = (1, [])
code_of_outcome rolled_back = (2, [])
code_of_outcome (other_outcome b) = (3, b)

outcome_codes : (o : Outcome) → outcome_of_code (code_of_outcome o) ≡ o
outcome_codes succeeded = refl
outcome_codes failed = refl
outcome_codes rolled_back = refl
outcome_codes (other_outcome b) = refl

abbrev EntryCode : Type 0
EntryCode =
    ((ℕ × ℕ) × (Bytes × Bytes)) × ((Bytes × Bytes) × (List (Bytes × Bytes) × (Outcome × Bytes)))

abbrev entry_of_code : EntryCode → Entry
entry_of_code (((v, t), (o, a)), ((c, g), (p, (r, x)))) = record {
  version = v;
  timestamp = t;
  operation = o;
  actor = a;
  command = c;
  target = g;
  params = p;
  outcome = r;
  error_code = x;
}

abbrev code_of_entry : Entry → EntryCode
code_of_entry e = (
  ((e.version, e.timestamp), (e.operation, e.actor)),
  ((e.command, e.target), (e.params, (e.outcome, e.error_code))),
)

abbrev entry : Coder Entry
entry = convert entry_of_code code_of_entry (
    pair (pair (pair nat nat) (pair bytes bytes)) (
      pair (pair bytes bytes)
        (pair entries (pair (convert outcome_of_code code_of_outcome (pair nat bytes)) bytes))))

entry-IsCoder : IsCoder entry
entry-IsCoder =
    convert-IsCoder _ entry_of_code code_of_entry
      (pair-IsCoder _ _
        (pair-IsCoder _ _ (pair-IsCoder nat nat nat-IsCoder nat-IsCoder)
          (pair-IsCoder bytes bytes bytes-IsCoder bytes-IsCoder))
        (pair-IsCoder _ _ (pair-IsCoder bytes bytes bytes-IsCoder bytes-IsCoder) (
          pair-IsCoder _ _ entries-IsCoder (
            pair-IsCoder _ _
              (convert-IsCoder _ outcome_of_code code_of_outcome tagged-IsCoder outcome_codes)
              bytes-IsCoder))))
      (λ _. refl)

abbrev without_rest : Option (Entry × Bytes) → Option Entry
without_rest none = none
without_rest (some (e, s)) = some e

abbrev pub wire : Coding
wire = record { encode = λ e. some (entry.put e); decode = λ b. without_rest (entry.get b) }

pub wire-IsFaithful : IsFaithful wire
wire-IsFaithful = record {
  one_line =
      λ e b h. let same : entry.put e ≡ b = cc in subst NoNewline same (entry-IsCoder.plain e);
  round_trip = λ e b h.
      let same : entry.put e ≡ b = cc in
      subst (λ (x : Bytes). without_rest (entry.get (x ++ newline ∷ [])) ≡ some e) same
        (ap without_rest (entry-IsCoder.get-put e (newline ∷ [])));
}

pub wire-IsTotal : IsTotal wire
wire-IsTotal e = (entry.put e, refl)
