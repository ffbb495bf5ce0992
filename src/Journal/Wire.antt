-- ===== src/Journal/Wire.antt =====
-- A concrete encoding of journal events that is faithful: it stands for `encoding/json` where the
-- theorems about the journal are applied. Numbers are written in unary, lists with their length.
pub mod Coders
use mathlib.Core.Path.{subst}
use pmux.Base.{
  ℕ, zero, suc, ◌≡◌, refl, sym, ap, ◌∙◌, Option, none, some, List, [], ◌∷◌, ◌++◌, Bytes, append-nil,
}
use pmux.Files.{newline}
use pmux.Files.Lines.{NoNewline}
use pmux.Journal.{
  Event, Step, TxState, EventType, in_progress, completed, failed, interrupted, rolled_back,
  other_state, other_type,
}
use pmux.Journal.Encoding.{Encoding, IsFaithful, IsTotal}
use Coders.{
  Coder, IsCoder, nat, pair, list, convert, nat-IsCoder, pair-IsCoder, list-IsCoder,
  convert-IsCoder,
}

abbrev pub bytes : Coder Bytes
bytes = list nat

abbrev pub entries : Coder (List (Bytes × Bytes))
entries = list (pair bytes bytes)

abbrev pub state_of_code : ℕ × Bytes → TxState
state_of_code (zero, b) = in_progress
state_of_code (suc zero, b) = completed
state_of_code (suc (suc zero), b) = failed
state_of_code (suc (suc (suc zero)), b) = interrupted
state_of_code (suc (suc (suc (suc zero))), b) = rolled_back
state_of_code (suc (suc (suc (suc (suc n)))), b) = other_state b

abbrev pub code_of_state : TxState → ℕ × Bytes
code_of_state in_progress = (0, [])
code_of_state completed = (1, [])
code_of_state failed = (2, [])
code_of_state interrupted = (3, [])
code_of_state rolled_back = (4, [])
code_of_state (other_state b) = (5, b)

abbrev pub type_of_code : ℕ × Bytes → EventType
type_of_code (zero, b) = EventType.begin
type_of_code (suc zero, b) = EventType.step
type_of_code (suc (suc zero), b) = EventType.state
type_of_code (suc (suc (suc n)), b) = other_type b

abbrev pub code_of_type : EventType → ℕ × Bytes
code_of_type EventType.begin = (0, [])
code_of_type EventType.step = (1, [])
code_of_type EventType.state = (2, [])
code_of_type (other_type b) = (3, b)

state_codes : (s : TxState) → state_of_code (code_of_state s) ≡ s
state_codes in_progress = refl
state_codes completed = refl
state_codes failed = refl
state_codes interrupted = refl
state_codes rolled_back = refl
state_codes (other_state b) = refl

type_codes : (t : EventType) → type_of_code (code_of_type t) ≡ t
type_codes EventType.begin = refl
type_codes EventType.step = refl
type_codes EventType.state = refl
type_codes (other_type b) = refl

pub bytes-IsCoder : IsCoder bytes
bytes-IsCoder = list-IsCoder nat nat-IsCoder

pub entries-IsCoder : IsCoder entries
entries-IsCoder =
    list-IsCoder (pair bytes bytes) (pair-IsCoder bytes bytes bytes-IsCoder bytes-IsCoder)

pub tagged-IsCoder : IsCoder (pair nat bytes)
tagged-IsCoder = pair-IsCoder nat bytes nat-IsCoder bytes-IsCoder

abbrev pub StepCode : Type 0
StepCode = (Bytes × Bytes) × ((Bytes × List (Bytes × Bytes)) × ℕ)

abbrev pub step_of_code : StepCode → Step
step_of_code ((n, a), ((t, u), w)) = record { name = n; action = a; target = t; undo = u; at = w }

abbrev pub code_of_step : Step → StepCode
code_of_step s = ((s.name, s.action), ((s.target, s.undo), s.at))

abbrev pub steps : Coder Step
steps = convert step_of_code code_of_step (pair (pair bytes bytes) (pair (pair bytes entries) nat))

steps-IsCoder : IsCoder steps
steps-IsCoder =
    convert-IsCoder _ step_of_code code_of_step
      (pair-IsCoder _ _ (pair-IsCoder bytes bytes bytes-IsCoder bytes-IsCoder)
        (pair-IsCoder _ _ (pair-IsCoder bytes entries bytes-IsCoder entries-IsCoder) nat-IsCoder))
      (λ _. refl)

abbrev pub first : List Step → Option Step
first [] = none
first (s ∷ ss) = some s

abbrev pub single : Option Step → List Step
single none = []
single (some s) = s ∷ []

first-single : (o : Option Step) → first (single o) ≡ o
first-single none = refl
first-single (some s) = refl

abbrev pub EventCode : Type 0
EventCode =
    ((ℕ × ℕ) × (ℕ × EventType))
    × ((Bytes × Bytes) × ((List (Bytes × Bytes) × Option Step) × (TxState × Bytes)))

abbrev pub event_of_code : EventCode → Event
event_of_code (((v, s), (t, k)), ((i, o), ((m, p), (q, r)))) = record {
  version = v;
  sequence = s;
  timestamp = t;
  type = k;
  tx_id = i;
  operation = o;
  metadata = m;
  step_of = p;
  state_of = q;
  reason = r;
}

abbrev pub code_of_event : Event → EventCode
code_of_event e = (
  ((e.version, e.sequence), (e.timestamp, e.type)),
  ((e.tx_id, e.operation), ((e.metadata, e.step_of), (e.state_of, e.reason))),
)

abbrev pub event : Coder Event
event = convert event_of_code code_of_event (
    pair (pair (pair nat nat) (pair nat (convert type_of_code code_of_type (pair nat bytes)))) (
      pair (pair bytes bytes) (
        pair (pair entries (convert first single (list steps)))
          (pair (convert state_of_code code_of_state (pair nat bytes)) bytes))))

event-IsCoder : IsCoder event
event-IsCoder =
    convert-IsCoder _ event_of_code code_of_event
      (pair-IsCoder _ _
        (pair-IsCoder _ _ (pair-IsCoder nat nat nat-IsCoder nat-IsCoder) (
          pair-IsCoder _ _ nat-IsCoder
            (convert-IsCoder _ type_of_code code_of_type tagged-IsCoder type_codes)))
        (pair-IsCoder _ _ (pair-IsCoder bytes bytes bytes-IsCoder bytes-IsCoder) (
          pair-IsCoder _ _
            (pair-IsCoder _ _ entries-IsCoder
              (convert-IsCoder _ first single (list-IsCoder steps steps-IsCoder) first-single))
            (pair-IsCoder _ _
              (convert-IsCoder _ state_of_code code_of_state tagged-IsCoder state_codes)
              bytes-IsCoder))))
      (λ _. refl)

abbrev pub without_rest : Option (Event × Bytes) → Option Event
without_rest none = none
without_rest (some (e, s)) = some e

-- The stamp is empty, which keeps the identifiers of a test short.
abbrev pub wire : Encoding
wire = record {
  encode = λ e. some (event.put e);
  decode = λ b. without_rest (event.get b);
  stamp = λ n. [];
}

pub wire-IsFaithful : IsFaithful wire
wire-IsFaithful = record {
  one_line =
      λ e b h. let same : event.put e ≡ b = cc in subst NoNewline same (event-IsCoder.plain e);
  round_trip = λ e b h.
      let same : event.put e ≡ b = cc in
      subst (λ (x : Bytes). without_rest (event.get (x ++ newline ∷ [])) ≡ some e) same
        (ap without_rest (event-IsCoder.get-put e (newline ∷ [])));
}

pub wire-IsTotal : IsTotal wire
wire-IsTotal e = (event.put e, refl)
