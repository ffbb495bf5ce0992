-- ===== src/Journal/Store/Spec.antt =====
-- What the journal promises: a map of transactions, and each method as one update of it or a refusal.
use pmux.Base.{ℕ, false, ◌≡◌, Option, none, some, List, [], ◌∷◌, ◌++◌, Bytes, if◌then◌else◌}
use pmux.Base.Assoc.{lookup, insert}
use pmux.Pmuxerr.{Result, ok, err, ◌>>=◌, new_error, config_mutation_conflict, environment, Err}
use pmux.Journal.{Tx, TxState, Step, Transactions, in_progress, is_closed, corrupt, fold}
use pmux.Journal.Encoding.{Encoding}
use pmux.Journal.Store.{Journal}
use pmux.Journal.Store.Reading.{read_all}

-- The transactions that a journal holds.
abbrev pub view : Encoding → Journal → Result Transactions
view c j = read_all c j.file >>= fold

update_open : Bytes → (Tx → Tx) → Transactions → Option Tx → Result Transactions
update_open id f txs none = err (corrupt "journal transaction does not exist")
update_open id f txs (some tx) =
    if is_closed tx.state_of
    then err
        (new_error config_mutation_conflict environment "journal transaction is already closed")
    else ok (insert id (f tx) txs)

-- An update of an open transaction; one that is absent or closed is refused.
unfoldable pub update : Bytes → (Tx → Tx) → Transactions → Result Transactions
unfolding update_open
update id f txs = update_open id f txs (lookup id txs)

pub update-open :
    (id : Bytes) (f : Tx → Tx) (txs : Transactions) (tx : Tx)
    → lookup id txs ≡ some tx
    → is_closed tx.state_of ≡ false
    → update id f txs ≡ ok (insert id (f tx) txs)
unfolding update
update-open id f txs tx l o = rw (l, update_open) (rw o)

abbrev pub with_step : Step → Tx → Tx
with_step s tx = record tx { steps = tx.steps ++ s ∷ [] }

abbrev pub with_state : TxState → Tx → Tx
with_state s tx = record tx { state_of = s }

abbrev pub opened : Bytes → Bytes → List (Bytes × Bytes) → ℕ → Tx
opened id operation metadata now = record {
  id = id;
  operation = operation;
  metadata = metadata;
  steps = [];
  state_of = in_progress;
  began_at = now;
}

-- A method of a journal that held `txs`, against what the map would do: an error may leave the map
-- as it was, and only an update that the map accepts is ever seen or reported as a success.
pub data Refines (c : Encoding) (txs : Transactions) (j : Journal)
    : Result Transactions → Result (Unit {0}) × Journal → Type 0 where
  unchanged :
      (spec : Result Transactions) (x : Err) (j' : Journal)
      → view c j' ≡ ok txs
      → j'.secrets ≡ j.secrets
      → Refines c txs j spec (err x, j')
  updated :
      (next : Transactions) (r : Result (Unit {0})) (j' : Journal)
      → view c j' ≡ ok next
      → j'.secrets ≡ j.secrets
      → Refines c txs j (ok next) (r, j')
