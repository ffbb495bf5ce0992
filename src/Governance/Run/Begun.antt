-- ===== src/Governance/Run/Begun.antt =====
-- The journal behind a `Begin` and a `Record` that succeed: the dispatch is on record.
use pmux.Base.{
  ℕ, false, ◌≡◌, refl, sym, ap, ◌∙◌, none, some, List, [], ◌∷◌, Bytes, bytes_eq, bytes_eq_refl,
}
use pmux.Base.Assoc.{lookup, insert, lookup-insert}
use pmux.Pmuxerr.{Result, ok, err, ◌>>=◌, >>=-eq-ok, >>-eq-ok, unless-eq-ok}
use pmux.Redact.{known}
use pmux.Journal.{Tx, Step, Transactions, in_progress, is_closed, sanitize_map, sanitize_step}
use pmux.Journal.Encoding.{Encoding, IsFaithful}
use pmux.Journal.Store.{
  Journal, Call, read_events, store_event, prepare_begin, begin, begin_event, record_step,
  new_tx_id, dated,
}
use pmux.Journal.Store.Spec.{view, update-open, with_step, opened, Refines, unchanged, updated}
use pmux.Journal.Store.Steps.{record_step-Refines}
use pmux.Journal.Store.Begin.{begin-Refines, begun_map, forget, ReturnsOnly}
use pmux.Journal.Store.Success.{success_updates}
use pmux.Governance.{mutation_target}
use pmux.Governance.Run.{dispatch_step}

-- A journal in which the dispatch of a command is on record and in progress.
pub record IsRecorded (c : Encoding) (secrets : List Bytes) (now : ℕ) (operation : Bytes)
    (j : Journal) : Type 0 where
  pub txs : Transactions
  pub id : Bytes
  pub tx : Tx
  pub held : view c j ≡ ok txs
  pub there : lookup id txs ≡ some tx
  pub running : tx.state_of ≡ in_progress
  pub named : tx.operation ≡ known operation secrets
  pub stepped :
      tx.steps ≡ dated now (sanitize_step (dispatch_step (mutation_target operation)) secrets) ∷ []

secrets_kept :
    {c : Encoding} {txs : Transactions} {j : Journal} {spec : Result Transactions}
    (o : Result (Unit {0}) × Journal)
    → Refines c txs j spec o
    → o.1.secrets ≡ j.secrets
secrets_kept o (unchanged spec x j' h s) = s
secrets_kept o (updated next r j' h s) = s

pub lookup_inserted :
    (id : Bytes) (tx : Tx) (txs : Transactions) → lookup id (insert id tx txs) ≡ some tx
lookup_inserted id tx txs = rw (lookup-insert id id tx txs) (rw (bytes_eq_refl id))

begin-drawn :
    (c : Encoding) (call : Call) (operation id : Bytes) (j : Journal)
    → (begin c call operation [] j).0 ≡ ok id
    → new_tx_id c call ≡ ok id
unfolding begin prepare_begin
begin-drawn c call operation id j h =
    let prepared = prepare_begin c call operation [] j in
    let all =
      >>-eq-ok (store_event c call j (prepared >>= λ p. ok p.1)).0 (prepared >>= λ p. ok p.0) h in
    let (p, made, same) = >>=-eq-ok prepared (λ p. ok p.0) all in
    let (_, chain) = unless-eq-ok (bytes_eq operation []) _ _ made in
    let (i, drawn, rest) =
      >>=-eq-ok (new_tx_id c call)
        (λ i. read_events c call.reading j.file >>= λ events.
          ok (i, begin_event call j events i operation []))
        chain in
    let (events, _, pair) =
      >>=-eq-ok (read_events c call.reading j.file)
        (λ events. ok (i, begin_event call j events i operation [])) rest in
    let one : p.0 ≡ id = cc in let two : i ≡ p.0 = cc in drawn ∙ ap ok (two ∙ one)

returned : (id b : Bytes) (r : Result Bytes) → r ≡ ok b → ReturnsOnly id r → b ≡ id
returned id b (ok x) h o = let same : x ≡ b = cc in sym same ∙ o
returned id b (err x) h o = cc

forgotten : (b : Bytes) (r : Result Bytes) → r ≡ ok b → forget r ≡ ok tt
forgotten b (ok x) h = refl
forgotten b (err x) h = cc

pub in_progress_open : is_closed in_progress ≡ false
unfolding is_closed
in_progress_open = refl

module _ (c : Encoding) (faithful : IsFaithful c) (j : Journal) (txs : Transactions)
    (held : view c j ≡ ok txs) (operation id : Bytes) (call next : Call)
    (fresh : (i : Bytes) → new_tx_id c call ≡ ok i → lookup i txs ≡ none)
    (started : (begin c call operation [] j).0 ≡ ok id) where
  begin-Refines_drawn :
      Refines c txs j
        (ok (begun_map call j id operation [] txs))
        (forget (begin c call operation [] j).0, (begin c call operation [] j).1)
  begin-Refines_drawn =
      let drawn = begin-drawn c call operation id j started in
      (begin-Refines c faithful call j txs held operation id [] drawn (fresh id drawn)).0

  pub begun_view :
      view c (begin c call operation [] j).1 ≡ ok (begun_map call j id operation [] txs)
  begun_view = success_updates c txs j _ _ _ begin-Refines_drawn (forgotten id _ started) refl

  pub begun_there :
      lookup id (begun_map call j id operation [] txs)
      ≡ some (opened id (known operation j.secrets) (sanitize_map [] j.secrets) call.now)
  begun_there = lookup_inserted id _ txs

  pub begin_record-IsRecorded :
      (record_step c next id
          (dispatch_step (mutation_target operation))
          (begin c call operation [] j).1).0
        ≡ ok tt
      → IsRecorded c j.secrets next.first_now operation
          (record_step c next id
            (dispatch_step (mutation_target operation))
            (begin c call operation [] j).1).1
  begin_record-IsRecorded done =
      let j1 = (begin c call operation [] j).1 in
      let s : Step = dispatch_step (mutation_target operation) in
      let same : j1.secrets ≡ j.secrets = secrets_kept _ begin-Refines_drawn in
      let first : Tx = opened id (known operation j.secrets) (sanitize_map [] j.secrets) call.now in
      let added : Step = dated next.first_now (sanitize_step s j1.secrets) in
      record {
        txs = insert id (with_step added first) (begun_map call j id operation [] txs);
        id = id;
        tx = with_step added first;
        held =
            success_updates c _ j1 _ _ _ (record_step-Refines c faithful next j1 _ begun_view id s)
              done (update-open id (with_step added) _ first begun_there in_progress_open);
        there = lookup_inserted id _ _;
        running = refl;
        named = refl;
        stepped = ap (λ (l : List Bytes). dated next.first_now (sanitize_step s l) ∷ []) same;
      }
