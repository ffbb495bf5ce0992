-- ===== src/Lock/Mutation.antt =====
-- `WithMutation`: when the mutation runs, and that the lock does not outlast it.
use mathlib.Core.Path.{subst}
use mathlib.Core.List.{Memᴰ}
use pmux.Base.{
  Bool, true, false, ◌&&◌, ◌≡◌, ◌⊎◌, inl, inr, refl, Option, none, some, List, [], ◌∷◌, Bytes,
  Bool-cases,
}
use pmux.Pmuxerr.{Result, ok, err, Err, wrap, canceled_code, user}
use pmux.Lock.{
  LockFaults, Round, ReleaseFaults, outlasts, kept_if, then_write, write_metadata, lock_file,
  try_acquire, is_busy, acquire, after_round, after_wait, release, with_acquired, map_some,
  with_mutation,
}
use pmux.Lock.Waiting.{try_acquire-held}

-- Neither the unlocking nor the closing of the file succeeds.
abbrev pub BothFail : Option Err → Option Err → Type 0
BothFail unlock close = ((x : Err) × (unlock ≡ some x)) × ((y : Err) × (close ≡ some y))

outlasts-BothFail : (u c : Option Err) → outlasts u c ≡ true → BothFail u c
unfolding outlasts
outlasts-BothFail none c h = cc
outlasts-BothFail (some x) none h = cc
outlasts-BothFail (some x) (some y) h = ((x, refl), (y, refl))

-- The lock is held after a call only with a success or where the release failed.
abbrev Justified : LockFaults → Result (Unit {0}) × Bool → Type 0
Justified f o = o.1 ≡ true → (o.0 ≡ ok tt) ⊎ BothFail f.unlock f.close

kept_if-Justified : (f : LockFaults) (r : Result (Unit {0})) → Justified f (kept_if f r)
unfolding outlasts kept_if
kept_if-Justified f (ok u) h = inl refl
kept_if-Justified f (err e) h = inr (outlasts-BothFail f.unlock f.close h)

then_write-Justified : (f : LockFaults) (r : Result (Unit {0})) → Justified f (then_write f r)
unfolding then_write
then_write-Justified f (ok u) h = kept_if-Justified f (write_metadata f) h
then_write-Justified f (err e) h = cc

try_acquire-Justified : (f : LockFaults) (operation : Bytes) → Justified f (try_acquire f operation)
unfolding try_acquire
try_acquire-Justified f operation = then_write-Justified f (lock_file f operation)

-- What `Acquire` returns: a success with the lock, or an error, with the lock only where both calls
-- of a release failed in one of the rounds.
pub data Acquired (rounds : List Round) : Result (Unit {0}) × Bool → Type 0 where
  locked : Acquired rounds (ok tt, true)
  refused : (e : Err) → Acquired rounds (err e, false)
  stuck :
      (e : Err) (r : Round)
      → Memᴰ r rounds
      → BothFail r.faults.unlock r.faults.close
      → Acquired rounds (err e, true)

later :
    {r : Round} {rounds : List Round} {o : Result (Unit {0}) × Bool}
    → Acquired rounds o
    → Acquired (r ∷ rounds) o
later locked = locked
later (refused e) = refused e
later (stuck e r m b) = stuck e r (Memᴰ.tail m) b

failed_with :
    (r : Round) (rounds : List Round) (x y : Err) (held : Bool)
    → Justified r.faults (err x, held)
    → Acquired (r ∷ rounds) (err y, held)
failed_with r rounds x y false j = refused y
failed_with r rounds x y true j = elim (j refl) [
  | inl e ↦ absurd (let e' : err x ≡ ok tt = e in cc)
  | inr b ↦ stuck y r (Memᴰ.head refl) b
]

after_wait-Acquired :
    (r : Round) (rounds : List Round) (ended : Option Err) (x : Err) (held : Bool)
    (rest : Option (Result (Unit {0}) × Bool)) (o : Result (Unit {0}) × Bool)
    → Justified r.faults (err x, held)
    → ((o : Result (Unit {0}) × Bool) → rest ≡ some o → Acquired rounds o)
    → after_wait ended held rest ≡ some o
    → Acquired (r ∷ rounds) o
after_wait-Acquired r rounds none x held rest o j further e = later (further o e)
after_wait-Acquired r rounds (some y) x held rest o j further e =
    let same : (
      err (wrap y canceled_code user "waiting for the PMux mutation lock was canceled"),
      held,
    )
        ≡ o =
      cc in
    subst (Acquired (r ∷ rounds)) same (failed_with r rounds x _ held j)

after_round-Acquired :
    (r : Round) (rounds : List Round) (rest : Option (Result (Unit {0}) × Bool))
    (now o : Result (Unit {0}) × Bool)
    → Justified r.faults now
    → (now.0 ≡ ok tt → now.1 ≡ true)
    → ((o : Result (Unit {0}) × Bool) → rest ≡ some o → Acquired rounds o)
    → after_round r.ended rest now ≡ some o
    → Acquired (r ∷ rounds) o
unfolding after_round
after_round-Acquired r rounds rest (ok u, held) o j h further e =
    let same : (ok u, held) ≡ o = cc in
    let is_held : held ≡ true = h refl in subst (Acquired (r ∷ rounds)) same (rw is_held locked)
after_round-Acquired r rounds rest (err x, held) o j h further e = elim (Bool-cases (is_busy x)) [
  | inr b ↦
      let e' : some (err x, held) ≡ some o = rw b at e in
      let same : (err x, held) ≡ o = cc in
      subst (Acquired (r ∷ rounds)) same (failed_with r rounds x x held j)
  | inl b ↦ after_wait-Acquired r rounds r.ended x held rest o j further (rw b at e)
]

acquire-Acquired :
    (rounds : List Round) (operation : Bytes) (o : Result (Unit {0}) × Bool)
    → acquire rounds operation ≡ some o
    → Acquired rounds o
unfolding acquire
acquire-Acquired [] operation o h = cc
acquire-Acquired (r ∷ rounds) operation o h =
    after_round-Acquired r rounds (acquire rounds operation) (try_acquire r.faults operation) o
      (try_acquire-Justified r.faults operation) (try_acquire-held r.faults operation)
      (acquire-Acquired rounds operation) h

-- How `WithMutation` ends on a state `w`: without the lock the mutation has not run and the lock is not
-- held, unless both calls of a release failed; with the lock the mutation has run once, its result is
-- returned, and the lock is not held after it, unless both calls of the release failed.
pub data Mutated {W : Type 0} (rounds : List Round) (operation : Bytes) (f : ReleaseFaults)
    (mutate : W → Result (Unit {0}) × W) (w : W) : Result (Unit {0}) × (Bool × W) → Type 0 where
  not_run :
      (e : Err) (held : Bool)
      → acquire rounds operation ≡ some (err e, held)
      → (held ≡ false) ⊎ ((r : Round) × Memᴰ r rounds × BothFail r.faults.unlock r.faults.close)
      → Mutated rounds operation f mutate w (err e, (held, w))
  run :
      (held : Bool)
      → acquire rounds operation ≡ some (ok tt, true)
      → (held ≡ false) ⊎ BothFail f.unlock f.close
      → Mutated rounds operation f mutate w ((mutate w).0, (held, (mutate w).1))

module _ {W : Type 0} (rounds : List Round) (operation : Bytes) (f : ReleaseFaults)
    (mutate : W → Result (Unit {0}) × W) (w : W) where
  released-or_BothFail : (true && outlasts f.unlock f.close ≡ false) ⊎ BothFail f.unlock f.close
  released-or_BothFail = elim (Bool-cases (outlasts f.unlock f.close)) [
    | inl e ↦ inr (outlasts-BothFail f.unlock f.close e)
    | inr e ↦ inl e
  ]

  with_acquired-Mutated :
      (o : Result (Unit {0}) × Bool)
      → acquire rounds operation ≡ some o
      → Acquired rounds o
      → Mutated rounds operation f mutate w (with_acquired mutate f w o)
  unfolding with_acquired release
  with_acquired-Mutated o h locked = run _ h released-or_BothFail
  with_acquired-Mutated o h (refused e) = not_run e false h (inl refl)
  with_acquired-Mutated o h (stuck e r m b) = not_run e true h (inr (r, m, b))

  -- `WithMutation`, whichever calls fail, in whatever rounds it returns: either `Acquire` gave an error,
  -- which it returns, and the mutation has not run; or `Acquire` took the lock, the mutation has run
  -- once and its result is returned. The lock is then not held, unless the unlocking and the closing
  -- both failed, in a round of the first case or in the release of the second.
  pub with_mutation-Mutated :
      (o : Result (Unit {0}) × (Bool × W))
      → with_mutation rounds f operation mutate w ≡ some o
      → Mutated rounds operation f mutate w o
  unfolding with_mutation
  with_mutation-Mutated o h = each (acquire rounds operation) refl h
    where
      each :
          (a : Option (Result (Unit {0}) × Bool))
          → acquire rounds operation ≡ a
          → map_some (with_acquired mutate f w) a ≡ some o
          → Mutated rounds operation f mutate w o
      each none e h = cc
      each (some a) e h =
          let same : with_acquired mutate f w a ≡ o = cc in
          subst (Mutated rounds operation f mutate w) same
            (with_acquired-Mutated a e (acquire-Acquired rounds operation a e))
