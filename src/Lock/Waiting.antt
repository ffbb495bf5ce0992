-- ===== src/Lock/Waiting.antt =====
-- `Acquire`: that it waits for the lock and then takes it.
use pmux.Base.{
  Bool, true, false, ◌≡◌, refl, ◌∙◌, Option, none, some, List, [], ◌∷◌, ◌++◌, Bytes, All, arith,
}
use pmux.Pmuxerr.{Result, ok, err, Err}
use pmux.Lock.{LockFaults, Round, try_acquire, is_busy, acquire, after_round}

-- A success of `TryAcquire` comes with the lock.
pub try_acquire-held :
    (f : LockFaults) (operation : Bytes)
    → (try_acquire f operation).0 ≡ ok tt
    → (try_acquire f operation).1 ≡ true
unfolding try_acquire
try_acquire-held f operation h = ground arith

-- A round in which another process holds the lock, and the context is not done.
pub record Waits (operation : Bytes) (r : Round) : Type 0 where
  pub cause : Err
  pub refused : (try_acquire r.faults operation).0 ≡ err cause
  pub still_busy : is_busy cause ≡ true
  pub not_ended : r.ended ≡ none

waits_on :
    (operation : Bytes) (r : Round) (rest : Option (Result (Unit {0}) × Bool))
    (o : Result (Unit {0}) × Bool) (x : Err)
    → o.0 ≡ err x
    → is_busy x ≡ true
    → r.ended ≡ none
    → after_round r.ended rest o ≡ rest
unfolding after_round
waits_on operation r rest (ok u, b) x e busy n = cc
waits_on operation r rest (err y, b) x e busy n =
    let same : y ≡ x = cc in let busy' : is_busy y ≡ true = rw same busy in rw busy' (rw n)

taken :
    (ended : Option Err) (rest : Option (Result (Unit {0}) × Bool)) (o : Result (Unit {0}) × Bool)
    → o.1 ≡ true
    → o.0 ≡ ok tt
    → after_round ended rest o ≡ some (ok tt, true)
unfolding after_round
taken ended rest (ok u, true) h e = refl
taken ended rest (ok u, false) h e = cc
taken ended rest (err x, b) h e = cc

-- `Acquire` waits out any number of rounds in which another process holds the lock while its context
-- lasts, and takes the lock in the first round in which `TryAcquire` succeeds.
pub acquire-succeeds :
    (waiting later : List Round) (r : Round) (operation : Bytes)
    → All (Waits operation) waiting
    → (try_acquire r.faults operation).0 ≡ ok tt
    → acquire (waiting ++ r ∷ later) operation ≡ some (ok tt, true)
unfolding acquire
acquire-succeeds [] later r operation w h =
    taken r.ended (acquire later operation) (try_acquire r.faults operation)
      (try_acquire-held r.faults operation h) h
acquire-succeeds (q ∷ waiting) later r operation w h =
    waits_on operation q (acquire (waiting ++ r ∷ later) operation) (try_acquire q.faults operation)
      w.0.cause w.0.refused w.0.still_busy w.0.not_ended
    ∙ acquire-succeeds waiting later r operation w.1 h
