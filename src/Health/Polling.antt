-- ===== src/Health/Polling.antt =====
-- `WaitReady`: it ends in time, and says healthy only after a probe that did.
use mathlib.Core.List.{Memᴰ}
use pmux.Base.{
  ℕ, zero, suc, ◌+◌, ◌*◌, ◌<◌, ◌≤◌, ◌≡◌, ◌⊎◌, inl, inr, refl, false, Option, none, some, List, [],
  ◌∷◌, String, ltb, ltb→lt, length, arith, Bool-cases, not, ◌||◌,
}
use pmux.Pmuxerr.{Result, ok, err, Err}
use pmux.Health.{
  Health, Poller, Round, interval_of, deadline_of, timeout_of, probe_timeout, with_version,
  after_probe, deadline_error, last_error, poll, wait_ready,
}

-- The rounds of a clock that does not go back and of waits that last at least the interval.
abbrev pub IsClocked : ℕ → ℕ → List Round → Type 0
IsClocked interval from [] = Unit
IsClocked interval from (r ∷ rounds) =
    (from ≤ r.start) × (r.start ≤ r.after) × IsClocked interval (r.after + interval) rounds

-- A loop that has an answer.
abbrev pub Ended : Option (Result Health) → Type 0
Ended o = (a : Result Health) × (o ≡ some a)

after_probe-Ended :
    (interval deadline : ℕ) (duration : String) (r : Round) (answer : Result Health)
    (rest : Option (Result Health))
    → (r.after + interval < deadline → Ended rest)
    → Ended (after_probe interval deadline duration r answer rest)
unfolding after_probe
after_probe-Ended interval deadline duration r (ok h) rest more = (_, refl)
after_probe-Ended interval deadline duration r (err e) rest more =
    elim (Bool-cases (not (ltb r.after deadline) || not (ltb (r.after + interval) deadline))) [
      | inl t ↦ rw t (_, refl)
      | inr t ↦ rw t (waited r.wait (more (ground arith)))
    ]
  where
    waited :
        (o : Option Err)
        → Ended rest
        → Ended (elim o [
          | none ↦ rest
          | some w ↦ some (
              err (
                pmux.Pmuxerr.wrap w pmux.Pmuxerr.service_health_deadline pmux.Pmuxerr.environment
                  "CLIProxyAPI health verification was interrupted"))
        ])
    waited none h = h
    waited (some w) h = (_, refl)

poll-Ended :
    (n interval timeout deadline from : ℕ) (duration : String) (last : Option Err)
    (rounds : List Round)
    → deadline ≤ from + n * interval
    → n < length rounds
    → IsClocked interval from rounds
    → Ended (poll interval timeout deadline duration last rounds)
unfolding poll
poll-Ended n interval timeout deadline from duration last [] h k c = absurd (omega arith)
poll-Ended zero interval timeout deadline from duration last (r ∷ rounds) h k c =
    let over : ltb r.start deadline ≡ false = ground (arith, c.0) in rw over (_, refl)
poll-Ended (suc n) interval timeout deadline from duration last (r ∷ rounds) h k (a, b, c) =
    elim (Bool-cases (ltb r.start deadline)) [
      | inr e ↦ rw e (_, refl)
      | inl e ↦
          let answer = r.probe (probe_timeout timeout deadline r.start) in
          rw e (
            after_probe-Ended interval deadline duration r answer
              (poll interval timeout deadline duration (last_error answer last) rounds)
              (λ _.
                poll-Ended n interval timeout deadline (r.after + interval) duration
                  (last_error answer last) rounds (omega arith) (omega arith) c))
    ]

-- With a clock that does not go back and waits that last the interval, `WaitReady` returns within
-- `n + 1` rounds, if `n` intervals cover its deadline; whatever the probes and the waits give.
pub wait_ready-Ended :
    (p : Poller) (now n : ℕ) (duration : String) (rounds : List Round)
    → deadline_of p ≤ n * interval_of p
    → n < length rounds
    → IsClocked (interval_of p) now rounds
    → Ended (wait_ready p now duration rounds)
unfolding wait_ready
wait_ready-Ended p now n duration rounds h k c =
    poll-Ended n (interval_of p) (timeout_of p) (now + deadline_of p) now duration none rounds
      (omega arith) k c

-- A round that began before the deadline, whose probe gave this health within some time limit: at most
-- the timeout, over by the deadline, and one of the two to the full.
pub record Healthy (timeout deadline : ℕ) (h : Health) (r : Round) : Type 0 where
  pub raw : Health
  pub limit : ℕ
  pub in_time : r.start < deadline
  pub bounded : limit ≤ timeout
  pub over_in_time : r.start + limit ≤ deadline
  pub used_up : (limit ≡ timeout) ⊎ (r.start + limit ≡ deadline)
  pub answered : r.probe limit ≡ ok raw
  pub told : h ≡ with_version raw

after_probe-healthy :
    (interval deadline : ℕ) (duration : String) (r : Round) (answer : Result Health)
    (rest : Option (Result Health)) (h : Health)
    → after_probe interval deadline duration r answer rest ≡ some (ok h)
    → ((raw : Health) × (answer ≡ ok raw) × (h ≡ with_version raw)) ⊎ (rest ≡ some (ok h))
unfolding after_probe
after_probe-healthy interval deadline duration r (ok raw) rest h e =
    inl (raw, refl, let same : with_version raw ≡ h = cc in cc)
after_probe-healthy interval deadline duration r (err x) rest h e =
    elim (Bool-cases (not (ltb r.after deadline) || not (ltb (r.after + interval) deadline))) [
      | inl t ↦
          let no : some (err (deadline_error duration (some x))) ≡ some (ok h) = rw t at e in cc
      | inr t ↦ waited r.wait (rw t at e)
    ]
  where
    waited :
        (o : Option Err)
        → (elim o [
          | none ↦ rest
          | some w ↦ some (
              err (
                pmux.Pmuxerr.wrap w pmux.Pmuxerr.service_health_deadline pmux.Pmuxerr.environment
                  "CLIProxyAPI health verification was interrupted"))
        ])
          ≡ some (ok h)
        → ((raw : Health) × (err x ≡ ok raw) × (h ≡ with_version raw)) ⊎ (rest ≡ some (ok h))
    waited none q = inr q
    waited (some w) q = cc

probed-Healthy :
    (timeout deadline : ℕ) (r : Round) (raw h : Health)
    → r.start < deadline
    → r.probe (probe_timeout timeout deadline r.start) ≡ ok raw
    → h ≡ with_version raw
    → Healthy timeout deadline h r
probed-Healthy timeout deadline r raw h early a s = record {
  raw = raw;
  limit = probe_timeout timeout deadline r.start;
  in_time = early;
  bounded = ground arith;
  over_in_time = ground arith;
  used_up = ground arith;
  answered = a;
  told = s;
}

poll-Healthy :
    (interval timeout deadline : ℕ) (duration : String) (last : Option Err) (rounds : List Round)
    (h : Health)
    → poll interval timeout deadline duration last rounds ≡ some (ok h)
    → (r : Round) × Memᴰ r rounds × Healthy timeout deadline h r
unfolding poll
poll-Healthy interval timeout deadline duration last [] h e = cc
poll-Healthy interval timeout deadline duration last (r ∷ rounds) h e =
    elim (Bool-cases (ltb r.start deadline)) [
      | inr t ↦ let no : some (err (deadline_error duration last)) ≡ some (ok h) = rw t at e in cc
      | inl t ↦
          let answer = r.probe (probe_timeout timeout deadline r.start) in
          elim (after_probe-healthy interval deadline duration r answer
            (poll interval timeout deadline duration (last_error answer last) rounds) h
            (rw t at e)) [
              | inl (raw, a, s) ↦ (
                r,
                Memᴰ.head refl,
                probed-Healthy timeout deadline r raw h (ltb→lt r.start deadline t) a s,
              )
              | inr q ↦
                  let (s, m, w) =
                    poll-Healthy interval timeout deadline duration (last_error answer last) rounds
                      h q in
                  (s, Memᴰ.tail m, w)
            ]
    ]

-- `WaitReady` says healthy only if the probe of some round did, which began before the deadline and had
-- no more time than the request timeout and no more than up to the deadline, and all of the shorter.
pub wait_ready-Healthy :
    (p : Poller) (now : ℕ) (duration : String) (rounds : List Round) (h : Health)
    → wait_ready p now duration rounds ≡ some (ok h)
    → (r : Round) × Memᴰ r rounds × Healthy (timeout_of p) (now + deadline_of p) h r
unfolding wait_ready
wait_ready-Healthy p now duration rounds h e =
    poll-Healthy (interval_of p) (timeout_of p) (now + deadline_of p) duration none rounds h e
