-- ===== src/Health.antt =====
-- internal/adapter/service/health/health.go: polling until a service is healthy.
pub mod Polling
use Prim.Native.String.{◌++◌ as concat}
use pmux.Base.{
  ℕ, zero, ◌+◌, ◌-◌, ◌*◌, ◌^◌, Bool, true, false, ◌||◌, not, Option, none, some, List, [], ◌∷◌,
  Bytes, String, codes, ltb, bytes_eq, ◌==◌, if◌then◌else◌,
}
use pmux.Pmuxerr.{
  Result, ok, err, Err, Fields, typed, typed_with, wrap, service_health_deadline, environment,
}

-- `Result`.
pub record Health : Type 0 where
  pub version : Bytes
  pub warning : String

-- A `Poller` with its probe; durations are nanoseconds, 0 for one that is not positive.
pub record Poller : Type 0 where
  pub interval : ℕ
  pub deadline : ℕ
  pub request_timeout : ℕ

-- One round of the loop: the clock at its head, what the probe gives within a timeout, the clock after
-- the probe, and the error of the wait.
pub record Round : Type 0 where
  pub start : ℕ
  pub probe : ℕ → Result Health
  pub after : ℕ
  pub wait : Option Err

abbrev pub second : ℕ
second = 10 ^ 9

abbrev pub or_default : ℕ → ℕ → ℕ
or_default value default = if value == 0 then default else value

-- `NewPoller`, and what `WaitReady` makes of the durations.
abbrev pub interval_of : Poller → ℕ
interval_of p = or_default p.interval second

abbrev pub deadline_of : Poller → ℕ
deadline_of p = or_default p.deadline (15 * second)

abbrev pub timeout_of : Poller → ℕ
timeout_of p = or_default p.request_timeout (2 * second)

-- The version that a healthy service does not tell.
unfoldable pub with_version : Health → Health
with_version h =
    if bytes_eq h.version []
    then record {
      version = codes "unknown";
      warning = "CLIProxyAPI is healthy, but X-CPA-VERSION was not returned; version is unknown.";
    }
    else h

abbrev deadline_fields : String → Fields
deadline_fields duration = record {
  code = service_health_deadline;
  class = environment;
  message = concat "CLIProxyAPI did not become healthy within " duration;
  explanation =
      "the service process did not return HTTP 200 from /healthz before the lifecycle deadline";
  evidence = [];
  repair = "Run `pmux doctor` to diagnose the service." ∷ [];
  docs_url = "";
}

-- The error at the end of `WaitReady`; `duration` is the text of its deadline.
unfoldable pub deadline_error : String → Option Err → Err
deadline_error duration none = typed (deadline_fields duration)
deadline_error duration (some last) = typed_with (deadline_fields duration) last

-- The end of a round in which the probe failed: `rest` is what the further rounds give.
unfoldable pub after_probe :
    ℕ → ℕ → String → Round → Result Health → Option (Result Health) → Option (Result Health)
unfolding with_version deadline_error
after_probe interval deadline duration r (ok h) rest = some (ok (with_version h))
after_probe interval deadline duration r (err e) rest =
    if not (ltb r.after deadline) || not (ltb (r.after + interval) deadline)
    then some (err (deadline_error duration (some e)))
    else (elim r.wait [
      | none ↦ rest
      | some w ↦ some (
          err (
            wrap w service_health_deadline environment
              "CLIProxyAPI health verification was interrupted"))
    ])

abbrev pub last_error : Result Health → Option Err → Option Err
last_error (ok h) last = last
last_error (err e) last = some e

-- The timeout of a probe at the time `start`.
abbrev pub probe_timeout : ℕ → ℕ → ℕ → ℕ
probe_timeout timeout deadline start =
    let remaining = deadline - start in if ltb remaining timeout then remaining else timeout

-- The loop of `WaitReady` in the rounds that it lives through, `none` while it goes on.
unfoldable pub poll : ℕ → ℕ → ℕ → String → Option Err → List Round → Option (Result Health)
unfolding deadline_error after_probe
poll interval timeout deadline duration last [] = none
poll interval timeout deadline duration last (r ∷ rounds) =
    let answer = r.probe (probe_timeout timeout deadline r.start) in
    let rest = poll interval timeout deadline duration (last_error answer last) rounds in
    if ltb r.start deadline
    then after_probe interval deadline duration r answer rest
    else some (err (deadline_error duration last))

-- `WaitReady` that starts at the time `now`.
unfoldable pub wait_ready : Poller → ℕ → String → List Round → Option (Result Health)
unfolding poll
wait_ready p now duration rounds =
    poll (interval_of p) (timeout_of p) (now + deadline_of p) duration none rounds
