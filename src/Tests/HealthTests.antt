-- ===== src/Tests/HealthTests.antt =====
-- The health poller at concrete inputs.
use mathlib.Core.List.{Memᴰ}
use pmux.Base.{◌+◌, ◌≡◌, refl, none, some, List, [], ◌∷◌, bytes_eq, arith}
use pmux.Pmuxerr.{ok, err, foreign}
use pmux.Health.{Health, Poller, Round, wait_ready, deadline_of, timeout_of}
use pmux.Health.Polling.{Ended, Healthy, wait_ready-Ended, wait_ready-Healthy}

abbrev poller : Poller
poller = record { interval = 2; deadline = 3; request_timeout = 1 }

-- A service that is down at first, and then up with its version.
abbrev down_then_up : List Round
down_then_up =
    record { start = 10; probe = λ _. err (foreign "refused"); after = 10; wait = none }
    ∷ record {
      start = 12;
      probe = λ _. ok (record { version = 7 ∷ []; warning = "" });
      after = 12;
      wait = none;
    }
    ∷ record { start = 14; probe = λ _. err (foreign "refused"); after = 14; wait = none }
    ∷ []

abbrev up : Health
up = record { version = 7 ∷ []; warning = "" }

comes_up : wait_ready poller 10 "3ns" down_then_up ≡ some (ok up)
unfolding wait_ready bytes_eq
comes_up = refl

wait_ready-Ended_example : Ended (wait_ready poller 10 "3ns" down_then_up)
wait_ready-Ended_example =
    wait_ready-Ended poller 10 2 "3ns" down_then_up (omega arith) (omega arith) (omega arith)

wait_ready-Healthy_example :
    (r : Round) × Memᴰ r down_then_up × Healthy (timeout_of poller) (10 + deadline_of poller) up r
wait_ready-Healthy_example = wait_ready-Healthy poller 10 "3ns" down_then_up up comes_up
