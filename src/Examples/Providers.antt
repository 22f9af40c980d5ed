-- ===== src/Examples/Providers.antt =====
-- A provider's gate, at concrete inputs.
use relayna.Prelude.{◌≡◌, List, ◌≢◌, false, ℕ, ◌*◌, ◌≤◌, ◌∷◌, some, [], none, arith, refl}
use relayna.Studio.Availability.{
  conclude, Key, steps, Availability, success, delay, failure, Provider, find, Action, new, call,
  ends, wake,
}
use relayna.Studio.Availability.Bounds.{IsBounded}
use relayna.Studio.Availability.Outage.{failure_pauses}
use relayna.Studio.Availability.Steps.{run_bounds}

abbrev key : Key
key = ("orders", "v1")

-- Two calls of which one waits for the other's probe, then the probe fails.
abbrev actions : List Action
actions = call key 0 ∷ call key 1 ∷ ends 1 5 (failure 30000) ∷ wake 0 6 ∷ []

run_bounds_example : IsBounded (steps new actions)
run_bounds_example = run_bounds actions

module _ where
  empty_bounds : IsBounded new
  unfolding steps
  empty_bounds = run_bounds []

-- Two outages back.
abbrev troubled : Availability
troubled = record {
  locked = false;
  healthy_until = 0;
  retry_at = 40000;
  generation = 2;
  active = 1;
  waiters = 0;
  checked_at = some 10000;
  last_successful_at = none;
  failures = 2;
}

not_two : ◌≢◌ {A = ℕ} 1 2
not_two = omega arith

module _ where
  jitter : 8 * delay 3 ≤ 10 * 100000
  unfolding delay
  jitter = omega arith

failure_pauses_example :
    let b = conclude 50000 1 (failure 100000) troubled in
    let c = conclude 51000 1 success b in
    (74000 ≤ c.retry_at) × (c.retry_at ≤ 350000) × (c.failures ≡ 3)
failure_pauses_example = failure_pauses 50000 51000 1 100000 troubled jitter (omega arith)

abbrev outage : Provider
outage = record { states = (key, troubled) ∷ []; active = 0; waiting = 0; tasks = [] }

module _ where
  troubled_found : find key outage.states ≡ some troubled
  unfolding find
  troubled_found = refl
