-- ===== src/Studio/Availability/Outage.antt =====
-- What an outage does to a provider's state, and what clears it.
use native.Mathlib.Nat.{one-le-pow}
use relayna.Studio.Availability.{
  Provider, delay, conclude, run, describe, ℕ, state, check, cooldown, Availability,
  touch_or_insert, Key, max_delay, success, enter, admit, is_unavailable, freshness, failure, find,
  paused, Reply,
}
use relayna.Prelude.{◌≤◌, ◌≢◌, ◌*◌, ◌≡◌, arith, ◌+◌, ◌↔◌, some, true, ◌<◌, min, ◌-◌, Option, none}

delay-le : (n : ℕ) → delay n ≤ max_delay
unfolding delay
delay-le n = omega arith

delay-ge : (n : ℕ) → cooldown ≤ delay n
unfolding delay
delay-ge n = omega (arith, one-le-pow (min (n - 1) 4) 2 (omega arith))

-- An older success than the last outage decision leaves it as it is: an operation that was started
-- under another generation changes neither the count of failures nor when calls are tried again.
pub stale_success :
    (now g : ℕ) (a : Availability)
    → g ≢ a.generation
    → let b = conclude now g success a in
      (b.failures ≡ a.failures)
      × (b.retry_at ≡ a.retry_at)
      × (b.healthy_until ≡ a.healthy_until)
      × (b.generation ≡ a.generation)
unfolding conclude
stale_success now g a h = ground arith

-- A success that is started and ends with no failure in between clears the outage for `_freshness`.
pub fresh_success :
    (now : ℕ) (a : Availability)
    → let b = conclude now a.generation success a in
      (b.failures ≡ 0) × (b.retry_at ≡ 0) × (b.healthy_until ≡ now + freshness)
unfolding conclude
fresh_success now a = ground arith

-- After a failure calls are paused for 80% of the cooldown at least and for `max_delay` at most,
-- whatever the number of failures, and a success that was already under way does not end the pause.
pub failure_pauses :
    (now later g j : ℕ) (a : Availability)
    → 8 * delay (a.failures + 1) ≤ 10 * j
    → g ≤ a.generation
    → let b = conclude now g (failure j) a in
      let c = conclude later g success b in
      (now + 24000 ≤ c.retry_at) × (c.retry_at ≤ now + max_delay) × (c.failures ≡ a.failures + 1)
unfolding conclude
failure_pauses now later g j a h le = ground (arith, delay-ge (a.failures + 1))

abbrev IsPaused : Provider → Provider × Reply → Type 0
IsPaused s r =
    (r.1 ≡ paused) × (r.0.active ≡ s.active) × (r.0.waiting ≡ s.waiting) × (r.0.tasks ≡ s.tasks)

found-IsPaused :
    (k : Key) (now : ℕ) (s : Provider) (a : Availability) (o : Option Availability)
    → o ≡ some a
    → now < a.retry_at
    → IsPaused s (enter k now s (touch_or_insert k s.states o))
unfolding touch_or_insert enter admit
found-IsPaused k now s a none f h = cc
found-IsPaused k now s a (some b) f h = ground arith

-- While calls are paused `run` starts and awaits nothing.
pub run-IsPaused :
    (k : Key) (now : ℕ) (s : Provider) (a : Availability)
    → find k s.states ≡ some a
    → now < a.retry_at
    → IsPaused s (run k now s)
unfolding run state
run-IsPaused k now s a f h = found-IsPaused k now s a (find k s.states) f h

-- `describe` says that a provider is unavailable exactly when `check` raises.
pub describe-check :
    (k : Key) (now : ℕ) (s : Provider)
    → (describe k now s ≡ is_unavailable) ↔ (check k now s ≡ true)
unfolding describe check
describe-check k now s = (λ h. ground arith, λ h. ground arith)
