-- ===== src/Async.antt =====
-- src/relayna/_async.py: `map_bounded`. Its workers run until their next await one at a time; a step
-- is a part of such a run, so every interleaving of the code is a list of steps.
pub mod Ordering
pub mod Gathering
pub mod Progress
use relayna.Prelude.{
  ◌≡◌, ℕ, List, Bool, Option, [], true, some, length, get_elem?, ◌∷◌, if◌then◌else◌, suc, false,
  none, ltb, set_at, not, zero, min, ◌+◌, ◌&&◌, all,
}

-- A `run_worker`: at the test of its loop, in `await worker(items[index])`, or at its end.
pub data Worker : Type 0 where
  ready done : Worker
  busy : ℕ → Worker

pub record Pool {ℓ} (B : Type ℓ) : Type ℓ where
  pub results : List (Option B)
  pub next_index : ℕ
  pub workers : List Worker
  pub failed : Bool

-- A worker goes on at its loop's test; the call that it awaits returns, or raises.
pub data Step : Type 0 where
  proceed call_returns call_raises : ℕ → Step

unfoldable pub repeat {ℓ} : {A : Type ℓ} → ℕ → A → List A
repeat zero a = []
repeat (suc n) a = a ∷ repeat n a

abbrev pub is_done : Worker → Bool
is_done done = true
is_done _ = false

-- `worker(item)` answers `f item`.
module _ {ℓ} {A B : Type ℓ} (f : A → B) where
  abbrev pub answer_of : Option A → Option B
  answer_of none = none
  answer_of (some a) = some (f a)

  unfoldable pub start : List A → ℕ → Pool B
  unfolding repeat
  start items concurrency = record {
    results = repeat (length items) none;
    next_index = 0;
    workers = repeat (min concurrency (length items)) ready;
    failed = false;
  }

  unfoldable pub proceed_worker : List A → Pool B → ℕ → Option Worker → Pool B
  proceed_worker items s i (some ready) =
      if ltb s.next_index (length items)
      then record s {
        next_index = s.next_index + 1;
        workers = set_at i (busy s.next_index) s.workers;
      }
      else record s { workers = set_at i done s.workers }
  proceed_worker items s i _ = s

  unfoldable pub return_worker : List A → Pool B → ℕ → Option Worker → Pool B
  return_worker items s i (some (busy k)) = record s {
    results = set_at k (answer_of (get_elem? items k)) s.results;
    workers = set_at i ready s.workers;
  }
  return_worker items s i _ = s

  -- The exception cancels the other workers, and no result is returned.
  unfoldable pub raise_worker : Pool B → Option Worker → Pool B
  raise_worker s (some (busy k)) = record s { failed = true }
  raise_worker s _ = s

  unfoldable pub take_step : List A → Pool B → Step → Pool B
  unfolding proceed_worker return_worker raise_worker
  take_step items s (proceed i) = proceed_worker items s i (get_elem? s.workers i)
  take_step items s (call_returns i) = return_worker items s i (get_elem? s.workers i)
  take_step items s (call_raises i) = raise_worker s (get_elem? s.workers i)

  unfoldable pub take_steps : List A → Pool B → List Step → Pool B
  take_steps items s [] = s
  take_steps items s (a ∷ as') =
      let t = take_step items s a in if s.failed then s else take_steps items t as'

  -- `gather` returns when every worker has ended.
  unfoldable pub gathered : Pool B → Option (List (Option B))
  gathered s = if not s.failed && all is_done s.workers then some s.results else none
