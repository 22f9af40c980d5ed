-- ===== src/Examples/Pools.antt =====
-- `map_bounded` over three items with two workers.
use relayna.Prelude.{
  ◌≡◌, ℕ, List, ◌*◌, ◌∷◌, [], some, Option, all, map, refl, count, false, ◌≤◌, ◌<◌, arith,
}
use relayna.Async.{
  Step, proceed, call_returns, gathered, take_steps, Pool, take_step, start, is_done,
}
use relayna.Async.Progress.{Advances, remaining, take_step-Advances}
use relayna.Async.Gathering.{is_awaiting, map_bounded-order}

abbrev double : ℕ → ℕ
double n = 2 * n

abbrev items : List ℕ
items = 1 ∷ 2 ∷ 3 ∷ []

-- The second worker answers first, and takes the third item.
abbrev schedule : List Step
schedule =
    proceed 0
    ∷ proceed 1
    ∷ call_returns 1
    ∷ proceed 1
    ∷ call_returns 1
    ∷ call_returns 0
    ∷ proceed 0
    ∷ proceed 1
    ∷ []

module _ where
  gathered_doubles :
      gathered double (take_steps double items (start double items 2) schedule)
      ≡ some (some 2 ∷ some 4 ∷ some 6 ∷ [])
  unfolding gathered take_steps take_step start
  gathered_doubles = refl

map_bounded-order_example :
    let s = take_steps double items (start double items 2) schedule in
    ((rs : List (Option ℕ)) → gathered double s ≡ some rs → rs ≡ map (λ a. some (double a)) items)
    × (count is_awaiting s.workers ≤ 2)
map_bounded-order_example = map_bounded-order double items 2 schedule (omega arith)

abbrev at_start : Pool ℕ
at_start = start double items 2

take_step-Advances_example :
    ((a : Step) → Advances double items at_start (take_step double items at_start a))
    × (all is_done at_start.workers ≡ false
        → (a : Step) × (remaining double items (take_step double items at_start a)
            < remaining double items at_start))
take_step-Advances_example = take_step-Advances double items at_start
