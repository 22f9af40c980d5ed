-- ===== src/Examples/Signals.antt =====
-- Signals of pressure, at concrete inputs.
use relayna.Prelude.{
  ◌≡◌, String, List, Option, ◌∷◌, some, if◌then◌else◌, [], length, ◌==◌, map, refl, none,
}
use relayna.Backpressure.{Thresholds, Inspection, collect_snapshot, combine, PressureSeverity}
use relayna.Backpressure.Signals.{
  numbers_of, depth_of, shown, is_unavailable, is_depth, is_idle, collect_snapshot-signals,
}

abbrev depths : Thresholds
depths = record { warn = 100; crit = 1000 }

abbrev broker : String → Option Inspection
broker name =
    if name == "tasks" then some (record { message_count = 150; consumer_count = 0 }) else none

-- The queue without consumers has a second signal; the other one cannot be inspected.
abbrev queues : List String
queues = "tasks" ∷ "lost" ∷ []

module _ where
  two_and_one : length (collect_snapshot depths broker queues).signals ≡ 3
  unfolding collect_snapshot combine
  two_and_one = refl

collect_snapshot-signals_example :
    let s = collect_snapshot depths broker queues in
    (shown is_unavailable (λ s. s.scope_id) s.signals ≡ some "lost" ∷ [])
    × (shown is_depth depth_of s.signals
        ≡ (some "tasks", (some 150, PressureSeverity.warning)) ∷ [])
    × (shown is_idle (λ s. s.scope_id) s.signals ≡ some "tasks" ∷ [])
    × (map numbers_of s.queues ≡ ("tasks", (150, 0)) ∷ [])
collect_snapshot-signals_example = collect_snapshot-signals depths broker queues
