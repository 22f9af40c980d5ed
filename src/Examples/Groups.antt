-- ===== src/Examples/Groups.antt =====
-- An incident's summary, at concrete inputs.
use relayna.Prelude.Text.{contains, AreDistinct}
use relayna.Prelude.{◌≡◌, List, some, ◌+◌, ◌∷◌, ◌≤◌, none, length, [], String, any}
use relayna.Studio.Incidents.{Evidence, summarize}
use relayna.Studio.Incidents.Trend.{is_of_task, summarize_adds_up}

abbrev evidence : List Evidence
evidence =
    record { failed_at = some 8000000000; task_id = some "t-1" }
    ∷ record { failed_at = some 5000000000; task_id = none }
    ∷ record { failed_at = none; task_id = some "t-1" }
    ∷ []

summarize_adds_up_example :
    let s = summarize evidence 9000000000 in
    (s.recent_hour + s.preceding_hour + s.outside_two_hours + s.unknown_timestamps
      ≡ s.failure_count)
    × ((ids : List String) × AreDistinct ids
        × ((id : String) → contains id ids ≡ any (is_of_task id) evidence)
        × (s.affected_tasks ≡ length ids))
    × (s.affected_tasks + s.missing_task_ids ≤ s.failure_count)
    × (length s.representative ≤ 3)
summarize_adds_up_example = summarize_adds_up evidence 9000000000
