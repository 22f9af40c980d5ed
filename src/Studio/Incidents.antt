-- ===== src/Studio/Incidents.antt =====
-- studio/backend/src/relayna_studio/_incident_groups.py: merged incidents and their summaries.
pub mod Resolve
pub mod Trend
use relayna.Prelude.{
  ℕ, Option, String, List, Bool, some, suc, length, ◌∷◌, leb, none, count, if◌then◌else◌, ◌+◌, [],
  min, max, true, ◌==◌, zero, ◌&&◌, ◌*◌, false, ◌-◌, ltb, take,
}
use relayna.Prelude.Dict.{Dict, get}
use relayna.Prelude.Text.{contains}

-- The fields of an incident's state that grouping reads.
pub record IncidentState : Type 0 where
  pub merged_into : Option String
  pub status : String

abbrev pub truthy : Option String → Option String
truthy none = none
truthy (some s) = if s == "" then none else some s

-- `states.get(incident_id, {}).get("merged_into")`, where it counts as true.
unfoldable pub merged_into : Dict IncidentState → String → Option String
merged_into states id = elim (get id states) [ none ↦ none | some s ↦ truthy s.merged_into ]

pub data Resolved : Type 0 where
  resolved : String → Resolved
  cycle out_of_fuel : Resolved

-- `_resolve`: the loop, from the incidents visited so far.
module _ (states : Dict IncidentState) where
  unfoldable pub resolve_from : ℕ → List String → String → Resolved
  resolve_from zero visited id = out_of_fuel
  resolve_from (suc fuel) visited id = elim (merged_into states id) [
    | none ↦ resolved id
    | some target ↦ elim (contains id visited) [
      | true ↦ cycle
      | false ↦ resolve_from fuel (id ∷ visited) target
    ]
  ]

  -- An incident is visited once at most, so one round more than there are incidents is enough.
  unfoldable pub resolve : String → Resolved
  resolve id = resolve_from (length states + 1) [] id

-- An evidence item: its `failed_at` as `_timestamp` reads it, in microseconds, and its task.
pub record Evidence : Type 0 where
  pub failed_at : Option ℕ
  pub task_id : Option String

abbrev hour : ℕ
hour = 3600000000

unfoldable pub stamps : List Evidence → List ℕ
stamps [] = []
stamps (e ∷ es) = let rest = stamps es in elim e.failed_at [ none ↦ rest | some t ↦ t ∷ rest ]

-- `now - timedelta(hours=1) <= stamp <= now`
abbrev pub in_recent : ℕ → ℕ → Bool
in_recent now t = leb now (t + hour) && leb t now

-- `now - timedelta(hours=2) <= stamp < now - timedelta(hours=1)`
abbrev pub in_preceding : ℕ → ℕ → Bool
in_preceding now t = leb now (t + 2 * hour) && ltb (t + hour) now

abbrev pub minimum_of : ℕ → Option ℕ → Option ℕ
minimum_of t none = some t
minimum_of t (some u) = some (min t u)

abbrev pub maximum_of : ℕ → Option ℕ → Option ℕ
maximum_of t none = some t
maximum_of t (some u) = some (max t u)

unfoldable pub minimum : List ℕ → Option ℕ
minimum [] = none
minimum (t ∷ ts) = minimum_of t (minimum ts)

unfoldable pub maximum : List ℕ → Option ℕ
maximum [] = none
maximum (t ∷ ts) = maximum_of t (maximum ts)

unfoldable pub see : Option String → List String → List String
see none seen = seen
see (some id) seen = if contains id seen then seen else id ∷ seen

-- `{item["task_id"] for item in evidence if item.get("task_id")}`
unfoldable pub task_ids : List Evidence → List String → List String
unfolding see
task_ids [] seen = seen
task_ids (e ∷ es) seen = task_ids es (see (truthy e.task_id) seen)

abbrev pub lacks_task : Evidence → Bool
lacks_task e = elim (truthy e.task_id) [ none ↦ true | some _ ↦ false ]

pub record Summary : Type 0 where
  pub failure_count : ℕ
  pub affected_tasks : ℕ
  pub missing_task_ids : ℕ
  pub first_seen : Option ℕ
  pub last_seen : Option ℕ
  pub recent_hour : ℕ
  pub preceding_hour : ℕ
  pub unknown_timestamps : ℕ
  pub outside_two_hours : ℕ
  pub representative : List Evidence

-- `_summarize`, without the fields of the state that it passes on. `-` is exact: `Trend`.
unfoldable pub summarize : List Evidence → ℕ → Summary
summarize evidence now =
    let times = stamps evidence in
    let recent = count (in_recent now) times in
    let preceding = count (in_preceding now) times in
    record {
      failure_count = length evidence;
      affected_tasks = length (task_ids evidence []);
      missing_task_ids = count lacks_task evidence;
      first_seen = minimum times;
      last_seen = maximum times;
      recent_hour = recent;
      preceding_hour = preceding;
      unknown_timestamps = length evidence - length times;
      outside_two_hours = length times - recent - preceding;
      representative = take 3 evidence;
    }
