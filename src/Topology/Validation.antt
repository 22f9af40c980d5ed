-- ===== src/Topology/Validation.antt =====
-- src/relayna/topology/workflow.py: `__post_init__`.
pub mod WellFormed
use relayna.Topology.{
  WorkflowStage, WorkflowEntryRoute, SharedStatusWorkflowTopology, ℤ, ActionSchema, strip,
  stripped_all,
}
use relayna.Json.{pos, negsuc}
use relayna.Prelude.{
  ◌≡◌, String, List, ℕ, Option, Bool, some, none, ◌∷◌, if◌then◌else◌, [], nat_eq, false, not,
  length, ◌==◌, true, ◌++◌, ◌&&◌, is_nonempty,
}
use relayna.Prelude.Text.{contains, set_of}

-- The `ValueError`s, with the stripped name of the stage or route.
pub data TopologyError : Type 0 where
  no_stages empty_stage_name empty_route_name : TopologyError
  duplicate_stage no_queue no_binding_key no_publish_routing_key : String → TopologyError
  duplicate_queue bad_sla_ms bad_timeout_seconds bad_max_retries : String → TopologyError
  bad_retry_delay_ms bad_max_inflight duplicate_dedup_field empty_dedup_field :
      String → TopologyError
  empty_action_name duplicate_action_name duplicate_route no_routing_key : String → TopologyError
  unknown_target_stage unknown_downstream_stage : String → String → TopologyError
  duplicate_next_stage terminal_with_next terminal_with_actions : String → TopologyError

-- Guards in the order of the source: the first that holds raises.
unfoldable pub first_error : List (Bool × TopologyError) → Option TopologyError
first_error [] = none
first_error ((bad, e) ∷ guards) = if bad then some e else first_error guards

abbrev is_zero : ℕ → Bool
is_zero n = nat_eq n 0

-- `value is not None and int(value) < 1`, which for whole numbers is also `<= 0`.
unfoldable pub below_one : Option ℤ → Bool
below_one none = false
below_one (some (pos n)) = is_zero n
below_one (some (negsuc n)) = true

unfoldable pub below_zero : Option ℤ → Bool
below_zero none = false
below_zero (some (pos n)) = false
below_zero (some (negsuc n)) = true

-- `len(set(items)) != len(items)`
unfoldable pub has_duplicates : List String → Bool
has_duplicates items = not (nat_eq (length (set_of items)) (length items))

abbrev is_blank : String → Bool
is_blank s = strip s == ""

unfoldable pub action_names : List ActionSchema → List String
action_names [] = []
action_names (a ∷ actions) = strip a.action ∷ action_names actions

-- `_validate_action_schema_collection`
unfoldable pub action_guards : String → List ActionSchema → List (Bool × TopologyError)
action_guards stage actions =
    (contains "" (action_names actions), empty_action_name stage)
    ∷ (has_duplicates (action_names actions), duplicate_action_name stage)
    ∷ []

-- One round of the first loop, given the names and queues of the rounds before.
unfoldable pub stage_guards :
    List String → List String → WorkflowStage → List (Bool × TopologyError)
stage_guards stage_names queue_names s =
    let name = strip s.name in
    let dedup = stripped_all s.dedup_key_fields in
    (name == "", empty_stage_name)
    ∷ (contains name stage_names, duplicate_stage name)
    ∷ (is_blank s.queue, no_queue name)
    ∷ (contains (strip s.queue) queue_names, duplicate_queue (strip s.queue))
    ∷ (is_zero (length (stripped_all s.binding_keys)), no_binding_key name)
    ∷ (is_blank s.publish_routing_key, no_publish_routing_key name)
    ∷ (below_one s.sla_ms, bad_sla_ms name)
    ∷ (below_one s.timeout_seconds, bad_timeout_seconds name)
    ∷ (below_zero s.max_retries, bad_max_retries name)
    ∷ (below_one s.retry_delay_ms, bad_retry_delay_ms name)
    ∷ (below_one s.max_inflight, bad_max_inflight name)
    ∷ (has_duplicates dedup, duplicate_dedup_field name)
    ∷ (not (nat_eq (length dedup) (length s.dedup_key_fields)), empty_dedup_field name)
    ∷ (action_guards name s.accepted_actions ++ action_guards name s.produced_actions)

abbrev pub or_error : Option TopologyError → Option TopologyError → Option TopologyError
or_error none next = next
or_error (some e) next = some e

unfoldable pub check_stages : List String → List String → List WorkflowStage → Option TopologyError
unfolding first_error stage_guards
check_stages stage_names queue_names [] = none
check_stages stage_names queue_names (s ∷ ss) =
    or_error (first_error (stage_guards stage_names queue_names s))
      (check_stages (strip s.name ∷ stage_names) (strip s.queue ∷ queue_names) ss)

-- The set after the first loop.
unfoldable pub stripped_names : List WorkflowStage → List String
stripped_names [] = []
stripped_names (s ∷ ss) = strip s.name ∷ stripped_names ss

unfoldable pub route_guards :
    List String → List String → WorkflowEntryRoute → List (Bool × TopologyError)
route_guards stage_names route_names r =
    let name = strip r.name in
    (name == "", empty_route_name)
    ∷ (contains name route_names, duplicate_route name)
    ∷ (is_blank r.routing_key, no_routing_key name)
    ∷ (not (contains r.target_stage stage_names), unknown_target_stage name r.target_stage)
    ∷ []

unfoldable pub check_routes :
    List String → List String → List WorkflowEntryRoute → Option TopologyError
unfolding first_error route_guards
check_routes stage_names route_names [] = none
check_routes stage_names route_names (r ∷ rs) =
    or_error (first_error (route_guards stage_names route_names r))
      (check_routes stage_names (strip r.name ∷ route_names) rs)

unfoldable pub next_guards : List String → String → List String → List (Bool × TopologyError)
next_guards stage_names name [] = []
next_guards stage_names name (d ∷ ds) =
    (not (contains d stage_names), unknown_downstream_stage name d)
    ∷ next_guards stage_names name ds

unfoldable pub transition_guards : List String → WorkflowStage → List (Bool × TopologyError)
unfolding next_guards
transition_guards stage_names s =
    let name = strip s.name in
    let next = stripped_all s.allowed_next_stages in
    (has_duplicates next, duplicate_next_stage name)
    ∷ (next_guards stage_names name next
        ++ (s.terminal && is_nonempty next, terminal_with_next name)
          ∷ (s.terminal && is_nonempty s.produced_actions, terminal_with_actions name)
          ∷ [])

unfoldable pub check_transitions : List String → List WorkflowStage → Option TopologyError
unfolding first_error transition_guards
check_transitions stage_names [] = none
check_transitions stage_names (s ∷ ss) =
    or_error (first_error (transition_guards stage_names s)) (check_transitions stage_names ss)

-- `__post_init__`; `none` is a return.
unfoldable pub post_init : SharedStatusWorkflowTopology → Option TopologyError
unfolding check_stages check_routes check_transitions stripped_names
post_init t =
    if is_nonempty t.stages
    then or_error (check_stages [] [] t.stages) (
        or_error (check_routes (stripped_names t.stages) [] t.entry_routes)
          (check_transitions (stripped_names t.stages) t.stages))
    else some no_stages
