-- ===== src/Topology.antt =====
-- src/relayna/topology/workflow.py: stages, entry routes and their lookups.
pub mod Binding
pub mod Validation
pub mod Contract
pub mod Routing
pub mod Mermaid
use relayna.Prelude.{String, Option, none, some, List, [], ◌∷◌, ◌==◌, if◌then◌else◌, Bool, ◌≡◌}
use relayna.Prelude.Dict.{Dict}
use relayna.Prelude.Text.{strip}
use relayna.Json.{ℤ}
use relayna.Contracts.Schemas.{ActionSchema}

-- `timeout_seconds` is a whole number of the float's unit; the fields that are only passed on are
-- left out.
pub record WorkflowStage : Type 0 where
  pub name : String
  pub queue : String
  pub binding_keys : List String
  pub publish_routing_key : String
  pub sla_ms : Option ℤ
  pub accepted_actions : List ActionSchema
  pub produced_actions : List ActionSchema
  pub allowed_next_stages : List String
  pub terminal : Bool
  pub timeout_seconds : Option ℤ
  pub max_retries : Option ℤ
  pub retry_delay_ms : Option ℤ
  pub max_inflight : Option ℤ
  pub dedup_key_fields : List String

pub record WorkflowEntryRoute : Type 0 where
  pub name : String
  pub routing_key : String
  pub target_stage : String

pub record SharedStatusWorkflowTopology : Type 0 where
  pub stages : List WorkflowStage
  pub entry_routes : List WorkflowEntryRoute

-- `_stage`; `none` is the `KeyError`.
unfoldable pub stage_in : List WorkflowStage → String → Option WorkflowStage
stage_in [] name = none
stage_in (s ∷ ss) name = if s.name == name then some s else stage_in ss name

unfoldable pub workflow_stage : SharedStatusWorkflowTopology → String → Option WorkflowStage
unfolding stage_in
workflow_stage t name = stage_in t.stages name

-- `_entry_route`
unfoldable pub route_in : List WorkflowEntryRoute → String → Option WorkflowEntryRoute
route_in [] name = none
route_in (r ∷ rs) name = if r.name == name then some r else route_in rs name

-- `tuple(item.strip() for item in items if item.strip())`
unfoldable pub stripped_all : List String → List String
stripped_all [] = []
stripped_all (x ∷ xs) = let rest = stripped_all xs in if strip x == "" then rest else strip x ∷ rest

unfoldable pub names : List WorkflowStage → List String
names [] = []
names (s ∷ ss) = s.name ∷ names ss

unfoldable pub workflow_stage_names : SharedStatusWorkflowTopology → List String
workflow_stage_names t = names t.stages

-- The keys of a stage that is there.
unfoldable pub binding_keys_of : WorkflowStage → List String
binding_keys_of s = stripped_all s.binding_keys

unfoldable pub publish_key_of : WorkflowStage → String
publish_key_of s = strip s.publish_routing_key

unfoldable pub workflow_entry_routing_key : SharedStatusWorkflowTopology → String → Option String
workflow_entry_routing_key t name = elim (route_in t.entry_routes name) [
  | none ↦ none
  | some r ↦ some (strip r.routing_key)
]

unfoldable pub workflow_entry_target_stage : SharedStatusWorkflowTopology → String → Option String
workflow_entry_target_stage t name = elim (route_in t.entry_routes name) [
  | none ↦ none
  | some r ↦ some r.target_stage
]

unfoldable pub default_workflow_stage : SharedStatusWorkflowTopology → Option String
default_workflow_stage t = elim t.stages [ [] ↦ none | s ∷ ss ↦ some s.name ]
