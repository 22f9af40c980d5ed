-- ===== src/Topology/Routing.antt =====
-- src/relayna/topology/workflow_graph.py and `_resolve_workflow_stage_for_routing_key` of
-- src/relayna/consumer/context.py: which stage gets which routing key.
pub mod Edges
pub mod Resolution
use relayna.Topology.Binding.{graph_binding_matches, topic_binding_matches}
use relayna.Topology.{
  WorkflowStage, SharedStatusWorkflowTopology, workflow_stage, workflow_stage_names,
  WorkflowEntryRoute, binding_keys_of, publish_key_of,
}
use relayna.Prelude.{
  ◌≡◌, String, Option, List, Bool, [], some, ◌∷◌, false, if◌then◌else◌, none, ◌++◌, ◌||◌, ◌==◌,
}
use relayna.Prelude.Text.{contains}

-- `any(_topic_binding_matches(binding, routing_key) for binding in ...)`
unfoldable pub any_binding : (String → String → Bool) → String → List String → Bool
any_binding match key [] = false
any_binding match key (b ∷ bs) = match b key || any_binding match key bs

-- The lookups by name of `workflow_binding_keys` and `workflow_publish_routing_key`; the loops ask
-- only for names of stages, so there is no `KeyError`.
unfoldable pub keys_at : Option WorkflowStage → List String
keys_at none = []
keys_at (some s) = binding_keys_of s

unfoldable pub workflow_binding_keys : SharedStatusWorkflowTopology → String → List String
unfolding keys_at
workflow_binding_keys t name = keys_at (workflow_stage t name)

unfoldable pub publish_key_at : Option WorkflowStage → Option String
publish_key_at none = none
publish_key_at (some s) = some (publish_key_of s)

unfoldable pub workflow_publish_routing_key : SharedStatusWorkflowTopology → String → Option String
unfolding publish_key_at
workflow_publish_routing_key t name = publish_key_at (workflow_stage t name)

-- An entry of `edges`.
pub record Edge : Type 0 where
  pub source : String
  pub target : String
  pub routing_key : String

-- `any(...)` for a destination of the exported graph.
unfoldable pub receives : SharedStatusWorkflowTopology → String → String → Bool
unfolding any_binding
receives t key destination =
    any_binding graph_binding_matches key (workflow_binding_keys t destination)

-- The inner and the outer loop of `export_workflow_graph`.
unfoldable pub edges_from : SharedStatusWorkflowTopology → String → String → List String → List Edge
edges_from t source key [] = []
edges_from t source key (d ∷ ds) =
    let rest = edges_from t source key ds in
    if receives t key d
    then record { source = source; target = d; routing_key = key } ∷ rest
    else rest

unfoldable pub edges_at : SharedStatusWorkflowTopology → String → Option String → List Edge
unfolding edges_from
edges_at t source none = []
edges_at t source (some key) = edges_from t source key (workflow_stage_names t)

unfoldable pub edges_of : SharedStatusWorkflowTopology → List String → List Edge
unfolding edges_at
edges_of t [] = []
edges_of t (s ∷ ss) = edges_at t s (workflow_publish_routing_key t s) ++ edges_of t ss

unfoldable pub export_edges : SharedStatusWorkflowTopology → List Edge
unfolding edges_of
export_edges t = edges_of t (workflow_stage_names t)

-- A loop that returns the first name that passes.
unfoldable pub find_name : (String → Bool) → List String → Option String
find_name p [] = none
find_name p (n ∷ ns) = if p n then some n else find_name p ns

abbrev pub or_name : Option String → Option String → Option String
or_name none next = next
or_name (some n) next = some n

unfoldable pub is_key : String → Option String → Bool
is_key key none = false
is_key key (some k) = k == key

unfoldable pub publishes : SharedStatusWorkflowTopology → String → String → Bool
unfolding is_key
publishes t key name = is_key key (workflow_publish_routing_key t name)

unfoldable pub entry_target : String → List WorkflowEntryRoute → Option String
entry_target key [] = none
entry_target key (r ∷ rs) =
    if r.routing_key == key then some r.target_stage else entry_target key rs

-- `any(...)` for a stage of the consumer's search.
unfoldable pub consumes : SharedStatusWorkflowTopology → String → String → Bool
unfolding any_binding
consumes t key name = any_binding topic_binding_matches key (workflow_binding_keys t name)

-- `_resolve_workflow_stage_for_routing_key`; `none` is the `KeyError`.
unfoldable pub resolve_workflow_stage : SharedStatusWorkflowTopology → String → Option String
unfolding find_name publishes entry_target consumes
resolve_workflow_stage t key =
    let stages = workflow_stage_names t in
    or_name (find_name (publishes t key) stages) (
      or_name (find_name (λ name. contains key (workflow_binding_keys t name)) stages)
        (or_name (entry_target key t.entry_routes) (find_name (consumes t key) stages)))
