-- ===== src/Examples/Workflows.antt =====
-- A workflow of two stages, at concrete inputs.
use relayna.Topology.Binding.{graph_binding_matches, topic_binding_matches, matches}
use relayna.Topology.{
  WorkflowStage, SharedStatusWorkflowTopology, workflow_stage, workflow_stage_names, stripped_all,
  publish_key_of, names, binding_keys_of,
}
use relayna.Prelude.{
  ◌≡◌, String, ◌∷◌, [], ◌≢◌, All, some, List, false, true, none, Bool, ◌↔◌, ◌&&◌, refl,
}
use relayna.Contracts.Schemas.{ActionSchema, validate_action, validate_payload, missing, unknown}
use relayna.Prelude.Dict.{Dict, has}
use relayna.Topology.Validation.{
  post_init, below_one, below_zero, has_duplicates, action_guards, action_names,
}
use relayna.Prelude.Text.{strip, contains, split_dots, set_of}
use relayna.Topology.Contract.{
  validate_publish_contract, validate_inbound_message_contract, validate_transition, rules_of,
  validate_action_contract, schema_for_action,
}
use relayna.Topology.Routing.{
  publishes, resolve_workflow_stage, export_edges, workflow_publish_routing_key,
  workflow_binding_keys,
}
use relayna.Topology.Routing.Edges.{links, is_linked, export_edges-links}
use relayna.Topology.Validation.WellFormed.{IsWellFormed, post_init-IsWellFormed}
use relayna.Json.{Json, null, pos}
use relayna.Topology.Contract.Permission.{
  publish-inbound, publish-transition, MayHandOff, Accepts, publish-permits,
}
use relayna.Topology.Binding.Words.{Covers, topic_binding_matches-eq}

abbrev resize : ActionSchema
resize = record {
  action = "resize";
  payload = some (record { required_fields = "width" ∷ []; optional_fields = [] });
}

abbrev stage_named : String → String → List String → Bool → List ActionSchema → WorkflowStage
stage_named name key next terminal produced = record {
  name = name;
  queue = key;
  binding_keys = key ∷ [];
  publish_routing_key = key;
  sla_ms = none;
  accepted_actions = resize ∷ [];
  produced_actions = produced;
  allowed_next_stages = next;
  terminal = terminal;
  timeout_seconds = none;
  max_retries = some (pos 3);
  retry_delay_ms = none;
  max_inflight = none;
  dedup_key_fields = [];
}

abbrev ingest : WorkflowStage
ingest = stage_named "ingest" "in" ("store" ∷ []) false (resize ∷ [])

abbrev store : WorkflowStage
store = stage_named "store" "out" [] true []

abbrev workflow : SharedStatusWorkflowTopology
workflow = record {
  stages = ingest ∷ store ∷ [];
  entry_routes = record { name = "upload"; routing_key = "in"; target_stage = "ingest" } ∷ [];
}

abbrev body : Dict Json
body = ("width", null) ∷ []

module _ where
  constructed : post_init workflow ≡ none
  unfolding post_init strip contains stripped_all below_one below_zero has_duplicates set_of
      action_guards action_names
  constructed = refl

  named : All (λ s. strip s.name ≡ s.name) workflow.stages
  unfolding strip
  named = (refl, (refl, tt))

  accepted : validate_publish_contract workflow "store" (some "resize") body (some "ingest") ≡ none
  unfolding validate_publish_contract workflow_stage contains validate_action_contract strip
      schema_for_action validate_action validate_payload missing unknown has
  accepted = refl

  ingest_found : workflow_stage workflow "ingest" ≡ some ingest
  unfolding workflow_stage
  ingest_found = refl

  store_found : workflow_stage workflow "store" ≡ some store
  unfolding workflow_stage
  store_found = refl

  ingest_publishes : publishes workflow "in" "ingest" ≡ true
  unfolding publishes workflow_publish_routing_key workflow_stage publish_key_of strip
  ingest_publishes = refl

  ingest_named : contains "ingest" (workflow_stage_names workflow) ≡ true
  unfolding contains workflow_stage_names names
  ingest_named = refl

  nowhere : resolve_workflow_stage workflow "lost" ≡ none
  unfolding resolve_workflow_stage workflow_stage_names names workflow_publish_routing_key
      workflow_stage publish_key_of strip contains workflow_binding_keys binding_keys_of
      stripped_all topic_binding_matches matches split_dots
  nowhere = refl

  -- A stage whose name has a space at its end passes, and its entry route leads nowhere.
  abbrev spaced : SharedStatusWorkflowTopology
  spaced = record {
    stages = stage_named "ingest " "in" [] false [] ∷ [];
    entry_routes = workflow.entry_routes;
  }

  spaced_stage : (post_init spaced ≡ none) × (workflow_stage spaced "ingest" ≡ none)
  unfolding post_init workflow_stage strip contains stripped_all below_one below_zero has_duplicates
      set_of action_guards action_names
  spaced_stage = (refl, refl)

topic_binding_matches-eq_example :
    (topic_binding_matches "a.#.c" "a.b.b.c" ≡ graph_binding_matches "a.#.c" "a.b.b.c")
    × ((topic_binding_matches "a.#.c" "a.b.b.c" ≡ true)
        ↔ Covers (split_dots "a.#.c") (split_dots "a.b.b.c"))
topic_binding_matches-eq_example = topic_binding_matches-eq "a.#.c" "a.b.b.c"

publish-inbound_example :
    validate_inbound_message_contract workflow "store" (some "resize") body ≡ none
publish-inbound_example =
    publish-inbound workflow "store" (some "resize") body (some "ingest") accepted

publish-permits_example :
    (validate_publish_contract workflow "store" (some "resize") body (some "ingest") ≡ none) ↔ (
      MayHandOff ingest "store" (some "resize") body
      × Accepts store.accepted_actions (some "resize") body)
publish-permits_example =
    publish-permits workflow "ingest" "store" (some "resize") body ingest store refl ingest_found
      store_found

has_next : ingest.allowed_next_stages ≢ []
has_next h = cc

publish-transition_example : validate_transition "ingest" "store" (rules_of workflow.stages) ≡ true
publish-transition_example =
    publish-transition workflow "ingest" "store" (some "resize") body ingest refl ingest_found
      has_next accepted

export_edges-links_example : links "ingest" "store" (export_edges workflow) ≡ (
    contains "ingest" (workflow_stage_names workflow)
    && is_linked workflow "store" (workflow_publish_routing_key workflow "ingest"))
export_edges-links_example = export_edges-links workflow "ingest" "store"

post_init-IsWellFormed_example : IsWellFormed workflow
post_init-IsWellFormed_example = post_init-IsWellFormed workflow constructed
