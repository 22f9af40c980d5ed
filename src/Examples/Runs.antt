-- ===== src/Examples/Runs.antt =====
-- Aliases, schemas, merges, runs of a workflow, at concrete inputs.
use relayna.Prelude.{◌≡◌, ◌≢◌, List, some, String, ◌∷◌, [], none, ◌↔◌, refl, ℕ, true}
use relayna.Studio.Incidents.{IncidentState, resolve, out_of_fuel, resolved}
use relayna.Prelude.Dict.{Dict, get}
use relayna.Json.{Json, text}
use relayna.Contracts.Aliases.Normal.{Clean, normalize-Clean}
use relayna.Contracts.Aliases.{alias_map, payload, normalize_contract_aliases}
use relayna.Contracts.Schemas.{PayloadSchema}
use relayna.Workflow.{
  update_stages, FanInProgress, WorkflowRunState, explain_stall, Update, pending_run,
}
use relayna.Workflow.Runs.{total_attempts, IsCurrent, run-IsCurrent}
use relayna.Studio.Incidents.Resolve.{Leads}
use relayna.Studio.Incidents.Resolve.Ends.{resolve-merges}

abbrev incidents : Dict IncidentState
incidents =
    ("a", record { merged_into = some "b"; status = "merged" })
    ∷ ("b", record { merged_into = none; status = "open" })
    ∷ []

resolve-merges_example :
    (resolve incidents "a" ≢ out_of_fuel)
    × ((r : String) → (resolve incidents "a" ≡ resolved r) ↔ ((n : ℕ) × Leads incidents n "a" r))
resolve-merges_example = resolve-merges incidents "a"

abbrev str : Json → String
str (text s) = s
str v = ""

abbrev event : Dict Json
event = ("task_id", text "t-1") ∷ ("status", text "done") ∷ []

normalize-Clean_example :
    Clean (alias_map none payload) (normalize_contract_aliases str event none payload true)
normalize-Clean_example = normalize-Clean str event none payload

module _ where
  has_id : get "task_id" event ≡ some (text "t-1")
  unfolding get
  has_id = refl

abbrev schema : PayloadSchema
schema = record { required_fields = "task_id" ∷ []; optional_fields = "note" ∷ [] }

abbrev updates : List Update
updates =
    record { stage = "ingest"; status = "running"; message_id = none; meta = [] }
    ∷ record { stage = "store"; status = "failed"; message_id = some "m-1"; meta = [] }
    ∷ []

run-IsCurrent_example :
    let run = update_stages (pending_run "t-1") updates in
    (total_attempts run.stages ≡ 2) × IsCurrent run
run-IsCurrent_example = run-IsCurrent "t-1" updates

abbrev join_point : FanInProgress
join_point = record { stage = "join"; expected = "a" ∷ "b" ∷ []; completed = [] }

abbrev finished_run : WorkflowRunState
finished_run = record {
  task_id = "t-1";
  current_stage = some "store";
  status = "completed";
  stages = [];
}

module _ where
  no_stall : explain_stall finished_run ≡ []
  unfolding explain_stall
  no_stall = refl
