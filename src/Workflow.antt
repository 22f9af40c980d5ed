-- ===== src/Workflow.antt =====
-- src/relayna/workflow: the state of a run, fan-in, the reasons of a stall, the stages' registry.
pub mod Runs
use relayna.Prelude.{
  ◌≡◌, String, ◌+◌, some, List, Bool, Option, ℕ, none, ◌∷◌, is_nonempty, if◌then◌else◌, ◌==◌, ◌++◌,
  [], ◌&&◌, ◌||◌, all,
}
use relayna.Topology.{WorkflowStage}
use relayna.Prelude.Dict.{Dict, update, put, get}
use relayna.Json.{Json}
use relayna.Prelude.Text.{contains}

-- run_state.py
pub record WorkflowStageState : Type 0 where
  pub stage : String
  pub status : String
  pub attempts : ℕ
  pub latest_message_id : Option String
  pub meta : Dict Json

pub record WorkflowRunState : Type 0 where
  pub task_id : String
  pub current_stage : Option String
  pub status : String
  pub stages : Dict WorkflowStageState

abbrev pub pending_stage : String → WorkflowStageState
pending_stage stage = record {
  stage = stage;
  status = "pending";
  attempts = 0;
  latest_message_id = none;
  meta = [];
}

abbrev pub pending_run : String → WorkflowRunState
pending_run task_id = record {
  task_id = task_id;
  current_stage = none;
  status = "pending";
  stages = [];
}

-- The arguments of `update_stage`; no `meta` counts as an empty one.
pub record Update : Type 0 where
  pub stage : String
  pub status : String
  pub message_id : Option String
  pub meta : Dict Json

-- `setdefault`: the stage's state, or a new one.
unfoldable pub state_of : String → Option WorkflowStageState → WorkflowStageState
state_of stage none = pending_stage stage
state_of stage (some item) = item

unfoldable pub update_item : Update → WorkflowStageState → WorkflowStageState
update_item u item = record item {
  status = u.status;
  attempts = item.attempts + 1;
  latest_message_id = u.message_id;
  meta = update item.meta u.meta;
}

unfoldable pub update_stage : WorkflowRunState → Update → WorkflowRunState
unfolding state_of update_item
update_stage run u = record run {
  current_stage = some u.stage;
  status = u.status;
  stages = put u.stage (update_item u (state_of u.stage (get u.stage run.stages))) run.stages;
}

unfoldable pub update_stages : WorkflowRunState → List Update → WorkflowRunState
update_stages run [] = run
update_stages run (u ∷ us) = update_stages (update_stage run u) us

-- fanin.py; a set is a list of its elements.
pub record FanInProgress : Type 0 where
  pub stage : String
  pub expected : List String
  pub completed : List String

unfoldable pub is_complete : FanInProgress → Bool
is_complete p = is_nonempty p.expected && all (λ e. contains e p.completed) p.expected

unfoldable pub update_fanin_progress : FanInProgress → String → FanInProgress
update_fanin_progress p completed_stage = record p {
  completed =
      if contains completed_stage p.completed then p.completed else completed_stage ∷ p.completed;
}

unfoldable pub complete_stages : FanInProgress → List String → FanInProgress
complete_stages p [] = p
complete_stages p (s ∷ ss) = complete_stages (update_fanin_progress p s) ss

-- diagnostics.py; the texts of the reasons are left out.
pub data Reason : Type 0 where
  not_entered no_terminal_stage : Reason
  stage_is : String → String → Reason

abbrev is_stuck : String → Bool
is_stuck status = status == "failed" || status == "retrying"

unfoldable pub stage_reasons : Dict WorkflowStageState → List Reason
stage_reasons [] = []
stage_reasons ((name, s) ∷ d) =
    let rest = stage_reasons d in if is_stuck s.status then stage_is name s.status ∷ rest else rest

abbrev entry_reason : Option String → List Reason
entry_reason none = not_entered ∷ []
entry_reason (some s) = []

abbrev last_reason : String → List Reason → List Reason
last_reason status [] =
    if status == "completed" || status == "failed" then [] else no_terminal_stage ∷ []
last_reason status (r ∷ rs) = r ∷ rs

-- `explain_stall(...).reasons`
unfoldable pub explain_stall : WorkflowRunState → List Reason
unfolding stage_reasons
explain_stall run =
    last_reason run.status (entry_reason run.current_stage ++ stage_reasons run.stages)
