-- ===== src/Topology/Contract.antt =====
-- src/relayna/topology/workflow_contract.py and src/relayna/workflow/transitions.py: what may be
-- published to a stage.
pub mod Permission
use relayna.Topology.{
  WorkflowStage, SharedStatusWorkflowTopology, workflow_stage, String, List, Option, ActionSchema,
  some, Dict, Bool, ◌∷◌, none, strip,
}
use relayna.Contracts.Schemas.{PayloadError, validate_action}
use relayna.Json.{Json}
use relayna.Prelude.{none, false, [], if◌then◌else◌, true, ◌==◌, ◌&&◌, not, is_nonempty}
use relayna.Prelude.Text.{contains}

-- `WorkflowContractError` by its reason, and the `KeyError` of `workflow_stage`.
pub data ContractError : Type 0 where
  terminal_stage_handoff forbidden_transition : String → String → ContractError
  unsupported_action : String → Option String → ContractError
  payload_schema_violation : String → String → List PayloadError → ContractError
  unknown_stage : String → ContractError

unfoldable pub schema_for_action : List ActionSchema → String → Option ActionSchema
schema_for_action [] action = none
schema_for_action (item ∷ items) action =
    if item.action == action then some item else schema_for_action items action

-- `str(action or "").strip()`
abbrev pub action_name : Option String → String
action_name none = ""
action_name (some a) = strip a

abbrev payload_error : String → String → List PayloadError → Option ContractError
payload_error stage name [] = none
payload_error stage name (e ∷ es) = some (payload_schema_violation stage name (e ∷ es))

unfoldable pub schema_error :
    String → String → Dict Json → Option ActionSchema → Option ContractError
schema_error stage name body none = some (unsupported_action stage (some name))
schema_error stage name body (some schema) = payload_error stage name (validate_action schema body)

-- `_validate_action_contract`; `none` is a return.
unfoldable pub validate_action_contract :
    List ActionSchema → Option String → Dict Json → String → Option ContractError
unfolding schema_error
validate_action_contract [] action body stage = none
validate_action_contract (a ∷ actions) action body stage =
    let name = action_name action in
    if name == ""
    then some (unsupported_action stage action)
    else schema_error stage name body (schema_for_action (a ∷ actions) name)

unfoldable pub or_then : Option ContractError → Option ContractError → Option ContractError
or_then none next = next
or_then (some e) next = some e

-- The part for a source stage.
unfoldable pub validate_source :
    String → String → Option String → Dict Json → Option WorkflowStage → Option ContractError
validate_source name target action body none = some (unknown_stage name)
validate_source name target action body (some source) =
    if source.terminal
    then some (terminal_stage_handoff name target)
    else if is_nonempty source.allowed_next_stages
        && not (contains target source.allowed_next_stages)
    then some (forbidden_transition name target)
    else validate_action_contract source.produced_actions action body name

-- `if source_stage:`
unfoldable pub validate_from :
    SharedStatusWorkflowTopology
    → String
    → Option String
    → Dict Json
    → Option String
    → Option ContractError
unfolding validate_source
validate_from t target action body none = none
validate_from t target action body (some source) =
    if source == ""
    then none
    else validate_source source target action body (workflow_stage t source)

abbrev validate_target :
    String
    → Option String
    → Dict Json
    → Option WorkflowStage
    → Option ContractError
    → Option ContractError
validate_target target action body none first = some (unknown_stage target)
validate_target target action body (some destination) first =
    or_then first (validate_action_contract destination.accepted_actions action body target)

unfoldable pub validate_publish_contract :
    SharedStatusWorkflowTopology
    → String
    → Option String
    → Dict Json
    → Option String
    → Option ContractError
unfolding validate_from or_then
validate_publish_contract t target action body source =
    validate_target target action body (workflow_stage t target)
      (validate_from t target action body source)

unfoldable pub validate_inbound_message_contract :
    SharedStatusWorkflowTopology → String → Option String → Dict Json → Option ContractError
unfolding or_then
validate_inbound_message_contract t stage action body =
    validate_target stage action body (workflow_stage t stage) none

-- workflow/transitions.py
pub record TransitionRule : Type 0 where
  pub source : String
  pub targets : List String

unfoldable pub from_stage : WorkflowStage → TransitionRule
from_stage s = record { source = s.name; targets = s.allowed_next_stages }

unfoldable pub rules_of : List WorkflowStage → List TransitionRule
unfolding from_stage
rules_of [] = []
rules_of (s ∷ ss) = from_stage s ∷ rules_of ss

unfoldable pub validate_transition : String → String → List TransitionRule → Bool
validate_transition current next [] = false
validate_transition current next (rule ∷ rules) =
    if rule.source == current
    then contains next rule.targets
    else validate_transition current next rules
