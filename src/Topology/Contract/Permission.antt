-- ===== src/Topology/Contract/Permission.antt =====
-- What the checks of a publication accept, and that the stage that receives it accepts it too.
use relayna.Topology.Contract.{
  validate_publish_contract, validate_inbound_message_contract, validate_action_contract,
  schema_error, SharedStatusWorkflowTopology, ActionSchema, Dict, Json, schema_for_action,
  validate_action, action_name, WorkflowStage, is_nonempty, contains, validate_source,
  validate_from, rules_of, validate_transition,
}
use relayna.Prelude.{
  ◌≡◌, List, String, Option, [], none, ◌⊎◌, some, ◌↔◌, arith, inl, ◌∷◌, refl, ◌==◌, Bool-cases,
  false, inr, true, ◌&&◌, not, ◌≢◌, ◌∙◌,
}
use relayna.Topology.{stage_in, workflow_stage}

-- A stage that declares no actions accepts every message; else the action is one of them, by its
-- stripped name, and the payload has no error by its schema.
abbrev pub Accepts : List ActionSchema → Option String → Dict Json → Type 0
Accepts actions action body =
    (actions ≡ [])
    ⊎ ((schema : ActionSchema) × (schema_for_action actions (action_name action) ≡ some schema)
        × ((action_name action == "") ≡ false)
        × (validate_action schema body ≡ []))

accepted :
    (stage name : String) (body : Dict Json) (o : Option ActionSchema)
    → schema_error stage name body o ≡ none
    → (schema : ActionSchema) × (o ≡ some schema) × (validate_action schema body ≡ [])
unfolding schema_error
accepted stage name body none h = cc
accepted stage name body (some schema) h = (schema, refl, ground (arith, h))

validate_action_contract-Accepts :
    (actions : List ActionSchema) (action : Option String) (body : Dict Json) (stage : String)
    → (validate_action_contract actions action body stage ≡ none) ↔ Accepts actions action body
unfolding validate_action_contract schema_error
validate_action_contract-Accepts [] action body stage = (λ h. inl refl, λ h. refl)
validate_action_contract-Accepts (a ∷ actions) action body stage = (
  λ h. elim (Bool-cases (action_name action == "")) [
    | inl e ↦ absurd (ground (arith, e, h))
    | inr e ↦
        let (schema, p, q) = accepted stage (action_name action) body _ (ground (arith, e, h)) in
        inr (schema, p, e, q)
  ],
  λ h. elim h [
    | inl e ↦ absurd (ground (arith, e))
    | inr (schema, p, e, q) ↦ ground (arith, p, e, q)
  ],
)

-- A publication that is accepted at the sender is accepted by its target stage on receipt.
pub publish-inbound :
    (t : SharedStatusWorkflowTopology) (target : String) (action : Option String) (body : Dict Json)
    (source : Option String)
    → validate_publish_contract t target action body source ≡ none
    → validate_inbound_message_contract t target action body ≡ none
unfolding validate_publish_contract validate_inbound_message_contract
publish-inbound t target action body source h = ground arith

-- What a stage may hand off: it is not terminal, it names no next stages or the target is one, and
-- it produces the action.
pub record MayHandOff (s : WorkflowStage) (target : String) (action : Option String)
    (body : Dict Json) : Type 0 where
  pub not_terminal : s.terminal ≡ false
  pub is_next : (s.allowed_next_stages ≡ []) ⊎ (contains target s.allowed_next_stages ≡ true)
  pub produces : Accepts s.produced_actions action body

next_of :
    (target : String) (l : List String)
    → (is_nonempty l && not (contains target l)) ≡ false
    → (l ≡ []) ⊎ (contains target l ≡ true)
next_of target [] h = inl refl
next_of target (x ∷ xs) h = inr (ground (arith, h))

next_test :
    (target : String) (l : List String)
    → (l ≡ []) ⊎ (contains target l ≡ true)
    → (is_nonempty l && not (contains target l)) ≡ false
next_test target l (inl e) = simp e
next_test target [] (inr e) = refl
next_test target (x ∷ xs) (inr e) = simp e

validate_source-MayHandOff :
    (name target : String) (action : Option String) (body : Dict Json) (s : WorkflowStage)
    → (validate_source name target action body (some s) ≡ none) ↔ MayHandOff s target action body
unfolding validate_source
validate_source-MayHandOff name target action body s =
    let c = validate_action_contract-Accepts s.produced_actions action body name in
    (
      λ h. record {
        not_terminal = ground (arith, h);
        is_next = next_of target s.allowed_next_stages (ground (arith, h));
        produces = c.0 (ground (arith, h));
      },
      λ v.
          ground (
            arith,
            v.not_terminal,
            next_test target s.allowed_next_stages v.is_next,
            c.1 v.produces,
          ),
    )

module _ (t : SharedStatusWorkflowTopology) (name target : String) (action : Option String)
    (body : Dict Json) where
  -- From a stage to another, both configured, exactly those publications are accepted that the
  -- source may hand off and the target accepts.
  pub publish-permits :
      (s d : WorkflowStage)
      → (name == "") ≡ false
      → workflow_stage t name ≡ some s
      → workflow_stage t target ≡ some d
      → (validate_publish_contract t target action body (some name) ≡ none)
        ↔ (MayHandOff s target action body × Accepts d.accepted_actions action body)
  unfolding validate_publish_contract validate_from
  publish-permits s d n fs fd =
      let c = validate_source-MayHandOff name target action body s in
      let a = validate_action_contract-Accepts d.accepted_actions action body target in
      (
        λ h. (c.0 (ground (arith, n, fs, fd, h)), a.0 (ground (arith, n, fs, fd, h))),
        λ v. ground (arith, n, fs, fd, c.1 v.0, a.1 v.1),
      )

stage_rule :
    (ss : List WorkflowStage) (name next : String) (s : WorkflowStage)
    → stage_in ss name ≡ some s
    → validate_transition name next (rules_of ss) ≡ contains next s.allowed_next_stages
unfolding stage_in rules_of validate_transition
stage_rule [] name next s h = cc
stage_rule (x ∷ ss) name next s h = ground (arith, stage_rule ss name next s)

module _ (t : SharedStatusWorkflowTopology) (name target : String) (action : Option String)
    (body : Dict Json) where
  -- An accepted publication from a stage that names its next stages is a transition by the rules
  -- of the same stages.
  pub publish-transition :
      (s : WorkflowStage)
      → (name == "") ≡ false
      → workflow_stage t name ≡ some s
      → s.allowed_next_stages ≢ []
      → validate_publish_contract t target action body (some name) ≡ none
      → validate_transition name target (rules_of t.stages) ≡ true
  unfolding validate_publish_contract validate_from workflow_stage
  publish-transition s n fs nonempty h =
      let v = (validate_source-MayHandOff name target action body s).0 (ground (arith, n, fs, h)) in
      elim v.is_next [
        | inl e ↦ absurd (nonempty e)
        | inr e ↦ stage_rule t.stages name target s fs ∙ e
      ]
