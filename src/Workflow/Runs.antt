-- ===== src/Workflow/Runs.antt =====
-- What holds after any updates of a run, in any order of the fan-in, and of the reasons of a stall.
use mathlib.Core.Path.{subst}
use relayna.Workflow.{
  WorkflowStageState, WorkflowRunState, Update, update_stage, update_stages, is_complete,
  update_fanin_progress, complete_stages, explain_stall, stage_reasons, state_of, update_item,
  pending_run, FanInProgress, Reason, last_reason, entry_reason,
}
use relayna.Prelude.{
  ◌∷◌, ◌≡◌, Option, String, ◌+◌, ℕ, arith, some, none, refl, [], some-eq, List, ◌∙◌, length, ◌≢◌,
  eq_refl, ◌||◌, ◌==◌, Bool-cases, true, inl, inr, Bool, if◌then◌else◌, ap, is_nonempty, eq_iff,
  all, ◌&&◌, false, ap₂, ◌++◌,
}
use relayna.Prelude.Dict.{Dict, put, get, get-put}
use relayna.Prelude.Text.{contains}

abbrev attempts_of : Option WorkflowStageState → ℕ
attempts_of none = 0
attempts_of (some s) = s.attempts

abbrev pub total_attempts : Dict WorkflowStageState → ℕ
total_attempts [] = 0
total_attempts ((k, s) ∷ d) = s.attempts + total_attempts d

total-put :
    (k : String) (v : WorkflowStageState) (d : Dict WorkflowStageState)
    → total_attempts (put k v d) + attempts_of (get k d) ≡ total_attempts d + v.attempts
unfolding put get
total-put k v [] = omega arith
total-put k v ((j, w) ∷ d) = ground (arith, total-put k v d)

attempts-state_of :
    (s : String) (o : Option WorkflowStageState) → (state_of s o).attempts ≡ attempts_of o
unfolding state_of
attempts-state_of s none = refl
attempts-state_of s (some i) = refl

one_attempt :
    (run : WorkflowRunState) (u : Update)
    → total_attempts (update_stage run u).stages ≡ total_attempts run.stages + 1
unfolding update_stage update_item
one_attempt run u = omega (
  arith,
  total-put u.stage (update_item u (state_of u.stage (get u.stage run.stages))) run.stages,
  attempts-state_of u.stage (get u.stage run.stages),
)

get-same :
    (k : String) (v : WorkflowStageState) (d : Dict WorkflowStageState) → get k (put k v d) ≡ some v
get-same k v d = get-put k k v d ∙ rw (eq_refl k) refl

-- The stage that a run is at has the run's status.
abbrev pub IsCurrent : WorkflowRunState → Type 0
IsCurrent run =
    (stage : String)
    → run.current_stage ≡ some stage
    → (s : WorkflowStageState) × (get stage run.stages ≡ some s) × (s.status ≡ run.status)

update_stage-IsCurrent : (run : WorkflowRunState) (u : Update) → IsCurrent (update_stage run u)
unfolding update_stage update_item
update_stage-IsCurrent run u stage e =
    let item = update_item u (state_of u.stage (get u.stage run.stages)) in
    (
      item,
      subst (λ z. get z (put u.stage item run.stages) ≡ some item) (some-eq e)
          (get-same u.stage item run.stages),
      refl,
    )

update_stages-counts :
    (run : WorkflowRunState) (us : List Update)
    → total_attempts (update_stages run us).stages ≡ total_attempts run.stages + length us
unfolding update_stages
update_stages-counts run [] = omega arith
update_stages-counts run (u ∷ us) =
    omega (arith, one_attempt run u, update_stages-counts (update_stage run u) us)

update_stages-IsCurrent :
    (run : WorkflowRunState) (us : List Update) → IsCurrent run → IsCurrent (update_stages run us)
unfolding update_stages
update_stages-IsCurrent run [] h = h
update_stages-IsCurrent run (u ∷ us) h =
    update_stages-IsCurrent (update_stage run u) us (update_stage-IsCurrent run u)

-- After any updates of a new run the attempts of its stages add up to the number of updates, and the
-- stage that the run is at has the run's status.
pub run-IsCurrent :
    (task_id : String) (us : List Update)
    → let run = update_stages (pending_run task_id) us in
      (total_attempts run.stages ≡ length us) × IsCurrent run
run-IsCurrent task_id us = (
  omega (arith, update_stages-counts (pending_run task_id) us),
  update_stages-IsCurrent (pending_run task_id) us (λ stage e. cc),
)

or_assoc : (a b c : Bool) → ((a || b) || c) ≡ (a || (b || c))
or_assoc true b c = refl
or_assoc false b c = refl

-- A completed stage is there, whether or not it was there before.
seen :
    (s : String) (done : List String)
    → contains s (if contains s done then done else s ∷ done) ≡ (contains s done || s == s)
unfolding contains
seen s done = elim (Bool-cases (contains s done)) [
  | inl e ↦ rw e e
  | inr e ↦ rw e (ground (arith, e, eq_refl s))
]

-- A stage counts as completed from its update on.
contains-update :
    (p : FanInProgress) (s e : String)
    → contains e (update_fanin_progress p s).completed ≡ (contains e p.completed || s == e)
unfolding update_fanin_progress contains
contains-update p s e = elim (Bool-cases (s == e)) [
  | inl q ↦
      subst
        (λ z.
          contains z (if contains s p.completed then p.completed else s ∷ p.completed)
          ≡ (contains z p.completed || s == z))
        ((eq_iff s e).0 q) (seen s p.completed)
  | inr q ↦ ground (arith, q)
]

contains_complete :
    (p : FanInProgress) (ss : List String) (e : String)
    → contains e (complete_stages p ss).completed ≡ (contains e p.completed || contains e ss)
unfolding complete_stages contains
contains_complete p [] e = ground arith
contains_complete p (s ∷ ss) e =
    contains_complete (update_fanin_progress p s) ss e
    ∙ ap (λ b. b || contains e ss) (contains-update p s e)
    ∙ or_assoc (contains e p.completed) (s == e) (contains e ss)

expected_complete :
    (p : FanInProgress) (ss : List String) → (complete_stages p ss).expected ≡ p.expected
unfolding complete_stages update_fanin_progress
expected_complete p [] = refl
expected_complete p (s ∷ ss) = expected_complete (update_fanin_progress p s) ss

all-ext :
    (f g : String → Bool) (xs : List String) → ((x : String) → f x ≡ g x) → all f xs ≡ all g xs
all-ext f g [] h = refl
all-ext f g (x ∷ xs) h = ap₂ (λ a b. a && b) (h x) (all-ext f g xs h)

-- After any updates a fan-in is complete exactly when it expects some stage and every stage that it
-- expects was completed before or is among the updates: their order and repetitions do not matter.
pub is_complete-updates :
    (p : FanInProgress) (ss : List String)
    → is_complete (complete_stages p ss)
      ≡ (is_nonempty p.expected && all (λ e. contains e p.completed || contains e ss) p.expected)
unfolding is_complete
is_complete-updates p ss =
    rw (expected_complete p ss)
      (ap (λ b. is_nonempty p.expected && b) (all-ext _ _ p.expected (contains_complete p ss)))

no_reason :
    (status : String) (at : Option String) (rs : List Reason)
    → last_reason status (entry_reason at ++ rs) ≡ []
    → (at ≢ none) × (rs ≡ []) × ((status == "completed" || status == "failed") ≡ true)
no_reason status none rs h = cc
no_reason status (some s) [] h = (λ e. cc, refl, ground (arith, h))
no_reason status (some s) (r ∷ rs) h = cc

-- A run that is stalled has a reason: there is none only for a run that has entered a stage, has
-- completed or failed, and has no failed or retrying stage.
pub explain_stall-nil :
    (run : WorkflowRunState)
    → explain_stall run ≡ []
    → (run.current_stage ≢ none)
      × (stage_reasons run.stages ≡ [])
      × ((run.status == "completed" || run.status == "failed") ≡ true)
unfolding explain_stall
explain_stall-nil run h = no_reason run.status run.current_stage (stage_reasons run.stages) h
