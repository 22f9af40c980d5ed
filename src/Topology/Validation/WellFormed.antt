-- ===== src/Topology/Validation/WellFormed.antt =====
-- What `__post_init__` guarantees.
use relayna.Topology.Validation.{
  post_init, first_error, check_stages, check_routes, check_transitions, TopologyError, or_error,
  WorkflowStage, stage_guards, strip, stripped_all, stripped_names, route_guards, next_guards,
  transition_guards, SharedStatusWorkflowTopology, WorkflowEntryRoute,
}
use relayna.Prelude.{
  ◌≡◌, List, Option, Bool, none, All, some, false, refl, String, ◌∷◌, [], ◌==◌, true, length, ◌≢◌,
  ◌++◌, ◌&&◌, arith, is_nonempty, eq_iff, Bool-cases, inl, inr,
}
use relayna.Prelude.Text.{contains}
use relayna.Topology.{stage_in, workflow_stage}

-- No guard holds where none raises.
first_error-none :
    (l : List (Bool × TopologyError)) → first_error l ≡ none → All (λ g. g.0 ≡ false) l
unfolding first_error
first_error-none [] h = tt
first_error-none ((true, e) ∷ l) h = cc
first_error-none ((false, e) ∷ l) h = (refl, first_error-none l h)

both : (a b : Option TopologyError) → or_error a b ≡ none → (a ≡ none) × (b ≡ none)
both none b h = (refl, h)
both (some e) b h = cc

-- No text twice.
abbrev Distinct : List String → Type 0
Distinct [] = Unit
Distinct (x ∷ xs) = (contains x xs ≡ false) × Distinct xs

-- None of `seen` is in `xs`.
abbrev Apart : List String → List String → Type 0
Apart seen xs = All (λ x. contains x seen ≡ false) xs

Apart-tail : (x : String) (seen xs : List String) → Apart (x ∷ seen) xs → Apart seen xs
unfolding contains
Apart-tail x seen [] h = tt
Apart-tail x seen (y ∷ ys) h = (ground (arith, h.0), Apart-tail x seen ys h.1)

Apart-head : (x : String) (seen xs : List String) → Apart (x ∷ seen) xs → contains x xs ≡ false
unfolding contains
Apart-head x seen [] h = refl
Apart-head x seen (y ∷ ys) h = grind (arith, h.0, Apart-head x seen ys h.1, eq_iff x y, eq_iff y x)

-- What the first loop has checked of a stage by itself.
pub record IsStage (s : WorkflowStage) : Type 0 where
  pub named : (strip s.name == "") ≡ false
  pub queued : (strip s.queue == "") ≡ false
  pub bound : length (stripped_all s.binding_keys) ≢ 0
  pub publishes : (strip s.publish_routing_key == "") ≡ false

stage_guards-IsStage :
    (ns qs : List String) (s : WorkflowStage)
    → first_error (stage_guards ns qs s) ≡ none
    → IsStage s × (contains (strip s.name) ns ≡ false) × (contains (strip s.queue) qs ≡ false)
unfolding stage_guards
stage_guards-IsStage ns qs s h =
    let g = first_error-none (stage_guards ns qs s) h in
    (
      record {
        named = g.0;
        queued = g.1.1.0;
        bound = ground (arith, g.1.1.1.1.0);
        publishes = g.1.1.1.1.1.0;
      },
      g.1.0,
      g.1.1.1.0,
    )

abbrev stripped_queues : List WorkflowStage → List String
stripped_queues [] = []
stripped_queues (s ∷ ss) = strip s.queue ∷ stripped_queues ss

check_stages-All :
    (ns qs : List String) (ss : List WorkflowStage)
    → check_stages ns qs ss ≡ none
    → All IsStage ss
      × Distinct (stripped_names ss)
      × Distinct (stripped_queues ss)
      × Apart ns (stripped_names ss)
      × Apart qs (stripped_queues ss)
unfolding check_stages stripped_names
check_stages-All ns qs [] h = (tt, tt, tt, tt, tt)
check_stages-All ns qs (s ∷ ss) h =
    let (here, there) = both _ _ h in
    let (ok, n, q) = stage_guards-IsStage ns qs s here in
    let (oks, dn, dq, an, aq) =
      check_stages-All (strip s.name ∷ ns) (strip s.queue ∷ qs) ss there in
    (
      (ok, oks),
      (Apart-head (strip s.name) ns (stripped_names ss) an, dn),
      (Apart-head (strip s.queue) qs (stripped_queues ss) aq, dq),
      (n, Apart-tail (strip s.name) ns (stripped_names ss) an),
      (q, Apart-tail (strip s.queue) qs (stripped_queues ss) aq),
    )

check_routes-All :
    (ns seen : List String) (rs : List WorkflowEntryRoute)
    → check_routes ns seen rs ≡ none
    → All (λ r. contains r.target_stage ns ≡ true) rs
unfolding check_routes route_guards
check_routes-All ns seen [] h = tt
check_routes-All ns seen (r ∷ rs) h =
    let (here, there) = both _ _ h in
    let g = first_error-none (route_guards ns seen r) here in
    (ground (arith, g.1.1.1.0), check_routes-All ns (strip r.name ∷ seen) rs there)

All-left :
    (l m : List (Bool × TopologyError))
    → All (λ g. g.0 ≡ false) (l ++ m)
    → All (λ g. g.0 ≡ false) l × All (λ g. g.0 ≡ false) m
All-left [] m h = (tt, h)
All-left (g ∷ l) m h = let (a, b) = All-left l m h.1 in ((h.0, a), b)

next_guards-All :
    (ns : List String) (name : String) (ds : List String)
    → All (λ g. g.0 ≡ false) (next_guards ns name ds)
    → All (λ d. contains d ns ≡ true) ds
unfolding next_guards
next_guards-All ns name [] h = tt
next_guards-All ns name (d ∷ ds) h = (ground (arith, h.0), next_guards-All ns name ds h.1)

-- What the last loop has checked of a stage: its next stages are stages, and a terminal stage has
-- none and produces nothing.
pub record IsConnected (ns : List String) (s : WorkflowStage) : Type 0 where
  pub next : All (λ d. contains d ns ≡ true) (stripped_all s.allowed_next_stages)
  pub ends_here :
      s.terminal ≡ true → (stripped_all s.allowed_next_stages ≡ []) × (s.produced_actions ≡ [])

empty_of {ℓ} :
    {A : Type ℓ} (l : List A) (b : Bool) → (b && is_nonempty l) ≡ false → b ≡ true → l ≡ []
empty_of [] b h e = refl
empty_of (x ∷ xs) b h e = absurd (ground (arith, h, e))

check_transitions-All :
    (ns : List String) (ss : List WorkflowStage)
    → check_transitions ns ss ≡ none
    → All (IsConnected ns) ss
unfolding check_transitions transition_guards
check_transitions-All ns [] h = tt
check_transitions-All ns (s ∷ ss) h =
    let (here, there) = both _ _ h in
    let g = first_error-none (transition_guards ns s) here in
    let next = stripped_all s.allowed_next_stages in
    let (a, b) = All-left (next_guards ns (strip s.name) next) _ g.1 in
    (
      record {
        next = next_guards-All ns (strip s.name) next a;
        ends_here =
            λ e. (empty_of next s.terminal b.0 e, empty_of s.produced_actions s.terminal b.1.0 e);
      },
      check_transitions-All ns ss there,
    )

-- A workflow whose messages have somewhere to go.
pub record IsWellFormed (t : SharedStatusWorkflowTopology) : Type 0 where
  pub has_stages : t.stages ≢ []
  pub stages_ok : All IsStage t.stages
  pub names_distinct : Distinct (stripped_names t.stages)
  pub queues_distinct : Distinct (stripped_queues t.stages)
  pub targets : All (λ r. contains r.target_stage (stripped_names t.stages) ≡ true) t.entry_routes
  pub connected : All (IsConnected (stripped_names t.stages)) t.stages

well_formed :
    (t : SharedStatusWorkflowTopology) (ss : List WorkflowStage)
    → t.stages ≡ ss
    → post_init t ≡ none
    → IsWellFormed t
unfolding post_init
well_formed t [] e h = absurd (ground (arith, e, h))
well_formed t (s ∷ ss) e h =
    let ns = stripped_names t.stages in
    let k : or_error (check_stages [] [] t.stages)
          (or_error (check_routes ns [] t.entry_routes) (check_transitions ns t.stages))
        ≡ none =
      ground (arith, e, h) in
    let (a, rest) = both _ _ k in
    let (b, c) = both _ _ rest in
    let (oks, dn, dq, _, _) = check_stages-All [] [] t.stages a in
    record {
      has_stages = λ z. cc (e, z);
      stages_ok = oks;
      names_distinct = dn;
      queues_distinct = dq;
      targets = check_routes-All ns [] t.entry_routes b;
      connected = check_transitions-All ns t.stages c;
    }

-- A topology that is constructed is well formed: it has stages, with different stripped names and
-- queues, each with a queue, a binding key and a key to publish under; entry routes and next stages
-- lead to stages; and a terminal stage has no next stages and produces no actions.
pub post_init-IsWellFormed :
    (t : SharedStatusWorkflowTopology) → post_init t ≡ none → IsWellFormed t
unfolding post_init
post_init-IsWellFormed t h = well_formed t t.stages refl h

stage_in-found :
    (ss : List WorkflowStage) (d : String)
    → All (λ s. strip s.name ≡ s.name) ss
    → contains d (stripped_names ss) ≡ true
    → (s : WorkflowStage) × (stage_in ss d ≡ some s)
unfolding stage_in contains stripped_names
stage_in-found [] d a h = cc
stage_in-found (s ∷ ss) d a h = elim (Bool-cases (s.name == d)) [
  | inl e ↦ (s, simp e)
  | inr e ↦ let (k, f) = stage_in-found ss d a.1 (ground (arith, a.0, e, h)) in (k, simp e f)
]

targets_found :
    (t : SharedStatusWorkflowTopology) (rs : List WorkflowEntryRoute)
    → All (λ s. strip s.name ≡ s.name) t.stages
    → All (λ r. contains r.target_stage (stripped_names t.stages) ≡ true) rs
    → All (λ r. (s : WorkflowStage) × (workflow_stage t r.target_stage ≡ some s)) rs
unfolding workflow_stage
targets_found t [] a h = tt
targets_found t (r ∷ rs) a h =
    (stage_in-found t.stages r.target_stage a h.0, targets_found t rs a h.1)

-- Where the stages' names have no spaces around them, the target of every entry route of a
-- constructed topology is found by its name.
pub post_init-targets :
    (t : SharedStatusWorkflowTopology)
    → All (λ s. strip s.name ≡ s.name) t.stages
    → post_init t ≡ none
    → All (λ r. (s : WorkflowStage) × (workflow_stage t r.target_stage ≡ some s)) t.entry_routes
post_init-targets t a h = targets_found t t.entry_routes a (post_init-IsWellFormed t h).targets
