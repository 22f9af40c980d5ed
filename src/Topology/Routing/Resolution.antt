-- ===== src/Topology/Routing/Resolution.antt =====
-- What `_resolve_workflow_stage_for_routing_key` finds.
use mathlib.Core.Path.{subst}
use relayna.Topology.Binding.{graph_binding_matches, topic_binding_matches}
use relayna.Topology.Routing.{
  find_name, publishes, resolve_workflow_stage, consumes, SharedStatusWorkflowTopology,
  workflow_stage_names, entry_target, or_name, workflow_binding_keys, any_binding, receives,
  topic_binding_matches, graph_binding_matches,
}
use relayna.Prelude.Text.{contains}
use relayna.Prelude.{
  ◌≡◌, String, Bool, List, some, none, true, All, ◌∷◌, false, Bool-cases, inl, arith, inr, [],
  some-eq, sym, ◌∙◌, ◌==◌, Option, eq_iff, refl, ap₂, ◌||◌,
}
use relayna.Topology.Binding.Words.{topic_binding_matches-eq}

-- A loop that returns a name has tested it, and one that returns none has refused every name.
find_name-some :
    (p : String → Bool) (ns : List String) (n : String) → find_name p ns ≡ some n → p n ≡ true
unfolding find_name
find_name-some p [] n h = cc
find_name-some p (m ∷ ns) n h = elim (Bool-cases (p m)) [
  | inl e ↦ subst (λ z. p z ≡ true) (some-eq (sym (simp e) ∙ h)) e
  | inr e ↦ find_name-some p ns n (ground (arith, e, h))
]

find_name-none :
    (p : String → Bool) (ns : List String) → find_name p ns ≡ none → All (λ n. p n ≡ false) ns
unfolding find_name
find_name-none p [] h = tt
find_name-none p (m ∷ ns) h = elim (Bool-cases (p m)) [
  | inl e ↦ absurd (ground (arith, e, h))
  | inr e ↦ (e, find_name-none p ns (ground (arith, e, h)))
]

-- A name of the list that passes is found, or one before it.
find_name-contains :
    (p : String → Bool) (ns : List String) (n : String)
    → contains n ns ≡ true
    → p n ≡ true
    → (m : String) × (find_name p ns ≡ some m)
unfolding find_name contains
find_name-contains p [] n c h = cc
find_name-contains p (m ∷ ns) n c h = elim (Bool-cases (p m)) [
  | inl e ↦ (m, simp e)
  | inr e ↦ elim (Bool-cases (m == n)) [
    | inl q ↦ absurd (cc (h, e, (eq_iff m n).0 q))
    | inr q ↦ let (k, f) = find_name-contains p ns n (ground (arith, q, c)) h in (k, simp e f)
  ]
]

none_of :
    (a b c d : Option String) → or_name a (or_name b (or_name c d)) ≡ none → (c ≡ none) × (d ≡ none)
none_of none none none d h = (refl, h)
none_of (some n) b c d h = cc
none_of none (some n) c d h = cc
none_of none none (some n) d h = cc

module _ (t : SharedStatusWorkflowTopology) (key : String) where
  -- A routing key under which some stage publishes resolves to a stage that publishes under it.
  pub resolve-publishes :
      (name : String)
      → contains name (workflow_stage_names t) ≡ true
      → publishes t key name ≡ true
      → (m : String) × (resolve_workflow_stage t key ≡ some m) × (publishes t key m ≡ true)
  unfolding resolve_workflow_stage
  resolve-publishes name c h =
      let (m, f) = find_name-contains (publishes t key) (workflow_stage_names t) name c h in
      (m, simp f, find_name-some (publishes t key) (workflow_stage_names t) m f)

  -- A key that does not resolve is covered by no binding of a stage and is no entry route's.
  pub resolve-none :
      resolve_workflow_stage t key ≡ none
      → All (λ name. consumes t key name ≡ false) (workflow_stage_names t)
        × (entry_target key t.entry_routes ≡ none)
  unfolding resolve_workflow_stage
  resolve-none h =
      let stages = workflow_stage_names t in
      let (route, none_consumes) =
        none_of (find_name (publishes t key) stages)
          (find_name (λ name. contains key (workflow_binding_keys t name)) stages)
          (entry_target key t.entry_routes) (find_name (consumes t key) stages) h in
      (find_name-none (consumes t key) stages none_consumes, route)

any_binding-eq :
    (key : String) (bs : List String)
    → any_binding topic_binding_matches key bs ≡ any_binding graph_binding_matches key bs
unfolding any_binding
any_binding-eq key [] = refl
any_binding-eq key (b ∷ bs) =
    ap₂ (λ x y. x || y) (topic_binding_matches-eq b key).0 (any_binding-eq key bs)

-- The last loop of the consumer's search, over the binding keys, and the exported graph agree on which
-- stages get a routing key.
pub consumes-receives :
    (t : SharedStatusWorkflowTopology) (key name : String)
    → consumes t key name ≡ receives t key name
unfolding consumes receives
consumes-receives t key name = any_binding-eq key (workflow_binding_keys t name)
