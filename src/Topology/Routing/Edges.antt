-- ===== src/Topology/Routing/Edges.antt =====
-- The edges of the exported graph.
use relayna.Topology.Routing.{
  Edge, edges_from, edges_of, export_edges, receives, SharedStatusWorkflowTopology, edges_at,
  workflow_publish_routing_key, workflow_stage_names,
}
use mathlib.Core.Path.{subst}
use relayna.Prelude.Text.{contains}
use relayna.Prelude.{
  ◌≡◌, String, List, Bool, ◌++◌, false, ◌||◌, ◌∷◌, ◌==◌, arith, ◌&&◌, [], refl, eq_iff, Option,
  some, none, Bool-cases, ◌∙◌, inl, ap₂, sym, inr,
}

-- Is there an edge between the two stages?
unfoldable pub links : String → String → List Edge → Bool
links a b [] = false
links a b (e ∷ es) = ((e.source == a) && (e.target == b)) || links a b es

links-append :
    (a b : String) (es fs : List Edge) → links a b (es ++ fs) ≡ (links a b es || links a b fs)
unfolding links
links-append a b [] fs = refl
links-append a b (e ∷ es) fs = ground (arith, links-append a b es fs)

links-from :
    (t : SharedStatusWorkflowTopology) (a b s key : String) (ds : List String)
    → links a b (edges_from t s key ds) ≡ ((s == a) && (contains b ds && receives t key b))
unfolding links edges_from contains
links-from t a b s key [] = ground arith
links-from t a b s key (d ∷ ds) = grind (arith, links-from t a b s key ds, eq_iff d b)

-- The last word on an edge: both stages are there, and a binding of the target covers the key that
-- the source publishes under.
unfoldable pub is_linked : SharedStatusWorkflowTopology → String → Option String → Bool
is_linked t b none = false
is_linked t b (some key) = contains b (workflow_stage_names t) && receives t key b

links-at :
    (t : SharedStatusWorkflowTopology) (a b s : String) (o : Option String)
    → links a b (edges_at t s o) ≡ ((s == a) && is_linked t b o)
unfolding links edges_at is_linked
links-at t a b s none = ground arith
links-at t a b s (some key) = links-from t a b s key (workflow_stage_names t)

unlinked : (a b : String) → links a b [] ≡ false
unfolding links
unlinked a b = refl

-- Two stages of one name publish under one key: the lookup is by name.
same_key :
    (t : SharedStatusWorkflowTopology) (a b s : String) (rest : Bool)
    → (((s == a) && is_linked t b (workflow_publish_routing_key t s))
        || (rest && is_linked t b (workflow_publish_routing_key t a)))
      ≡ ((s == a || rest) && is_linked t b (workflow_publish_routing_key t a))
same_key t a b s rest = elim (Bool-cases (s == a)) [
  | inl e ↦
      subst
        (λ z.
          (((s == a) && is_linked t b (workflow_publish_routing_key t z))
            || (rest && is_linked t b (workflow_publish_routing_key t a)))
          ≡ ((s == a || rest) && is_linked t b (workflow_publish_routing_key t a)))
        (sym ((eq_iff s a).0 e)) (ground (arith, e))
  | inr e ↦ simp e
]

links-of :
    (t : SharedStatusWorkflowTopology) (a b : String) (ss : List String)
    → links a b (edges_of t ss)
      ≡ (contains a ss && is_linked t b (workflow_publish_routing_key t a))
unfolding edges_of contains
links-of t a b [] = unlinked a b
links-of t a b (s ∷ ss) =
    links-append a b (edges_at t s (workflow_publish_routing_key t s)) (edges_of t ss)
    ∙ ap₂ (λ x y. x || y) (links-at t a b s (workflow_publish_routing_key t s)) (links-of t a b ss)
    ∙ same_key t a b s (contains a ss)

-- The exported graph has an edge between two names exactly when both are stages and a binding of
-- the target matches the key that the source publishes under.
pub export_edges-links :
    (t : SharedStatusWorkflowTopology) (a b : String)
    → links a b (export_edges t)
      ≡ (contains a (workflow_stage_names t) && is_linked t b (workflow_publish_routing_key t a))
unfolding export_edges
export_edges-links t a b = links-of t a b (workflow_stage_names t)
