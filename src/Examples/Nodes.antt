-- ===== src/Examples/Nodes.antt =====
-- Node ids of a graph, at concrete inputs, with numbers written as tallies.
use text.Mathlib.TextLemmas.{append_cancel_left, append-eq-nil_iff}
use Prim.Native.String.{◌++◌}
use relayna.Prelude.{◌≡◌, ◌∷◌, ℕ, ◌≢◌, List, String, suc, [], some, zero, sym, All, ap, true, refl}
use relayna.Topology.Mermaid.{
  build_mermaid_node_ids, free_id, find_free, numbered, sanitize_mermaid_identifier, substitute,
  lstrip_underscores, rstrip_underscores,
}
use relayna.Prelude.Dict.{Dict, get, has, put}
use relayna.Topology.Mermaid.Injective.{build_mermaid_node_ids-injective}
use relayna.Prelude.Text.{contains}

abbrev tally : ℕ → String
tally zero = ""
tally (suc n) = "1" ++ tally n

one_mark : ◌≢◌ {A = String} "1" ""
one_mark e = cc

tally-injective : (n m : ℕ) → tally n ≡ tally m → n ≡ m
tally-injective zero zero e = refl
tally-injective zero (suc m) e =
    absurd (one_mark ((append-eq-nil_iff {p = "1"} {q = tally m}).0 (sym e)).0)
tally-injective (suc n) zero e =
    absurd (one_mark ((append-eq-nil_iff {p = "1"} {q = tally n}).0 e).0)
tally-injective (suc n) (suc m) e =
    ap suc (tally-injective n m (append_cancel_left "1" (tally n) (tally m) e))

-- The first two names differ only in a character that the ids do not have.
abbrev names : List String
names = "a b" ∷ "a-b" ∷ "c" ∷ []

module _ where
  three_ids :
      build_mermaid_node_ids tally "stage" names
      ≡ some (("a b", "stage_a_b") ∷ ("a-b", "stage_a_b_11") ∷ ("c", "stage_c") ∷ [])
  unfolding build_mermaid_node_ids free_id find_free numbered sanitize_mermaid_identifier substitute
      lstrip_underscores rstrip_underscores contains put
  three_ids = refl

build_mermaid_node_ids-injective_example :
    (out : Dict String) × (build_mermaid_node_ids tally "stage" names ≡ some out)
    × ((a b id : String) → get a out ≡ some id → get b out ≡ some id → a ≡ b)
    × All (λ n. has n out ≡ true) names
build_mermaid_node_ids-injective_example =
    build_mermaid_node_ids-injective tally tally-injective "stage" names
