-- ===== src/Topology/Binding.antt =====
-- Topic bindings: `_matches_parts` of src/relayna/topology/workflow_graph.py and
-- `_topic_binding_matches` of src/relayna/consumer/context.py. An index into the parts is the rest
-- of the list from there.
pub mod Words
use relayna.Prelude.{String, Bool, true, false, ◌||◌, List, [], ◌∷◌, ◌==◌, if◌then◌else◌}
use relayna.Prelude.Text.{split_dots}

abbrev pub is_empty : List String → Bool
is_empty [] = true
is_empty (x ∷ xs) = false

-- `any(f(next_routing) for next_routing in range(routing_index, len(routing_parts) + 1))`
unfoldable pub any_rest : (List String → Bool) → List String → Bool
any_rest f [] = f []
any_rest f (r ∷ rs) = f (r ∷ rs) || any_rest f rs

-- The graph's matcher: a loop, and recursion at a `#`.
unfoldable pub matches_parts : List String → List String → Bool
unfolding any_rest
matches_parts [] rs = is_empty rs
matches_parts (token ∷ bs) [] =
    if token == "#" then (if is_empty bs then true else any_rest (matches_parts bs) []) else false
matches_parts (token ∷ bs) (r ∷ rs) =
    if token == "#"
    then (if is_empty bs then true else any_rest (matches_parts bs) (r ∷ rs))
    else if token == "*" || token == r
    then matches_parts bs rs
    else false

unfoldable pub graph_binding_matches : String → String → Bool
graph_binding_matches binding_key routing_key =
    matches_parts (split_dots binding_key) (split_dots routing_key)

-- The consumer's matcher, without its cache.
unfoldable pub matches : List String → List String → Bool
matches [] rs = is_empty rs
matches (token ∷ bs) [] = if token == "#" then matches bs [] else false
matches (token ∷ bs) (r ∷ rs) =
    if token == "#"
    then (matches bs (r ∷ rs) || matches (token ∷ bs) rs)
    else if token == "*" || token == r
    then matches bs rs
    else false

unfoldable pub topic_binding_matches : String → String → Bool
topic_binding_matches binding_key routing_key =
    matches (split_dots binding_key) (split_dots routing_key)
