-- ===== src/Topology/Binding/Words.antt =====
-- Both matchers decide AMQP's rule for topic bindings, and so agree.
use mathlib.Core.Path.{subst}
use relayna.Topology.Binding.{
  matches, matches_parts, any_rest, is_empty, topic_binding_matches, graph_binding_matches,
  split_dots,
}
use relayna.Prelude.{
  ◌≡◌, String, List, [], ◌∷◌, Bool, true, false, refl, ◌==◌, ap, ap₂, if◌then◌else◌, Bool-cases,
  ◌||◌, sym, inl, ◌∙◌, eq_iff, ◌⊎◌, eq_refl, ◌↔◌, inr, arith,
}

-- A binding's words against a routing key's: `*` is one word, `#` any number of words.
pub data Covers : List String → List String → Type 0 where
  done : Covers [] []
  star : {r : String} {bs rs : List String} → Covers bs rs → Covers ("*" ∷ bs) (r ∷ rs)
  word :
      {r : String} {bs rs : List String}
      → (r == "#") ≡ false
      → Covers bs rs
      → Covers (r ∷ bs) (r ∷ rs)
  no_word : {bs rs : List String} → Covers bs rs → Covers ("#" ∷ bs) rs
  one_more : {r : String} {bs rs : List String} → Covers ("#" ∷ bs) rs → Covers ("#" ∷ bs) (r ∷ rs)

-- A `#` at the end covers everything.
matches-hash : (rs : List String) → matches ("#" ∷ []) rs ≡ true
unfolding matches
matches-hash [] = refl
matches-hash (r ∷ rs) = matches-hash rs

-- What a `#` covers, tried one word at a time or all at once.
any_rest-matches : (bs rs : List String) → any_rest (matches bs) rs ≡ matches ("#" ∷ bs) rs
unfolding matches any_rest
any_rest-matches bs [] = refl
any_rest-matches bs (r ∷ rs) = ap (λ b. matches bs (r ∷ rs) || b) (any_rest-matches bs rs)

any_rest-ext :
    (f g : List String → Bool)
    → ((rs : List String) → f rs ≡ g rs)
    → (rs : List String) → any_rest f rs ≡ any_rest g rs
unfolding any_rest
any_rest-ext f g h [] = h []
any_rest-ext f g h (r ∷ rs) = ap₂ (λ a b. a || b) (h (r ∷ rs)) (any_rest-ext f g h rs)

-- The graph's shortcut for a last `#`, and its search for another one.
hash_parts :
    (bs rs : List String)
    → ((ws : List String) → matches_parts bs ws ≡ matches bs ws)
    → (if is_empty bs then true else any_rest (matches_parts bs) rs) ≡ matches ("#" ∷ bs) rs
hash_parts [] rs h = sym (matches-hash rs)
hash_parts (b ∷ bs) rs h =
    any_rest-ext (matches_parts (b ∷ bs)) (matches (b ∷ bs)) h rs ∙ any_rest-matches (b ∷ bs) rs

matches-eq : (bs rs : List String) → matches_parts bs rs ≡ matches bs rs
unfolding matches_parts matches
matches-eq [] rs = refl
matches-eq (t ∷ bs) [] = elim (Bool-cases (t == "#")) [
  | inl e ↦
      subst (λ z. matches_parts (z ∷ bs) [] ≡ matches (z ∷ bs) []) (sym ((eq_iff t "#").0 e))
        (hash_parts bs [] (matches-eq bs))
  | inr e ↦ simp e
]
matches-eq (t ∷ bs) (r ∷ rs) = elim (Bool-cases (t == "#")) [
  | inl e ↦
      subst (λ z. matches_parts (z ∷ bs) (r ∷ rs) ≡ matches (z ∷ bs) (r ∷ rs))
        (sym ((eq_iff t "#").0 e)) (hash_parts bs (r ∷ rs) (matches-eq bs))
  | inr e ↦ simp (e, matches-eq bs rs)
]

or_true : (a b : Bool) → (a || b) ≡ true → (a ≡ true) ⊎ (b ≡ true)
or_true true b h = inl refl
or_true false b h = inr h

matches-Covers : (bs rs : List String) → matches bs rs ≡ true → Covers bs rs
unfolding matches
matches-Covers [] [] h = done
matches-Covers [] (r ∷ rs) h = cc
matches-Covers (t ∷ bs) [] h = elim (Bool-cases (t == "#")) [
  | inl e ↦
      subst (λ z. Covers (z ∷ bs) []) (sym ((eq_iff t "#").0 e))
        (no_word (matches-Covers bs [] (ground (arith, e, h))))
  | inr e ↦ absurd (ground (arith, e, h))
]
matches-Covers (t ∷ bs) (r ∷ rs) h = elim (Bool-cases (t == "#")) [
  | inl e ↦ elim (or_true (matches bs (r ∷ rs)) (matches (t ∷ bs) rs) (ground (arith, e, h))) [
    | inl g ↦
        subst (λ z. Covers (z ∷ bs) (r ∷ rs)) (sym ((eq_iff t "#").0 e))
          (no_word (matches-Covers bs (r ∷ rs) g))
    | inr g ↦
        subst (λ z. Covers (z ∷ bs) (r ∷ rs)) (sym ((eq_iff t "#").0 e))
          (one_more
            (subst (λ z. Covers (z ∷ bs) rs) ((eq_iff t "#").0 e) (matches-Covers (t ∷ bs) rs g)))
  ]
  | inr e ↦ elim (or_true (t == "*") (t == r) (ground (arith, e, h))) [
    | inl w ↦
        subst (λ z. Covers (z ∷ bs) (r ∷ rs)) (sym ((eq_iff t "*").0 w))
          (star (matches-Covers bs rs (ground (arith, e, h))))
    | inr w ↦
        subst (λ z. Covers (t ∷ bs) (z ∷ rs)) ((eq_iff t r).0 w)
          (word e (matches-Covers bs rs (ground (arith, e, h))))
  ]
]

or_right : (a : Bool) → (a || true) ≡ true
or_right true = refl
or_right false = refl

Covers-matches : {bs rs : List String} → Covers bs rs → matches bs rs ≡ true
unfolding matches
Covers-matches done = refl
Covers-matches (star c) = Covers-matches c
Covers-matches (word {r = r} e c) = simp (e, eq_refl r, or_right, Covers-matches c)
Covers-matches (no_word {rs = []} c) = Covers-matches c
Covers-matches (no_word {rs = r ∷ rs} c) = simp (Covers-matches c)
Covers-matches (one_more c) = simp (Covers-matches c, or_right)

-- The matcher of the consumer and the one of the exported graph give the same answer for every
-- binding key and routing key, and it is yes exactly when the binding's words cover the key's by
-- the rule of topic exchanges.
pub topic_binding_matches-eq :
    (binding routing : String)
    → (topic_binding_matches binding routing ≡ graph_binding_matches binding routing)
      × ((topic_binding_matches binding routing ≡ true)
          ↔ Covers (split_dots binding) (split_dots routing))
unfolding topic_binding_matches graph_binding_matches
topic_binding_matches-eq binding routing = (
  sym (matches-eq (split_dots binding) (split_dots routing)),
  (matches-Covers (split_dots binding) (split_dots routing), λ c. Covers-matches c),
)
