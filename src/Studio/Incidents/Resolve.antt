-- ===== src/Studio/Incidents/Resolve.antt =====
-- `_resolve` follows merges to the incident that is not merged, and always ends.
pub mod Ends
use relayna.Studio.Incidents.{
  Dict, IncidentState, ℕ, String, merged_into, resolve_from, resolved, cycle,
}
use mathlib.Core.Path.{subst}
use relayna.Prelude.{
  ◌≡◌, none, some, suc, refl, ap, List, zero, Option-cases, true, false, inl, ◌∷◌, some-eq, arith,
  sym, ◌∙◌, inr, Bool-cases, ◌<◌, ◌==◌, ◌≢◌, eq_iff,
}
use relayna.Prelude.Text.{contains}

module _ (states : Dict IncidentState) where
  -- `id` is merged, in `n` steps, into `root`, which is not merged.
  pub data Leads : ℕ → String → String → Type 0 where
    at : {r : String} → merged_into states r ≡ none → Leads 0 r r
    up : {n : ℕ} {a b r : String} → merged_into states a ≡ some b → Leads n b r → Leads (suc n) a r

  steps_unique : {n m : ℕ} {a r q : String} → Leads n a r → Leads m a q → n ≡ m
  steps_unique (at p) (at q) = refl
  steps_unique (at p) (up q l) = cc
  steps_unique (up p k) (at q) = cc
  steps_unique {m = suc m} {q = q} (up {b = b} p k) (up {b = b'} e l) =
      ap suc (steps_unique k (subst (λ z. Leads m z q) (some-eq (sym e ∙ p)) l))

  -- The three ways of a round.
  module _ (fuel : ℕ) (visited : List String) (id : String) where
    pub at_root :
        merged_into states id ≡ none → resolve_from states (suc fuel) visited id ≡ resolved id
    unfolding resolve_from
    at_root e = ground (arith, e)

    pub seen_again :
        (b : String)
        → merged_into states id ≡ some b
        → contains id visited ≡ true
        → resolve_from states (suc fuel) visited id ≡ cycle
    unfolding resolve_from
    seen_again b e c = ground (arith, e, c)

    pub goes_on :
        (b : String)
        → merged_into states id ≡ some b
        → contains id visited ≡ false
        → resolve_from states (suc fuel) visited id ≡ resolve_from states fuel (id ∷ visited) b
    unfolding resolve_from
    goes_on b e c = ground (arith, e, c)

  resolved-injective : (a b : String) → resolved a ≡ resolved b → a ≡ b
  resolved-injective a b e = cc

  -- A run that ends has followed the merges.
  pub resolve-Leads :
      (fuel : ℕ) (visited : List String) (id r : String)
      → resolve_from states fuel visited id ≡ resolved r
      → (n : ℕ) × Leads n id r
  unfolding resolve_from
  resolve-Leads zero visited id r h = cc
  resolve-Leads (suc fuel) visited id r h = elim (Option-cases (merged_into states id)) [
    | inl root ↦ (
      0,
      subst (Leads 0 id) (resolved-injective id r (sym (at_root fuel visited id root) ∙ h))
          (at root),
    )
    | inr (b, e) ↦ elim (Bool-cases (contains id visited)) [
      | inl old ↦ cc (h, seen_again fuel visited id b e old)
      | inr new ↦
          let (n, l) =
            resolve-Leads fuel (id ∷ visited) b r (sym (goes_on fuel visited id b e new) ∙ h) in
          (suc n, up e l)
    ]
  ]

  pub root_unique : {n m : ℕ} {a r q : String} → Leads n a r → Leads m a q → r ≡ q
  root_unique (at p) (at q) = refl
  root_unique (at p) (up q l) = cc
  root_unique (up p k) (at q) = cc
  root_unique {m = suc m} {q = q} (up {b = b} p k) (up {b = b'} e l) =
      root_unique k (subst (λ z. Leads m z q) (some-eq (sym e ∙ p)) l)

  still_above :
      (visited : List String) (id : String) (n : ℕ) (r : String)
      → Leads (suc n) id r
      → ((v : String) → contains v visited ≡ true → (m : ℕ) × (suc n < m) × Leads m v r)
      → (v : String) → contains v (id ∷ visited) ≡ true
      → (m : ℕ) × (n < m) × Leads m v r
  unfolding contains
  still_above visited id n r l above v h = elim (Bool-cases (id == v)) [
    | inl e ↦ (suc n, omega arith, subst (λ z. Leads (suc n) z r) ((eq_iff id v).0 e) l)
    | inr e ↦ let (m, lt, k) = above v (ground (arith, e, h)) in (m, omega arith, k)
  ]

  -- Along a path to a root no incident comes twice.
  pub resolve-acyclic :
      (fuel : ℕ) (visited : List String) (id : String) (n : ℕ) (r : String)
      → Leads n id r
      → ((v : String) → contains v visited ≡ true → (m : ℕ) × (n < m) × Leads m v r)
      → resolve_from states fuel visited id ≢ cycle
  unfolding resolve_from
  resolve-acyclic zero visited id n r l above h = cc
  resolve-acyclic (suc fuel) visited id n r (at p) above h = cc (h, at_root fuel visited id p)
  resolve-acyclic (suc fuel) visited id n r (up {n = n'} {b = b} e k) above h =
      elim (Bool-cases (contains id visited)) [
        | inl old ↦
            let (m, lt, l) = above id old in
            let eq = steps_unique (up e k) l in absurd (omega arith)
        | inr new ↦
            resolve-acyclic fuel (id ∷ visited) b n' r k
              (still_above visited id n' r (up e k) above)
              (sym (goes_on fuel visited id b e new) ∙ h)
      ]
