-- ===== src/Studio/Incidents/Resolve/Ends.antt =====
-- Every round visits an incident for the first time, so the loop ends.
use relayna.Studio.Incidents.Resolve.{
  Leads, at_root, seen_again, goes_on, resolve-Leads, resolve-acyclic, root_unique, subst,
}
use relayna.Studio.Incidents.{
  Resolved, Dict, IncidentState, merged_into, resolve_from, resolve, resolved, cycle, out_of_fuel,
}
use relayna.Prelude.{
  ◌≡◌, List, String, [], ℕ, ◌∷◌, ◌≢◌, ◌≤◌, count, arith, length, not, false, ◌<◌, Bool-cases, ◌==◌,
  inl, inr, refl, eq_refl, some, suc, ◌+◌, ◌↔◌, true, Option-cases, ap, sym, eq_iff, ◌∙◌, zero,
}
use relayna.Prelude.Text.{contains}
use relayna.Prelude.Dict.{has, has-eq-get}

-- The incidents that are not visited yet.
abbrev unvisited : List String → Dict IncidentState → ℕ
unvisited visited states = count (λ e. not (contains e.0 visited)) states

unvisited_le :
    (visited : List String) (id : String) (states : Dict IncidentState)
    → unvisited (id ∷ visited) states ≤ unvisited visited states
unfolding contains
unvisited_le visited id [] = omega arith
unvisited_le visited id ((j, s) ∷ d) = ground (arith, unvisited_le visited id d)

visited_head :
    (visited : List String) (id : String) (s : IncidentState) (d : Dict IncidentState)
    → contains id visited ≡ false
    → unvisited (id ∷ visited) ((id, s) ∷ d) < unvisited visited ((id, s) ∷ d)
unfolding contains
visited_head visited id s d n = ground (arith, eq_refl id, n, unvisited_le visited id d)

unvisited_less :
    (visited : List String) (id : String) (states : Dict IncidentState)
    → has id states ≡ true
    → contains id visited ≡ false
    → unvisited (id ∷ visited) states < unvisited visited states
unfolding contains has
unvisited_less visited id [] h n = cc
unvisited_less visited id ((j, s) ∷ d) h n = elim (Bool-cases (j == id)) [
  | inl e ↦
      subst (λ z. unvisited (id ∷ visited) ((z, s) ∷ d) < unvisited visited ((z, s) ∷ d))
        (sym ((eq_iff j id).0 e)) (visited_head visited id s d n)
  | inr e ↦ ground (arith, unvisited_less visited id d (ground (arith, e, h)) n)
]

unvisited_all : (states : Dict IncidentState) → unvisited [] states ≤ length states
unfolding contains
unvisited_all [] = omega arith
unvisited_all (e ∷ d) = ground (arith, unvisited_all d)

module _ (states : Dict IncidentState) where
  merged-has : (id target : String) → merged_into states id ≡ some target → has id states ≡ true
  unfolding merged_into
  merged-has id target e = ground (arith, has-eq-get id states, e)

  resolve_from-ends :
      (fuel : ℕ) (visited : List String) (id : String)
      → unvisited visited states < fuel
      → resolve_from states fuel visited id ≢ out_of_fuel
  resolve_from-ends zero visited id h e = omega arith
  resolve_from-ends (suc fuel) visited id h e = elim (Option-cases (merged_into states id)) [
    | inl root ↦ cc (e, at_root states fuel visited id root)
    | inr (b, m) ↦ elim (Bool-cases (contains id visited)) [
      | inl old ↦ cc (e, seen_again states fuel visited id b m old)
      | inr new ↦
          let less = unvisited_less visited id states (merged-has id b m) new in
          resolve_from-ends fuel (id ∷ visited) b (omega arith)
            (sym (goes_on states fuel visited id b m new) ∙ e)
    ]
  ]

  found :
      (id r : String) (n : ℕ) (o : Resolved)
      → Leads states n id r
      → resolve states id ≡ o
      → o ≢ cycle
      → o ≢ out_of_fuel
      → o ≡ resolved r
  unfolding resolve
  found id r n (resolved q) l h c f =
      let (m, k) = resolve-Leads states (length states + 1) [] id q h in
      ap resolved (root_unique states k l)
  found id r n cycle l h c f = absurd (c refl)
  found id r n out_of_fuel l h c f = absurd (f refl)

  -- The loop ends for every table of incidents, also one with a cycle of merges, and it returns an
  -- incident exactly when the merges lead there and stop.
  pub resolve-merges :
      (id : String)
      → (resolve states id ≢ out_of_fuel)
        × ((r : String) → (resolve states id ≡ resolved r) ↔ ((n : ℕ) × Leads states n id r))
  unfolding resolve contains
  resolve-merges id =
      let ends =
        resolve_from-ends (length states + 1) [] id (omega (arith, unvisited_all states)) in
      (
        ends,
        λ r. (
          λ h. resolve-Leads states (length states + 1) [] id r h,
          λ (n, l).
              found id r n (resolve states id) l refl
                (resolve-acyclic states (length states + 1) [] id n r l (λ v h. cc)) ends,
        ),
      )
