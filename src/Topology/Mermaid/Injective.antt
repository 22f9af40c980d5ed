-- ===== src/Topology/Mermaid/Injective.antt =====
-- The node ids of different names are different.
use Prim.Native.String.{◌++◌}
use relayna.Prelude.{
  ◌≡◌, ◌∷◌, some, String, List, true, false, ◌⊎◌, inl, Bool-cases, sym, ◌==◌, ◌∙◌, eq_iff, inr,
  some-eq, arith, ℕ, All, [], eq_refl, refl,
}
use relayna.Prelude.Dict.{Dict, get, put, get-put, has, has-put}
use relayna.Prelude.Text.{contains}
use relayna.Topology.Mermaid.{
  sanitize_mermaid_identifier, build_from, build_mermaid_node_ids, add_id,
}
use relayna.Topology.Mermaid.Free.{free_id-some}

-- No two names have one id, and every id is in use.
pub record IsInjective (ids : Dict String) (used : List String) : Type 0 where
  pub injective : (a b id : String) → get a ids ≡ some id → get b ids ≡ some id → a ≡ b
  pub in_use : (a id : String) → get a ids ≡ some id → contains id used ≡ true

module _ (ids : Dict String) (used : List String) (name c : String) where
  -- What an id of the table with one more entry is.
  one_more :
      (a id : String)
      → get a (put name c ids) ≡ some id
      → ((name ≡ a) × (c ≡ id)) ⊎ (get a ids ≡ some id)
  one_more a id h = elim (Bool-cases (name == a)) [
    | inl e ↦ inl ((eq_iff name a).0 e, some-eq (ground (arith, get-put name a c ids, e, h)))
    | inr e ↦ inr (ground (arith, get-put name a c ids, e, h))
  ]

  put-IsInjective :
      contains c used ≡ false → IsInjective ids used → IsInjective (put name c ids) (c ∷ used)
  unfolding contains
  put-IsInjective new v = record {
    injective = λ a b id ha hb. elim (one_more a id ha) [
      | inl (p, q) ↦ elim (one_more b id hb) [
        | inl (r, s) ↦ sym p ∙ r
        | inr g ↦ absurd (cc (v.in_use b id g, q, new))
      ]
      | inr f ↦ elim (one_more b id hb) [
        | inl (r, s) ↦ absurd (cc (v.in_use a id f, s, new))
        | inr g ↦ v.injective a b id f g
      ]
    ];
    in_use = λ a id h. elim (one_more a id h) [
      | inl (p, q) ↦ ground (arith, (eq_iff c id).1 q)
      | inr f ↦ ground (arith, v.in_use a id f)
    ];
  }

module _ (str : ℕ → String) (str_injective : (n m : ℕ) → str n ≡ str m → n ≡ m)
    (prefix : String) where
  base_of : String → String
  base_of name = prefix ++ "_" ++ sanitize_mermaid_identifier name

  -- The loop ends with a table that has all names and is injective.
  abbrev IsBuilt : List String → Dict String → Dict String → Type 0
  IsBuilt names ids out =
      ((a b id : String) → get a out ≡ some id → get b out ≡ some id → a ≡ b)
      × All (λ n. has n out ≡ true) names
      × ((a : String) → has a ids ≡ true → has a out ≡ true)

  build_from-IsBuilt :
      (names used : List String) (ids : Dict String)
      → IsInjective ids used
      → (out : Dict String) × (build_from str prefix names used ids ≡ some out)
        × IsBuilt names ids out
  unfolding build_from add_id base_of
  build_from-IsBuilt [] used ids v = (ids, refl, (v.injective, tt, λ a h. h))
  build_from-IsBuilt (name ∷ names) used ids v =
      let (c, f, new) = free_id-some str str_injective (base_of name) used in
      let (out, b, (inj, all_there, stays)) =
        build_from-IsBuilt names (c ∷ used) (put name c ids)
          (put-IsInjective ids used name c new v) in
      (
        out,
        rw f b,
        (
          inj,
          (stays name (ground (arith, has-put name name c ids, eq_refl name)), all_there),
          λ a h. stays a (ground (arith, has-put name a c ids, h)),
        ),
      )

  -- The node ids of a graph are always built, every name has one, and different names have different
  -- ids, whatever characters the names have, provided that `str` writes different numbers differently.
  pub build_mermaid_node_ids-injective :
      (names : List String)
      → (out : Dict String) × (build_mermaid_node_ids str prefix names ≡ some out)
        × ((a b id : String) → get a out ≡ some id → get b out ≡ some id → a ≡ b)
        × All (λ n. has n out ≡ true) names
  unfolding build_mermaid_node_ids get
  build_mermaid_node_ids-injective names =
      let (out, b, (inj, there, _)) =
        build_from-IsBuilt names [] []
          (record { injective = λ a b id ha hb. cc; in_use = λ a id h. cc }) in
      (out, b, inj, there)
