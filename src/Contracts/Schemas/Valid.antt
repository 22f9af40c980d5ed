-- ===== src/Contracts/Schemas/Valid.antt =====
-- What a payload schema accepts.
use relayna.Prelude.{
  ◌≡◌, String, Bool, List, keep, [], ◌↔◌, All, false, ◌∷◌, Bool-cases, inl, arith, inr, refl, ◌++◌,
  true, ◌||◌, not, ◌&&◌,
}
use relayna.Contracts.Schemas.{
  PayloadError, validate_payload, report, missing, unknown, PayloadSchema, Json, missing_fields,
  unknown_fields,
}
use relayna.Prelude.Dict.{Dict, has, keys}
use relayna.Prelude.Text.{contains}

module _ (p q : String → Bool) (opposite : (x : String) → p x ≡ not (q x)) where
  keep-none : (xs : List String) → (keep p xs ≡ []) ↔ All (λ x. q x ≡ true) xs
  keep-none [] = (λ h. tt, λ h. refl)
  keep-none (x ∷ xs) = (
    λ h. elim (Bool-cases (q x)) [
      | inl e ↦ (e, (keep-none xs).0 (ground (arith, e, opposite x, h)))
      | inr e ↦ absurd (ground (arith, e, opposite x, h))
    ],
    λ h. ground (arith, opposite x, h.0, (keep-none xs).1 h.1),
  )

nothing_reported :
    (kind other : List String → PayloadError) (xs ys : List String)
    → (report kind xs ++ report other ys ≡ []) ↔ ((xs ≡ []) × (ys ≡ []))
nothing_reported kind other [] [] = (λ h. (refl, refl), λ h. refl)
nothing_reported kind other [] (y ∷ ys) = (λ h. cc, λ h. cc (h.1))
nothing_reported kind other (x ∷ xs) ys = (λ h. cc, λ h. cc (h.0))

negated : (a b : Bool) → (not a && not b) ≡ not (a || b)
negated true b = refl
negated false b = refl

-- A payload has no errors exactly when it has every required field and no field that the schema does
-- not name.
pub validate_payload-valid :
    (schema : PayloadSchema) (body : Dict Json)
    → (validate_payload schema body ≡ []) ↔ (
        All (λ name. has name body ≡ true) schema.required_fields
        × All
            (λ name.
              (contains name schema.required_fields || contains name schema.optional_fields) ≡ true)
            (keys body))
unfolding validate_payload missing unknown
validate_payload-valid schema body =
    let r =
      nothing_reported missing_fields unknown_fields (missing schema body) (unknown schema body) in
    let m =
      keep-none (λ name. not (has name body)) (λ name. has name body) (λ x. refl)
        schema.required_fields in
    let u =
      keep-none
        (λ name.
          not (contains name schema.required_fields) && not (contains name schema.optional_fields))
        (λ name. contains name schema.required_fields || contains name schema.optional_fields)
        (λ x. negated (contains x schema.required_fields) (contains x schema.optional_fields))
        (keys body) in
    (λ h. let (a, b) = r.0 h in (m.0 a, u.0 b), λ (a, b). r.1 (m.1 a, u.1 b))
