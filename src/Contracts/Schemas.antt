-- ===== src/Contracts/Schemas.antt =====
-- src/relayna/contracts/schemas.py: declared payloads of workflow actions.
pub mod Valid
use relayna.Prelude.{String, not, ◌&&◌, Option, none, some, List, [], ◌∷◌, ◌++◌, keep}
use relayna.Prelude.Dict.{Dict, has, keys}
use relayna.Prelude.Text.{contains}
use relayna.Json.{Json}

pub record PayloadSchema : Type 0 where
  pub required_fields : List String
  pub optional_fields : List String

pub record ActionSchema : Type 0 where
  pub action : String
  pub payload : Option PayloadSchema

-- An entry of `errors`, with the fields that its text names.
pub data PayloadError : Type 0 where
  missing_fields unknown_fields : List String → PayloadError

unfoldable pub missing : PayloadSchema → Dict Json → List String
missing schema payload = keep (λ name. not (has name payload)) schema.required_fields

-- The source sorts this list; the order of names in a message is not modelled.
unfoldable pub unknown : PayloadSchema → Dict Json → List String
unknown schema payload =
    keep
      (λ name.
        not (contains name schema.required_fields) && not (contains name schema.optional_fields))
      (keys payload)

abbrev report : (List String → PayloadError) → List String → List PayloadError
report kind [] = []
report kind (name ∷ names) = kind (name ∷ names) ∷ []

unfoldable pub validate_payload : PayloadSchema → Dict Json → List PayloadError
validate_payload schema payload =
    report missing_fields (missing schema payload) ++ report unknown_fields (unknown schema payload)

unfoldable pub validate_action : ActionSchema → Dict Json → List PayloadError
validate_action a payload = elim a.payload [
  | none ↦ []
  | some schema ↦ validate_payload schema payload
]
