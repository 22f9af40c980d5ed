-- ===== src/Contracts/Aliases.antt =====
-- src/relayna/contracts/aliases.py: canonical and configured field names.
pub mod Normal
use relayna.Prelude.{String, Bool, true, false, Option, none, some, [], ◌∷◌, ◌==◌, if◌then◌else◌}
use relayna.Prelude.Dict.{Dict, get, put, pop, update, has}
use relayna.Prelude.Text.{strip}
use relayna.Json.{Json, text, is_null}

pub record ContractAliasConfig : Type 0 where
  pub field_aliases : Dict String
  pub http_aliases : Dict String

-- `alias.strip()` and the alias, if that leaves something; `None` if there is none.
unfoldable pub stripped : Option String → Option String
stripped none = none
stripped (some alias) = let s = strip alias in if s == "" then none else some s

unfoldable pub payload_alias_for : ContractAliasConfig → String → Option String
unfolding stripped
payload_alias_for c name = stripped (get name c.field_aliases)

-- An alias that is missing or empty falls back to the payload's.
or_payload : ContractAliasConfig → String → Option String → Option String
or_payload c name none = payload_alias_for c name
or_payload c name (some alias) = if alias == "" then payload_alias_for c name else some alias

unfoldable pub http_alias_for : ContractAliasConfig → String → Option String
unfolding or_payload stripped
http_alias_for c name = stripped (or_payload c name (get name c.http_aliases))

abbrev pub document_compat_aliases : ContractAliasConfig
document_compat_aliases = record {
  field_aliases = ("task_id", "documentId") ∷ [];
  http_aliases = [];
}

-- `_alias_map`; `source == "payload"` is the first constructor.
pub data Source : Type 0 where
  payload other : Source

unfoldable pub alias_map : Option ContractAliasConfig → Source → Dict String
alias_map none payload = document_compat_aliases.field_aliases
alias_map (some c) payload = update document_compat_aliases.field_aliases c.field_aliases
alias_map none other = []
alias_map (some c) other = update c.field_aliases c.http_aliases

-- One round of the first loop: the alias's value, unless the canonical key is there.
adopt : Dict Json → String → Option Json → Dict Json
adopt d canonical none = d
adopt d canonical (some v) = put canonical v d

unfoldable pub adopt_aliases : Dict String → Dict Json → Dict Json
unfolding adopt
adopt_aliases [] d = d
adopt_aliases ((canonical, alias) ∷ m) d =
    adopt_aliases m (if has canonical d then d else adopt d canonical (get alias d))

-- The second loop: an alias goes where its canonical key is there.
unfoldable pub discard_aliases : Dict String → Dict Json → Dict Json
discard_aliases [] d = d
discard_aliases ((canonical, alias) ∷ m) d =
    discard_aliases m (if has canonical d then pop alias d else d)

-- `str(value)`, for a value that is no text, is the interpreter's.
module _ (str : Json → String) where
  unfoldable pub stringify : Option Json → Dict Json → Dict Json
  stringify none d = d
  stringify (some v) d = if is_null v then d else put "task_id" (text (str v)) d

  unfoldable pub normalize_contract_aliases :
      Dict Json → Option ContractAliasConfig → Source → Bool → Dict Json
  unfolding stringify
  normalize_contract_aliases event config source drop_aliases =
      let m = alias_map config source in
      let d = adopt_aliases m event in
      let d' = if drop_aliases then discard_aliases m d else d in stringify (get "task_id" d') d'

-- One round of the output loop: a value that is missing or `None` is left alone.
publish_alias : Bool → String → String → Option Json → Dict Json → Dict Json
publish_alias alias_only canonical alias none d = d
publish_alias alias_only canonical alias (some v) d =
    if is_null v then d else (if alias_only then pop canonical (put alias v d) else put alias v d)

unfoldable pub publish_aliases : Bool → Dict String → Dict Json → Dict Json
unfolding publish_alias
publish_aliases alias_only [] d = d
publish_aliases alias_only ((canonical, alias) ∷ m) d =
    publish_aliases alias_only m (publish_alias alias_only canonical alias (get canonical d) d)

unfoldable pub denormalize_contract_aliases :
    Dict Json → Option ContractAliasConfig → Source → Bool → Dict Json
denormalize_contract_aliases event config source alias_only =
    publish_aliases alias_only (alias_map config source) event

unfoldable pub denormalize_document_aliases : Dict Json → Dict Json
denormalize_document_aliases event =
    denormalize_contract_aliases event (some document_compat_aliases) payload false

unfoldable pub public_output_aliases : Dict Json → Option ContractAliasConfig → Source → Dict Json
public_output_aliases event none source = event
public_output_aliases event (some c) source =
    denormalize_contract_aliases event (some c) source true

module _ (str : Json → String) where
  -- A configuration object counts as true, so only a missing one gives way to the default.
  unfoldable pub normalize_event_aliases : Dict Json → Option ContractAliasConfig → Dict Json
  normalize_event_aliases event none =
      normalize_contract_aliases str event (some document_compat_aliases) payload false
  normalize_event_aliases event (some config) =
      normalize_contract_aliases str event (some config) payload false
