-- ===== src/Topology/Mermaid.antt =====
-- src/relayna/topology/workflow_graph.py: `_build_mermaid_node_ids`.
pub mod Free
pub mod Injective
use Prim.Native.Char.{Char, code}
use Prim.Native.String.{◌++◌}
use relayna.Prelude.{
  ◌≡◌, Bool, String, ℕ, leb, if◌then◌else◌, List, ◌&&◌, nat_eq, ◌==◌, Option, ◌||◌, none, length,
  some, [], suc, ◌+◌, ◌∷◌, zero,
}
use relayna.Prelude.Dict.{Dict, put}
use relayna.Prelude.Text.{contains}

-- `[0-9A-Za-z_]`
abbrev is_word : Char → Bool
is_word c =
    let n = code c in
    (leb 48 n && leb n 57) || (leb 65 n && leb n 90) || (leb 97 n && leb n 122) || nat_eq n 95

-- `re.sub(r"[^0-9A-Za-z_]", "_", name)`
unfoldable pub substitute : String → String
substitute String.[] = ""
substitute (String.◌∷◌ c s) = if is_word c then String.◌∷◌ c (substitute s) else "_" ++ substitute s

unfoldable pub lstrip_underscores : String → String
lstrip_underscores String.[] = ""
lstrip_underscores (String.◌∷◌ c s) =
    let rest = lstrip_underscores s in if nat_eq (code c) 95 then rest else String.◌∷◌ c s

unfoldable pub rstrip_underscores : String → String
rstrip_underscores String.[] = ""
rstrip_underscores (String.◌∷◌ c s) =
    let rest = rstrip_underscores s in
    if nat_eq (code c) 95 && rest == "" then "" else String.◌∷◌ c rest

unfoldable pub sanitize_mermaid_identifier : String → String
sanitize_mermaid_identifier name =
    let s = lstrip_underscores (rstrip_underscores (substitute name)) in
    if s == "" then "node" else s

-- `str` of a number is the interpreter's.
module _ (str : ℕ → String) where
  unfoldable pub numbered : String → ℕ → String
  numbered base suffix = base ++ "_" ++ str suffix

  -- The `while` loop, from a candidate and the next suffix.
  unfoldable pub find_free : ℕ → List String → String → String → ℕ → Option String
  find_free zero used base candidate suffix = none
  find_free (suc fuel) used base candidate suffix =
      let rest = find_free fuel used base (numbered base suffix) (suffix + 1) in
      if contains candidate used then rest else some candidate

  -- The candidates are pairwise different, so one round more than there are ids is enough.
  unfoldable pub free_id : List String → String → Option String
  unfolding find_free
  free_id used base = find_free (length used + 1) used base base 2

  unfoldable pub add_id :
      (List String → Dict String → Option (Dict String))
      → List String
      → Dict String
      → String
      → Option String
      → Option (Dict String)
  add_id next used ids name none = none
  add_id next used ids name (some c) = next (c ∷ used) (put name c ids)

  unfoldable pub build_from :
      String → List String → List String → Dict String → Option (Dict String)
  unfolding free_id add_id
  build_from prefix [] used ids = some ids
  build_from prefix (name ∷ names) used ids =
      add_id (build_from prefix names) used ids name
        (free_id used (prefix ++ "_" ++ sanitize_mermaid_identifier name))

  unfoldable pub build_mermaid_node_ids : String → List String → Option (Dict String)
  unfolding build_from
  build_mermaid_node_ids prefix names = build_from prefix names [] []
