-- ===== src/Graphql/Selection.antt =====
-- The selection sets that packages/js/client/src/graphql/query-builder.ts writes, as lists of lines.
-- `SelectionField` is that of packages/js/sdk/src/graphql/model-fields.ts; a nested field without
-- `fields` or `on` has an empty one, which the program treats alike.
pub mod Blocks
use Prim.Native.String
use bfw_engine.Common.{
  String, List, [], ◌∷◌, ◌++◌, Option, none, some, map, is_empty, if◌then◌else◌,
}
use bfw_engine.Graphql.Names.{to_snake_case}
use bfw_engine.Graphql.Values.{
  Members, SortClause, join, build_filter_input, sort_input, inline_json,
}

mutual
  pub data SelectionField : Type 0 where
    scalar : String → SelectionField
    nested : (name : String) → (fields : SelectionFields) → (on : Fragments) → SelectionField

  pub data SelectionFields : Type 0 where
    nil : SelectionFields
    cons : SelectionField → SelectionFields → SelectionFields

  pub data Fragments : Type 0 where
    no_fragment : Fragments
    fragment : (type_name : String) → SelectionFields → Fragments → Fragments

-- `prefix` and a line behind it
abbrev pub line : String → String → String
line prefix s = String.◌++◌ prefix s

-- the line that opens a block
abbrev pub opening : String → String → String
opening prefix head = line prefix (String.◌++◌ head " {")

-- `if (body.length === 0) body.push(…)`
abbrev pub or_typename : String → List String → List String
or_typename prefix [] = line prefix "  __typename" ∷ []
or_typename prefix (l ∷ ls) = l ∷ ls

-- A fragment whose body is empty is left out.
abbrev pub fragment_lines : String → String → List String → List String
fragment_lines prefix type_name [] = []
fragment_lines prefix type_name (l ∷ ls) =
    opening prefix (String.◌++◌ "  ... on " type_name) ∷ (l ∷ ls) ++ line prefix "  }" ∷ []

unfoldable mutual
  unfolding to_snake_case

  pub render_selection_field : SelectionField → String → List String
  render_selection_field (scalar name) prefix = line prefix (to_snake_case name) ∷ []
  render_selection_field (nested name fields on) prefix =
      opening prefix (to_snake_case name)
        ∷ or_typename prefix
            (render_each fields (String.◌++◌ prefix "  ") ++ render_fragments on prefix)
      ++ line prefix "}" ∷ []

  pub render_each : SelectionFields → String → List String
  render_each nil prefix = []
  render_each (cons field rest) prefix =
      render_selection_field field prefix ++ render_each rest prefix

  pub render_fragments : Fragments → String → List String
  render_fragments no_fragment prefix = []
  render_fragments (fragment type_name fields rest) prefix =
      fragment_lines prefix type_name (render_each fields (String.◌++◌ prefix "    "))
      ++ render_fragments rest prefix

pub record Include : Type 0 where
  pub fields : List String
  pub filter : Option Members
  pub sort : Option (List SortClause)

abbrev filter_part : Option Members → List String
filter_part none = []
filter_part (some filter) = String.◌++◌ "filter: " (inline_json (build_filter_input filter)) ∷ []

abbrev sort_part : Option (List SortClause) → List String
sort_part none = []
sort_part (some []) = []
sort_part (some (clause ∷ rest)) =
    String.◌++◌ "sort: " (inline_json (sort_input (clause ∷ rest))) ∷ []

-- `parts.length > 0 ? parts.join(', ') : null`, and then the suffix `(…)` or nothing
unfoldable pub argument_suffix : List String → String
unfolding join
argument_suffix [] = ""
argument_suffix (part ∷ parts) = String.◌++◌ "(" (String.◌++◌ (join ", " (part ∷ parts)) ")")

unfoldable pub include_lines : String → String → Include → List String
unfolding to_snake_case argument_suffix inline_json build_filter_input sort_input
include_lines prefix relation config =
    opening prefix (
        String.◌++◌ (to_snake_case relation)
          (argument_suffix (filter_part config.filter ++ sort_part config.sort)))
      ∷ (if is_empty config.fields
          then line prefix "    __typename" ∷ []
          else map (λ field. line prefix (String.◌++◌ "    " (to_snake_case field))) config.fields)
    ++ line prefix "}" ∷ []

unfoldable pub include_each : String → List (String × Include) → List String
unfolding include_lines
include_each prefix [] = []
include_each prefix ((relation, config) ∷ rest) =
    include_lines prefix relation config ++ include_each prefix rest

-- `buildSelectionSet` with the indentation that every caller uses
unfoldable pub build_selection_set : SelectionFields → Option (List (String × Include)) → String
unfolding render_selection_field include_each join
build_selection_set fields include = join "\n" (
    render_each fields "      "
    ++ elim include [ none ↦ [] | some given ↦ include_each "      " given ])
