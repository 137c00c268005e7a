-- ===== src/Graphql/Query.antt =====
-- `buildListQuery` and `buildGetQuery` of packages/js/client/src/graphql/query-builder.ts.
pub mod Variables
use Prim.Native.String
use bfw_engine.Common.{
  String, Bool, true, false, ℕ, List, [], ◌∷◌, ◌++◌, Option, none, some, eqb, not, ◌&&◌,
  if◌then◌else◌,
}
use mathlib.Core.Option
use bfw_engine.Graphql.Names.{capitalize_first}
use bfw_engine.Graphql.Values.{
  Value, Members, Number, number, text, SortClause, build_filter_input, sort_input,
}
use bfw_engine.Graphql.Selection.{SelectionFields, Include, build_selection_set, argument_suffix}

-- Texts one behind the other, as in a template.
abbrev pub template : List String → String
template [] = ""
template (s ∷ rest) = String.◌++◌ s (template rest)

pub data PaginationOptions : Type 0 where
  cursor :
      (first : Option Number) (after : Option String) (last : Option Number)
      (before : Option String)
      → PaginationOptions
  offset : (limit skipped : Number) → PaginationOptions

pub record BuildListQueryParams : Type 0 where
  pub resource_name : String
  pub ash_type_name : String
  pub fields : SelectionFields
  pub filter : Option Members
  pub sort : Option (List SortClause)
  pub included : Option (List (String × Include))
  pub pagination : Option PaginationOptions

pub record BuiltQuery : Type 0 where
  pub query : String
  pub variables : List (String × Value)
  pub get_field_name : Option String

-- The three variables that `buildListQuery` extends.
pub record Draft : Type 0 where
  pub variables : List (String × Value)
  pub variable_declarations : List String
  pub query_arguments : List String

abbrev pub blank : Draft
blank = record { variables = []; variable_declarations = []; query_arguments = [] }

-- `variables[key] = value` and the two pushes beside it. The keys of a query differ, so that each
-- assignment adds an entry.
abbrev pub ask : (key type : String) → Value → Draft → Draft
ask key type value draft = record {
  variables = draft.variables ++ (key, value) ∷ [];
  variable_declarations =
      draft.variable_declarations ++ template ("$" ∷ key ∷ ": " ∷ type ∷ []) ∷ [];
  query_arguments = draft.query_arguments ++ template (key ∷ ": $" ∷ key ∷ []) ∷ [];
}

abbrev pub ask_filter : String → Option Members → Draft → Draft
ask_filter ash none draft = draft
ask_filter ash (some filter) draft =
    ask "filter" (template (ash ∷ "FilterInput" ∷ [])) (build_filter_input filter) draft

-- `if (sort && sort.length > 0)`
abbrev pub ask_sort : String → Option (List SortClause) → Draft → Draft
ask_sort ash none draft = draft
ask_sort ash (some []) draft = draft
ask_sort ash (some (clause ∷ rest)) draft =
    ask "sort" (template ("[" ∷ ash ∷ "SortInput]" ∷ [])) (sort_input (clause ∷ rest)) draft

-- `if (value !== undefined)`
abbrev pub ask_value : (key type : String) → Option Value → Draft → Draft
ask_value key type none draft = draft
ask_value key type (some value) draft = ask key type value draft

-- `offset > 0`
abbrev pub is_positive : Number → Bool
is_positive n = not n.negative && not (eqb n.magnitude 0)

abbrev pub when : Bool → Number → Option Value
when true n = some (number n)
when false n = none

unfoldable pub ask_page : Option PaginationOptions → Draft → Draft
ask_page none draft = draft
ask_page (some (cursor first after last before)) draft =
    ask_value "before" "String" (Option.map text before) (
      ask_value "last" "Int" (Option.map number last) (
        ask_value "after" "String" (Option.map text after)
          (ask_value "first" "Int" (Option.map number first) draft)))
ask_page (some (offset limit skipped)) draft =
    ask_value "offset" "Int" (when (is_positive skipped) skipped)
      (ask "limit" "Int" (number limit) draft)

unfoldable pub draft_query : BuildListQueryParams → Draft
unfolding ask_page build_filter_input sort_input
draft_query params = ask_page params.pagination (
    ask_sort params.ash_type_name params.sort (ask_filter params.ash_type_name params.filter blank))

unfoldable pub page_meta_fields : Option PaginationOptions → String
page_meta_fields none = "\n    count"
page_meta_fields (some (cursor _ _ _ _)) = "\n    count\n    startKeyset\n    endKeyset"
page_meta_fields (some (offset _ _)) =
    "\n    count\n    hasNextPage\n    hasPreviousPage\n    pageNumber\n    lastPage\n    limit"

-- the text of a list query, with the declarations and the arguments put in
unfoldable pub list_query : BuildListQueryParams → List String → List String → String
unfolding capitalize_first argument_suffix build_selection_set page_meta_fields
list_query params declarations arguments = template (
    "query "
    ∷ capitalize_first params.resource_name
    ∷ "List"
    ∷ argument_suffix declarations
    ∷ " {\n  "
    ∷ params.resource_name
    ∷ argument_suffix arguments
    ∷ " {\n    results {\n"
    ∷ build_selection_set params.fields params.included
    ∷ "\n    }"
    ∷ page_meta_fields params.pagination
    ∷ "\n  }\n}"
    ∷ [])

unfoldable pub build_list_query : BuildListQueryParams → BuiltQuery
unfolding draft_query list_query
build_list_query params =
    let draft = draft_query params in
    record {
      query = list_query params draft.variable_declarations draft.query_arguments;
      variables = draft.variables;
      get_field_name = none;
    }

unfoldable pub build_get_query :
    String → String → SelectionFields → Option (List (String × Include)) → BuiltQuery
unfolding capitalize_first build_selection_set
build_get_query id resource_name fields included =
    let get_field_name = template ("get" ∷ capitalize_first resource_name ∷ []) in
    record {
      query = template (
          "query "
          ∷ capitalize_first resource_name
          ∷ "Get($id: ID!) {\n  "
          ∷ get_field_name
          ∷ "(id: $id) {\n"
          ∷ build_selection_set fields included
          ∷ "\n  }\n}"
          ∷ []);
      variables = ("id", text id) ∷ [];
      get_field_name = some get_field_name;
    }
