-- ===== src/Graphql/Query/Variables.antt =====
-- The variables of a list query of packages/js/client/src/graphql/query-builder.ts: those that the
-- query declares, those that it uses and those that are passed along.
use Prim.Native.String
use bfw_engine.Common.{
  String, List, [], ◌∷◌, ◌++◌, Option, none, some, ◌≡◌, refl, sym, ◌∙◌, ap, map, append-nil,
  append_assoc,
}
use mathlib.Core.Option
use mathlib.Core.List.{map-append}
use bfw_engine.Graphql.Values.{
  Value, join, Members, number, text, SortClause, build_filter_input, sort_input,
}
use bfw_engine.Graphql.Query.{
  template, PaginationOptions, cursor, offset, BuildListQueryParams, BuiltQuery, Draft, ask,
  ask_filter, ask_sort, ask_value, is_positive, when, ask_page, draft_query, list_query,
  build_list_query, page_meta_fields,
}
use bfw_engine.Graphql.Names.{capitalize_first}
use bfw_engine.Graphql.Selection.{argument_suffix, build_selection_set}

-- A variable, its GraphQL type and its value.
pub record Request : Type 0 where
  pub key : String
  pub type : String
  pub value : Value

abbrev pub binding : Request → String × Value
binding r = (r.key, r.value)

abbrev pub declaration : Request → String
declaration r = template ("$" ∷ r.key ∷ ": " ∷ r.type ∷ [])

abbrev pub argument : Request → String
argument r = template (r.key ∷ ": $" ∷ r.key ∷ [])

abbrev optional : String → String → Option Value → List Request
optional key type none = []
optional key type (some value) = record { key = key; type = type; value = value } ∷ []

abbrev filter_value : Option Members → Option Value
filter_value filter = Option.map build_filter_input filter

-- An empty list of clauses counts as none.
abbrev sort_value : Option (List SortClause) → Option Value
sort_value none = none
sort_value (some []) = none
sort_value (some (clause ∷ rest)) = some (sort_input (clause ∷ rest))

abbrev page_requests : Option PaginationOptions → List Request
page_requests none = []
page_requests (some (cursor first after last before)) =
    optional "first" "Int" (Option.map number first)
    ++ optional "after" "String" (Option.map text after)
    ++ optional "last" "Int" (Option.map number last)
    ++ optional "before" "String" (Option.map text before)
page_requests (some (offset limit skipped)) =
    record { key = "limit"; type = "Int"; value = number limit }
    ∷ optional "offset" "Int" (when (is_positive skipped) skipped)

-- What the parameters ask for.
abbrev pub requested : BuildListQueryParams → List Request
requested params =
    optional "filter" (template (params.ash_type_name ∷ "FilterInput" ∷ []))
      (filter_value params.filter)
    ++ optional "sort" (template ("[" ∷ params.ash_type_name ∷ "SortInput]" ∷ []))
        (sort_value params.sort)
    ++ page_requests params.pagination

abbrev draft_of : List Request → Draft
draft_of rs = record {
  variables = map binding rs;
  variable_declarations = map declaration rs;
  query_arguments = map argument rs;
}

ask-draft_of :
    (r : Request) (rs : List Request)
    → ask r.key r.type r.value (draft_of rs) ≡ draft_of (rs ++ r ∷ [])
ask-draft_of r rs = λ i. record {
  variables = sym (map-append binding rs (r ∷ [])) i;
  variable_declarations = sym (map-append declaration rs (r ∷ [])) i;
  query_arguments = sym (map-append argument rs (r ∷ [])) i;
}

ask_value-draft_of :
    (key type : String) (o : Option Value) (rs : List Request)
    → ask_value key type o (draft_of rs) ≡ draft_of (rs ++ optional key type o)
ask_value-draft_of key type none rs = ap draft_of (sym (append-nil rs))
ask_value-draft_of key type (some value) rs =
    ask-draft_of (record { key = key; type = type; value = value }) rs

ask_filter-ask_value :
    (ash : String) (filter : Option Members) (draft : Draft)
    → ask_filter ash filter draft
      ≡ ask_value "filter" (template (ash ∷ "FilterInput" ∷ [])) (filter_value filter) draft
ask_filter-ask_value ash none draft = refl
ask_filter-ask_value ash (some filter) draft = refl

ask_sort-ask_value :
    (ash : String) (sort : Option (List SortClause)) (draft : Draft)
    → ask_sort ash sort draft
      ≡ ask_value "sort" (template ("[" ∷ ash ∷ "SortInput]" ∷ [])) (sort_value sort) draft
ask_sort-ask_value ash none draft = refl
ask_sort-ask_value ash (some []) draft = refl
ask_sort-ask_value ash (some (clause ∷ rest)) draft = refl

ask_page-draft_of :
    (page : Option PaginationOptions) (rs : List Request)
    → ask_page page (draft_of rs) ≡ draft_of (rs ++ page_requests page)
unfolding ask_page
ask_page-draft_of none rs = ap draft_of (sym (append-nil rs))
ask_page-draft_of (some (cursor first after last before)) rs =
    rw
      (
        ask_value-draft_of "first" "Int" (Option.map number first) rs,
        ask_value-draft_of "after" "String" (Option.map text after) _,
        ask_value-draft_of "last" "Int" (Option.map number last) _,
        ask_value-draft_of "before" "String" (Option.map text before) _,
      )
      (ap draft_of (simp append_assoc))
ask_page-draft_of (some (offset limit skipped)) rs =
    rw
      (
        ask-draft_of (record { key = "limit"; type = "Int"; value = number limit }) rs,
        ask_value-draft_of,
      )
      (ap draft_of (simp append_assoc))

draft_query-requested :
    (params : BuildListQueryParams) → draft_query params ≡ draft_of (requested params)
unfolding draft_query
draft_query-requested params =
    rw (ask_filter-ask_value, ask_sort-ask_value)
      (rw
        (
          ask_value-draft_of _ _ (filter_value params.filter) [],
          ask_value-draft_of,
          ask_page-draft_of,
        )
        (ap draft_of (simp append_assoc)))

-- Parts between parentheses, or nothing where there are none.
abbrev in_parentheses : List String → String
in_parentheses [] = ""
in_parentheses (part ∷ parts) = String.◌++◌ "(" (String.◌++◌ (join ", " (part ∷ parts)) ")")

in_parentheses-suffix : (parts : List String) → argument_suffix parts ≡ in_parentheses parts
unfolding argument_suffix
in_parentheses-suffix [] = refl
in_parentheses-suffix (part ∷ parts) = refl

-- The text of a list query with the variables of some requests: each is declared with its type behind
-- the name of the query, and is the argument of its name behind that of the resource.
abbrev pub query_with : BuildListQueryParams → List Request → String
query_with params rs = template (
    "query "
    ∷ capitalize_first params.resource_name
    ∷ "List"
    ∷ in_parentheses (map declaration rs)
    ∷ " {\n  "
    ∷ params.resource_name
    ∷ in_parentheses (map argument rs)
    ∷ " {\n    results {\n"
    ∷ build_selection_set params.fields params.included
    ∷ "\n    }"
    ∷ page_meta_fields params.pagination
    ∷ "\n  }\n}"
    ∷ [])

list_query-query_with :
    (params : BuildListQueryParams) (rs : List Request)
    → list_query params (map declaration rs) (map argument rs) ≡ query_with params rs
unfolding list_query
list_query-query_with params rs =
    rw
      (
        list_query,
        in_parentheses-suffix (map declaration rs),
        in_parentheses-suffix (map argument rs),
      )
      refl

-- A query that declares, uses and is sent with exactly the variables of a list of requests.
pub record AsksFor (params : BuildListQueryParams) (rs : List Request) (built : BuiltQuery)
    : Type 0 where
  pub passed : built.variables ≡ map binding rs
  pub written : built.query ≡ query_with params rs

-- A list query declares, uses and passes exactly the variables that its parameters ask for, in one
-- order: the filter, the sort clauses unless there are none, and those of the page, where an
-- offset that is not positive is left out.
pub build_list_query-AsksFor :
    (params : BuildListQueryParams) → AsksFor params (requested params) (build_list_query params)
unfolding build_list_query
build_list_query-AsksFor params = record {
  passed = ap (λ (d : Draft). d.variables) (draft_query-requested params);
  written =
      ap (λ (d : Draft). list_query params d.variable_declarations d.query_arguments)
        (draft_query-requested params)
      ∙ list_query-query_with params (requested params);
}
