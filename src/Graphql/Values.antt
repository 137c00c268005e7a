-- ===== src/Graphql/Values.antt =====
-- The values that a caller passes to a query, and how
-- packages/js/client/src/graphql/query-builder.ts writes them into a query or a variable. Numbers
-- are integers, and the entries of an object stand in the order of `Object.entries`.
use Prim.Native.String
use bfw_engine.Common.{
  String, Bool, true, false, ℕ, ◌+◌, List, [], ◌∷◌, Option, none, some, has, set, decimal, eqb, map,
  ◌&&◌, not, if◌then◌else◌, to_upper_case,
}
use bfw_engine.Graphql.Names.{to_snake_case, to_screaming_snake_case}

-- `texts.join(separator)`
unfoldable pub join : String → List String → String
join separator [] = ""
join separator (s ∷ []) = s
join separator (s ∷ rest) = String.◌++◌ s (String.◌++◌ separator (join separator rest))

pub record Number : Type 0 where
  pub negative : Bool
  pub magnitude : ℕ

mutual
  pub data Value : Type 0 where
    undefined null : Value
    boolean : Bool → Value
    number : Number → Value
    text : String → Value
    array : Elements → Value
    object : Members → Value

  pub data Elements : Type 0 where
    nil : Elements
    cons : Value → Elements → Elements

  pub data Members : Type 0 where
    end : Members
    member : String → Value → Members → Members

-- `Object.entries`
abbrev pub entries : Members → List (String × Value)
entries end = []
entries (member key value rest) = (key, value) ∷ entries rest

abbrev pub from_entries : List (String × Value) → Members
from_entries [] = end
from_entries ((key, value) ∷ rest) = member key value (from_entries rest)

abbrev pub elements : List Value → Elements
elements [] = nil
elements (value ∷ rest) = cons value (elements rest)

-- The entries of an array have its indices as keys.
unfoldable pub indexed : ℕ → Elements → List (String × Value)
unfolding decimal
indexed n nil = []
indexed n (cons value rest) = (decimal n, value) ∷ indexed (n + 1) rest

-- `operators != null && typeof operators === 'object'`, with the entries
unfoldable pub own_entries : Value → Option (List (String × Value))
unfolding indexed
own_entries (array vs) = some (indexed 0 vs)
own_entries (object ms) = some (entries ms)
own_entries _ = none

unfoldable pub snake_operators :
    List (String × Value) → List (String × Value) → List (String × Value)
unfolding to_snake_case
snake_operators found [] = found
snake_operators found ((operator, value) ∷ rest) =
    snake_operators (set (to_snake_case operator) value found) rest

-- one round of the loop in `buildFilterInput`
unfoldable pub filter_step : String → Value → List (String × Value) → List (String × Value)
unfolding own_entries snake_operators to_snake_case
filter_step field operators result = elim (own_entries operators) [
  | none ↦ result
  | some given ↦ set (to_snake_case field) (object (from_entries (snake_operators [] given))) result
]

unfoldable pub filter_from : List (String × Value) → List (String × Value) → List (String × Value)
unfolding filter_step
filter_from result [] = result
filter_from result ((field, operators) ∷ rest) =
    filter_from (filter_step field operators result) rest

unfoldable pub build_filter_input : Members → Value
unfolding filter_from
build_filter_input filter = object (from_entries (filter_from [] (entries filter)))

pub data SortDirection : Type 0 where
  asc desc : SortDirection

abbrev pub direction_text : SortDirection → String
direction_text asc = "asc"
direction_text desc = "desc"

pub record SortClause : Type 0 where
  pub field : String
  pub direction : SortDirection

unfoldable pub sort_entry : SortClause → Value
unfolding to_screaming_snake_case to_upper_case
sort_entry clause = object (
    member "field" (text (to_screaming_snake_case clause.field))
      (member "order" (text (to_upper_case (direction_text clause.direction))) end))

unfoldable pub sort_input : List SortClause → Value
unfolding sort_entry
sort_input clauses = array (elements (map sort_entry clauses))

-- `String(n)` for an integer; a negative zero loses its sign.
abbrev pub number_text : Number → String
number_text n =
    if n.negative && not (eqb n.magnitude 0)
    then String.◌++◌ "-" (decimal n.magnitude)
    else decimal n.magnitude

-- `enumKeys.has(key) && typeof val === 'string' ? val : rendered`
abbrev enum_or : String → Value → String → String
enum_or key (text s) rendered = if has key ("field" ∷ "order" ∷ []) then s else rendered
enum_or key _ rendered = rendered

unfoldable mutual
  unfolding decimal join

  pub inline_json : Value → String
  inline_json undefined = "null"
  inline_json null = "null"
  inline_json (text s) = String.◌++◌ "\"" (String.◌++◌ s "\"")
  inline_json (number n) = number_text n
  inline_json (boolean true) = "true"
  inline_json (boolean false) = "false"
  inline_json (array vs) = String.◌++◌ "[" (String.◌++◌ (join ", " (inline_each vs)) "]")
  inline_json (object ms) = String.◌++◌ "{" (String.◌++◌ (join ", " (inline_members ms)) "}")

  inline_each : Elements → List String
  inline_each nil = []
  inline_each (cons value rest) = inline_json value ∷ inline_each rest

  inline_members : Members → List String
  inline_members end = []
  inline_members (member key value rest) =
      String.◌++◌ key (String.◌++◌ ": " (enum_or key value (inline_json value)))
      ∷ inline_members rest
