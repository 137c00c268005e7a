-- ===== src/Dmn/Scalars.antt =====
-- The enumerations and coordinates that packages/js/sdk/src/dmn/parser.ts reads from attributes.
pub mod Policies
use bfw_engine.Common.{
  String, Bool, false, List, [], ◌∷◌, Option, none, some, ◌||◌, trim, to_upper_case, to_lower_case,
  lookup, or_default, ◌==◌,
}
use bfw_engine.Xml.{OrderedNode, attr}
use bfw_engine.Dmn.Texts.{present, replace_spaces, parse_float}
use bfw_engine.Dmn.Model.{
  DmnHitPolicy, unique, first, any, collect, rule_order, output_order, priority, DmnAggregation,
  sum, min, max, count, DmnOrientation, rule_as_row, rule_as_column, cross_table, Bounds, Point,
}

-- The cases of the switch in `parseHitPolicy`.
abbrev pub hit_policies : List (String × DmnHitPolicy)
hit_policies =
    ("UNIQUE", unique)
    ∷ ("U", unique)
    ∷ ("FIRST", first)
    ∷ ("F", first)
    ∷ ("ANY", any)
    ∷ ("A", any)
    ∷ ("COLLECT", collect)
    ∷ ("C", collect)
    ∷ ("RULE_ORDER", rule_order)
    ∷ ("R", rule_order)
    ∷ ("OUTPUT_ORDER", output_order)
    ∷ ("O", output_order)
    ∷ ("PRIORITY", priority)
    ∷ ("P", priority)
    ∷ []

unfoldable pub parse_hit_policy : Option String → DmnHitPolicy
unfolding trim to_upper_case replace_spaces
parse_hit_policy raw = elim (present raw) [
  | none ↦ unique
  | some source ↦
      or_default (lookup (replace_spaces "_" false (to_upper_case (trim source))) hit_policies)
        unique
]

abbrev pub aggregations : List (String × DmnAggregation)
aggregations = ("SUM", sum) ∷ ("MIN", min) ∷ ("MAX", max) ∷ ("COUNT", count) ∷ []

unfoldable pub parse_aggregation : Option String → Option DmnAggregation
unfolding trim to_upper_case
parse_aggregation raw = elim (present raw) [
  | none ↦ none
  | some source ↦ lookup (to_upper_case (trim source)) aggregations
]

-- The cases of the switch in `parsePreferredOrientation`.
abbrev pub orientations : List (String × DmnOrientation)
orientations =
    ("rule-as-row", rule_as_row)
    ∷ ("rule_as_row", rule_as_row)
    ∷ ("rule-as-column", rule_as_column)
    ∷ ("rule_as_column", rule_as_column)
    ∷ ("crosstable", cross_table)
    ∷ ("cross-table", cross_table)
    ∷ []

unfoldable pub parse_preferred_orientation : Option String → DmnOrientation
unfolding trim to_lower_case replace_spaces
parse_preferred_orientation raw = elim (present raw) [
  | none ↦ rule_as_row
  | some source ↦
      or_default (lookup (replace_spaces "-" false (to_lower_case (trim source))) orientations)
        rule_as_row
]

unfoldable pub parse_is_collection : Option String → Bool
unfolding trim to_lower_case
parse_is_collection raw = elim (present raw) [
  | none ↦ false
  | some source ↦ to_lower_case (trim source) == "true" || to_lower_case (trim source) == "1"
]

unfoldable pub parse_float_attribute : OrderedNode → String → String
unfolding attr parse_float
parse_float_attribute node attribute_name = elim (present (attr node attribute_name)) [
  | none ↦ "0"
  | some raw ↦ or_default (parse_float raw) "0"
]

unfoldable pub parse_bounds : OrderedNode → Bounds
unfolding parse_float_attribute
parse_bounds node = record {
  x = parse_float_attribute node "x";
  y = parse_float_attribute node "y";
  width = parse_float_attribute node "width";
  height = parse_float_attribute node "height";
}

unfoldable pub parse_waypoint : OrderedNode → Point
unfolding parse_float_attribute
parse_waypoint node = record {
  x = parse_float_attribute node "x";
  y = parse_float_attribute node "y";
}
