-- ===== src/Dmn/Tables.antt =====
-- Decision tables and literal expressions of packages/js/sdk/src/dmn/parser.ts.
pub mod Contents
use bfw_engine.Common.{
  String, List, [], ◌∷◌, ◌++◌, Option, none, some, or_null, ◌==◌, if◌then◌else◌,
}
use bfw_engine.Xml.{
  OrderedNode, children, attr, attr_or_empty, find_element, text_content, child_text,
}
use bfw_engine.Xml.Switch.{Cases, switch, for_each, push}
use bfw_engine.Dmn.Scalars.{parse_hit_policy, parse_aggregation, parse_preferred_orientation}
use bfw_engine.Dmn.Leaves.{child_attr}
use bfw_engine.Dmn.Model.{
  Input, Output, InputEntry, OutputEntry, Rule, DecisionTable, LiteralExpression,
}

unfoldable pub entry_body_text : OrderedNode → String
unfolding child_text text_content
entry_body_text node =
    if child_text (children node) "text" == ""
    then text_content node
    else child_text (children node) "text"

-- The text of an optional element: that of its `text` child, or else its own, or else `null`.
unfoldable pub optional_text : Option OrderedNode → Option String
unfolding child_text text_content
optional_text none = none
optional_text (some node) = elim (or_null (child_text (children node) "text")) [
  | some found ↦ some found
  | none ↦ or_null (text_content node)
]

unfoldable pub parse_input : OrderedNode → Input
unfolding attr find_element optional_text child_attr
parse_input node =
    let kids = children node in
    record {
      id = attr_or_empty node "id";
      label = attr node "label";
      input_expression = optional_text (find_element kids "inputExpression");
      input_values = optional_text (find_element kids "inputValues");
      type_ref = child_attr kids "inputExpression" "typeRef";
    }

unfoldable pub parse_output : OrderedNode → Output
unfolding attr find_element optional_text
parse_output node =
    let kids = children node in
    record {
      id = attr_or_empty node "id";
      label = attr node "label";
      name = attr node "name";
      output_values = optional_text (find_element kids "outputValues");
      type_ref = attr node "typeRef";
      default_output_value = optional_text (find_element kids "defaultOutputEntry");
    }

unfoldable pub parse_input_entry : OrderedNode → InputEntry
unfolding attr entry_body_text
parse_input_entry node = record { id = attr_or_empty node "id"; text = entry_body_text node }

unfoldable pub parse_output_entry : OrderedNode → OutputEntry
unfolding attr entry_body_text
parse_output_entry node = record { id = attr_or_empty node "id"; text = entry_body_text node }

-- the description of a rule, from its attribute or else from its first `description` child
abbrev description_of : Option String → Option OrderedNode → Option String
description_of (some given) found = some given
description_of none none = none
description_of none (some node) = or_null (entry_body_text node)

-- The lists of `parseRule`.
pub record RuleParts : Type 0 where
  pub input_entries : List InputEntry
  pub output_entries : List OutputEntry
  pub annotation_entries : List String

abbrev pub no_rule_parts : RuleParts
no_rule_parts = record { input_entries = []; output_entries = []; annotation_entries = [] }

abbrev pub rule_cases : Cases RuleParts
rule_cases =
    (
      "inputEntry",
      λ child s. record s { input_entries = push s.input_entries (parse_input_entry child) },
    )
    ∷ (
      "outputEntry",
      λ child s. record s { output_entries = push s.output_entries (parse_output_entry child) },
    )
    ∷ (
      "annotationEntry",
      λ child s. record s {
        annotation_entries = push s.annotation_entries (entry_body_text child);
      },
    )
    ∷ []

unfoldable pub parse_rule : OrderedNode → Rule
unfolding attr find_element for_each entry_body_text parse_input_entry parse_output_entry
parse_rule node =
    let parts = for_each (switch rule_cases) (children node) no_rule_parts in
    record {
      id = attr_or_empty node "id";
      description =
          description_of (attr node "description") (find_element (children node) "description");
      input_entries = parts.input_entries;
      output_entries = parts.output_entries;
      annotation_entries = parts.annotation_entries;
    }

-- The lists of `parseDecisionTable`.
pub record TableParts : Type 0 where
  pub inputs : List Input
  pub outputs : List Output
  pub rules : List Rule

abbrev pub no_table_parts : TableParts
no_table_parts = record { inputs = []; outputs = []; rules = [] }

abbrev pub table_cases : Cases TableParts
table_cases =
    ("input", λ child s. record s { inputs = push s.inputs (parse_input child) })
    ∷ ("output", λ child s. record s { outputs = push s.outputs (parse_output child) })
    ∷ ("rule", λ child s. record s { rules = push s.rules (parse_rule child) })
    ∷ []

unfoldable pub parse_decision_table : OrderedNode → DecisionTable
unfolding attr for_each parse_input parse_output parse_rule parse_hit_policy parse_aggregation
    parse_preferred_orientation
parse_decision_table node =
    let parts = for_each (switch table_cases) (children node) no_table_parts in
    record {
      id = attr node "id";
      hit_policy = parse_hit_policy (attr node "hitPolicy");
      aggregation = parse_aggregation (attr node "aggregation");
      preferred_orientation = parse_preferred_orientation (attr node "preferredOrientation");
      inputs = parts.inputs;
      outputs = parts.outputs;
      rules = parts.rules;
    }

unfoldable pub parse_literal_expression : OrderedNode → LiteralExpression
unfolding attr child_text
parse_literal_expression node = record {
  id = attr node "id";
  text = child_text (children node) "text";
  type_ref = attr node "typeRef";
  expression_language = attr node "expressionLanguage";
}
