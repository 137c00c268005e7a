-- ===== src/Dmn/Tables/Contents.antt =====
-- What `parseDecisionTable` and `parseRule` of packages/js/sdk/src/dmn/parser.ts keep of an element.
use bfw_engine.Common.{map, ◌≡◌, refl}
use bfw_engine.Xml.{OrderedNode, children, find_all_elements}
use bfw_engine.Xml.Switch.{fills, for_each-push}
use bfw_engine.Dmn.Tables.{
  table_cases, rule_cases, TableParts, RuleParts, parse_decision_table, parse_rule, parse_input,
  parse_output, parse_input_entry, parse_output_entry, entry_body_text,
}

-- A decision table holds its inputs, its outputs and its rules, and a rule its input, output and
-- annotation entries: each list what the reader gives for the children of its tag, in document order.
pub parse_decision_table-children :
    (node : OrderedNode)
    → ((parse_decision_table node).inputs
        ≡ map parse_input (find_all_elements (children node) "input"))
      × ((parse_decision_table node).outputs
          ≡ map parse_output (find_all_elements (children node) "output"))
      × ((parse_decision_table node).rules
          ≡ map parse_rule (find_all_elements (children node) "rule"))
      × ((parse_rule node).input_entries
          ≡ map parse_input_entry (find_all_elements (children node) "inputEntry"))
      × ((parse_rule node).output_entries
          ≡ map parse_output_entry (find_all_elements (children node) "outputEntry"))
      × ((parse_rule node).annotation_entries
          ≡ map entry_body_text (find_all_elements (children node) "annotationEntry"))
unfolding parse_decision_table parse_rule
parse_decision_table-children node = (
  for_each-push table_cases TableParts.inputs parse_input (search fills depth 30) (children node) _
      refl,
  for_each-push table_cases TableParts.outputs parse_output (search fills depth 30) (children node)
      _ refl,
  for_each-push table_cases TableParts.rules parse_rule (search fills depth 30) (children node) _
      refl,
  for_each-push rule_cases RuleParts.input_entries parse_input_entry (search fills depth 30)
      (children node) _ refl,
  for_each-push rule_cases RuleParts.output_entries parse_output_entry (search fills depth 30)
      (children node) _ refl,
  for_each-push rule_cases RuleParts.annotation_entries entry_body_text (search fills depth 30)
      (children node) _ refl,
)
