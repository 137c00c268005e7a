-- ===== src/Dmn/Document/Contents.antt =====
-- What `parseDefinitions` of packages/js/sdk/src/dmn/parser.ts keeps of the children of an element.
use bfw_engine.Common.{map, none, String, ◌≡◌, refl}
use mathlib.Core.List.{foldl}
use bfw_engine.Xml.{OrderedNode, children, find_all_elements}
use bfw_engine.Xml.Switch.{fills, assign, for_each-switch, for_each-push}
use bfw_engine.Dmn.Leaves.{
  parse_input_data, parse_knowledge_source, parse_item_definition, parse_import,
  parse_decision_service, parse_dmndi,
}
use bfw_engine.Dmn.Decisions.{parse_decision, parse_business_knowledge_model}
use bfw_engine.Dmn.Document.{definitions_cases, parse_definitions}
use bfw_engine.Dmn.Model.{Definitions}

-- Each list of the parsed definitions holds what its reader gives for the children of its tag, all of
-- them and in document order, and the diagrams are those of the last `DMNDI` child.
pub parse_definitions-children :
    (node : OrderedNode) (raw_xml : String)
    → ((parse_definitions node raw_xml).decisions
        ≡ map parse_decision (find_all_elements (children node) "decision"))
      × ((parse_definitions node raw_xml).input_data
          ≡ map parse_input_data (find_all_elements (children node) "inputData"))
      × ((parse_definitions node raw_xml).business_knowledge_models
          ≡ map parse_business_knowledge_model
              (find_all_elements (children node) "businessKnowledgeModel"))
      × ((parse_definitions node raw_xml).knowledge_sources
          ≡ map parse_knowledge_source (find_all_elements (children node) "knowledgeSource"))
      × ((parse_definitions node raw_xml).item_definitions
          ≡ map parse_item_definition (find_all_elements (children node) "itemDefinition"))
      × ((parse_definitions node raw_xml).imports
          ≡ map parse_import (find_all_elements (children node) "import"))
      × ((parse_definitions node raw_xml).decision_services
          ≡ map parse_decision_service (find_all_elements (children node) "decisionService"))
      × ((parse_definitions node raw_xml).dmndi
          ≡ foldl assign none (map parse_dmndi (find_all_elements (children node) "DMNDI")))
unfolding parse_definitions
parse_definitions-children node raw_xml = (
  for_each-push definitions_cases Definitions.decisions parse_decision (search fills depth 30)
      (children node) _ refl,
  for_each-push definitions_cases Definitions.input_data parse_input_data (search fills depth 30)
      (children node) _ refl,
  for_each-push definitions_cases Definitions.business_knowledge_models
      parse_business_knowledge_model (search fills depth 30) (children node) _ refl,
  for_each-push definitions_cases Definitions.knowledge_sources parse_knowledge_source
      (search fills depth 30) (children node) _ refl,
  for_each-push definitions_cases Definitions.item_definitions parse_item_definition
      (search fills depth 30) (children node) _ refl,
  for_each-push definitions_cases Definitions.imports parse_import (search fills depth 30)
      (children node) _ refl,
  for_each-push definitions_cases Definitions.decision_services parse_decision_service
      (search fills depth 30) (children node) _ refl,
  for_each-switch Definitions.dmndi parse_dmndi assign "DMNDI" {cases = definitions_cases}
      (search fills depth 30) (children node) _,
)
