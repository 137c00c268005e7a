-- ===== src/Dmn/Document.antt =====
-- `parseDmn` and `parseDefinitions` of packages/js/sdk/src/dmn/parser.ts.
pub mod Contents
use bfw_engine.Common.{String, List, [], ◌∷◌, Option, none, some}
use bfw_engine.Xml.{Reading, tree, unreadable, OrderedNode, children, attr, find_element}
use bfw_engine.Xml.Switch.{Cases, switch, for_each, push}
use bfw_engine.Dmn.Leaves.{
  parse_input_data, parse_knowledge_source, parse_item_definition, parse_import,
  parse_decision_service, parse_dmndi,
}
use bfw_engine.Dmn.Decisions.{parse_decision, parse_business_knowledge_model}
use bfw_engine.Dmn.Model.{Definitions}

unfoldable pub empty_definitions : String → Definitions
empty_definitions raw_xml = record {
  id = none;
  name = none;
  namespace = none;
  decisions = [];
  input_data = [];
  business_knowledge_models = [];
  knowledge_sources = [];
  item_definitions = [];
  imports = [];
  decision_services = [];
  dmndi = none;
  raw_xml = raw_xml;
}

-- the cases of the switch in `parseDefinitions`
abbrev pub definitions_cases : Cases Definitions
definitions_cases =
    ("decision", λ child s. record s { decisions = push s.decisions (parse_decision child) })
    ∷ ("inputData", λ child s. record s { input_data = push s.input_data (parse_input_data child) })
    ∷ (
      "businessKnowledgeModel",
      λ child s. record s {
        business_knowledge_models =
            push s.business_knowledge_models (parse_business_knowledge_model child);
      },
    )
    ∷ (
      "knowledgeSource",
      λ child s. record s {
        knowledge_sources = push s.knowledge_sources (parse_knowledge_source child);
      },
    )
    ∷ (
      "itemDefinition",
      λ child s. record s {
        item_definitions = push s.item_definitions (parse_item_definition child);
      },
    )
    ∷ ("import", λ child s. record s { imports = push s.imports (parse_import child) })
    ∷ (
      "decisionService",
      λ child s. record s {
        decision_services = push s.decision_services (parse_decision_service child);
      },
    )
    ∷ ("DMNDI", λ child s. record s { dmndi = some (parse_dmndi child) })
    ∷ []

-- `attr(node, 'targetNamespace') ?? attr(node, 'namespace')`
abbrev namespace_of : Option String → Option String → Option String
namespace_of (some target) other = some target
namespace_of none other = other

unfoldable pub parse_definitions : OrderedNode → String → Definitions
unfolding attr for_each empty_definitions parse_decision parse_input_data
    parse_business_knowledge_model parse_knowledge_source parse_item_definition parse_import
    parse_decision_service parse_dmndi
parse_definitions node raw_xml =
    for_each (switch definitions_cases) (children node) (record (empty_definitions raw_xml) {
      id = attr node "id";
      name = attr node "name";
      namespace = namespace_of (attr node "targetNamespace") (attr node "namespace");
    })

abbrev definitions_of : Option OrderedNode → String → Definitions
definitions_of none xml = empty_definitions xml
definitions_of (some node) xml = parse_definitions node xml

-- A call returns definitions or throws an error of the XML library.
pub data DmnOutcome : Type 0 where
  parsed : Definitions → DmnOutcome
  thrown : (message : String) → DmnOutcome

-- what follows `parser.parse(xml)`
abbrev parse_read : Reading → String → DmnOutcome
parse_read (unreadable message) xml = thrown message
parse_read (tree nodes) xml = parsed (definitions_of (find_element nodes "definitions") xml)

-- `parseDmn`, where the XML library's parser is an argument.
unfoldable pub parse_dmn : (parse : String → Reading) → String → DmnOutcome
unfolding find_element empty_definitions parse_definitions
parse_dmn parse xml = parse_read (parse xml) xml
