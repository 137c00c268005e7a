-- ===== src/Dmn/Leaves.antt =====
-- The parts of packages/js/sdk/src/dmn/parser.ts that hold no expression: information items,
-- requirements, services, item definitions, imports and diagrams.
use bfw_engine.Common.{
  String, List, [], ◌∷◌, Option, none, some, or_null, or_default, if◌then◌else◌,
}
use bfw_engine.Xml.{
  OrderedNode, Nodes, element, text, nil, cons, has_tag, children, attr, attr_or_empty,
  find_element, text_content,
}
use bfw_engine.Xml.Switch.{Cases, switch, for_each, push}
use bfw_engine.Dmn.Texts.{fragment_id_from_href}
use bfw_engine.Dmn.Scalars.{parse_is_collection, parse_bounds, parse_waypoint}
use bfw_engine.Dmn.Model.{
  InformationItem, InputData, InformationRequirement, KnowledgeRequirement, AuthorityRequirement,
  KnowledgeSource, DecisionService, Import, ItemDefinition, ItemDefinitions, item_definition, Shape,
  Edge, Diagram, Dmndi, Bounds,
}

unfoldable pub parse_information_item : OrderedNode → InformationItem
unfolding attr
parse_information_item node = record {
  id = attr node "id";
  name = attr_or_empty node "name";
  type_ref = attr node "typeRef";
}

-- `found ? attr(found, name) : null`, for the first child of a tag
unfoldable pub child_attr : List OrderedNode → String → String → Option String
unfolding find_element attr
child_attr kids tag name = elim (find_element kids tag) [
  | none ↦ none
  | some found ↦ attr found name
]

abbrev pub referred : List OrderedNode → String → Option String
referred kids tag = fragment_id_from_href (child_attr kids tag "href")

unfoldable pub parse_input_data : OrderedNode → InputData
unfolding attr child_attr
parse_input_data node = record {
  id = attr_or_empty node "id";
  name = attr_or_empty node "name";
  type_ref = child_attr (children node) "variable" "typeRef";
}

unfoldable pub parse_information_requirement : OrderedNode → InformationRequirement
unfolding attr child_attr fragment_id_from_href
parse_information_requirement node = record {
  id = attr node "id";
  required_decision_id = referred (children node) "requiredDecision";
  required_input_id = referred (children node) "requiredInput";
}

unfoldable pub parse_knowledge_requirement : OrderedNode → KnowledgeRequirement
unfolding attr child_attr fragment_id_from_href
parse_knowledge_requirement node = record {
  id = attr node "id";
  required_knowledge_id = or_default (referred (children node) "requiredKnowledge") "";
}

unfoldable pub parse_authority_requirement : OrderedNode → AuthorityRequirement
unfolding attr child_attr fragment_id_from_href
parse_authority_requirement node = record {
  id = attr node "id";
  required_authority_id = referred (children node) "requiredAuthority";
  required_decision_id = referred (children node) "requiredDecision";
  required_input_id = referred (children node) "requiredInput";
}

-- the loop of `parseKnowledgeSource`
abbrev pub authority_cases : Cases (List AuthorityRequirement)
authority_cases =
    ("authorityRequirement", λ child found. push found (parse_authority_requirement child)) ∷ []

unfoldable pub parse_knowledge_source : OrderedNode → KnowledgeSource
unfolding attr for_each parse_authority_requirement
parse_knowledge_source node = record {
  id = attr_or_empty node "id";
  name = attr node "name";
  type = attr node "type";
  authority_requirements = for_each (switch authority_cases) (children node) [];
}

abbrev first_present : Option String → Option String → Option String
first_present (some a) b = some a
first_present none b = b

unfoldable pub parse_import : OrderedNode → Import
unfolding attr
parse_import node = record {
  id = attr node "id";
  namespace = attr_or_empty node "namespace";
  location_uri = first_present (attr node "locationURI") (attr node "locationUri");
  import_type = attr_or_empty node "importType";
}

-- The four lists of `parseDecisionService`.
pub record ServiceParts : Type 0 where
  pub output_decisions : List String
  pub encapsulated_decisions : List String
  pub input_decisions : List String
  pub input_data : List String

abbrev pub no_service_parts : ServiceParts
no_service_parts = record {
  output_decisions = [];
  encapsulated_decisions = [];
  input_decisions = [];
  input_data = [];
}

abbrev pub href_of : OrderedNode → Option String
href_of child = fragment_id_from_href (attr child "href")

-- `if (href === null) continue`, and then a push
abbrev pub push_some : List String → Option String → List String
push_some refs none = refs
push_some refs (some ref) = push refs ref

abbrev pub service_cases : Cases ServiceParts
service_cases =
    (
      "outputDecision",
      λ child s. record s { output_decisions = push_some s.output_decisions (href_of child) },
    )
    ∷ (
      "encapsulatedDecision",
      λ child s. record s {
        encapsulated_decisions = push_some s.encapsulated_decisions (href_of child);
      },
    )
    ∷ (
      "inputDecision",
      λ child s. record s { input_decisions = push_some s.input_decisions (href_of child) },
    )
    ∷ ("inputData", λ child s. record s { input_data = push_some s.input_data (href_of child) })
    ∷ []

unfoldable pub parse_decision_service : OrderedNode → DecisionService
unfolding attr for_each fragment_id_from_href
parse_decision_service node =
    let parts = for_each (switch service_cases) (children node) no_service_parts in
    record {
      id = attr_or_empty node "id";
      name = attr node "name";
      output_decisions = parts.output_decisions;
      encapsulated_decisions = parts.encapsulated_decisions;
      input_decisions = parts.input_decisions;
      input_data = parts.input_data;
    }

-- `const text = textContent(child); value = text !== '' ? text : null`, for each child of a tag
unfoldable pub last_text : String → Nodes → Option String → Option String
unfolding text_content
last_text tag nil found = found
last_text tag (cons child rest) found =
    last_text tag rest (if has_tag tag child then or_null (text_content child) else found)

unfoldable mutual
  unfolding attr last_text parse_is_collection

  pub parse_item_definition : OrderedNode → ItemDefinition
  parse_item_definition (element tag attributes kids) =
      let node = element tag attributes kids in
      item_definition (attr_or_empty node "id") (attr_or_empty node "name")
        (last_text "typeRef" kids none) (last_text "allowedValues" kids none) (item_components kids)
        (parse_is_collection (attr node "isCollection"))
  parse_item_definition (text s) =
      item_definition "" "" none none ItemDefinitions.nil (parse_is_collection none)

  pub item_components : Nodes → ItemDefinitions
  item_components nil = ItemDefinitions.nil
  item_components (cons child rest) =
      let later = item_components rest in
      if has_tag "itemComponent" child
      then ItemDefinitions.cons (parse_item_definition child) later
      else later

abbrev no_bounds : Bounds
no_bounds = record { x = "0"; y = "0"; width = "0"; height = "0" }

abbrev bounds_of : Option OrderedNode → Bounds
bounds_of none = no_bounds
bounds_of (some node) = parse_bounds node

unfoldable pub parse_dmn_shape : OrderedNode → Shape
unfolding attr find_element parse_bounds
parse_dmn_shape node = record {
  id = attr node "id";
  dmn_element_ref = attr_or_empty node "dmnElementRef";
  bounds = bounds_of (find_element (children node) "Bounds");
}

unfoldable pub parse_dmn_edge : OrderedNode → Edge
unfolding attr for_each parse_waypoint
parse_dmn_edge node = record {
  id = attr node "id";
  dmn_element_ref = attr_or_empty node "dmnElementRef";
  waypoints =
      for_each (switch (("waypoint", λ child found. push found (parse_waypoint child)) ∷ []))
        (children node) [];
}

-- The lists of `parseDMNDiagram`.
pub record DiagramParts : Type 0 where
  pub shapes : List Shape
  pub edges : List Edge

abbrev pub diagram_cases : Cases DiagramParts
diagram_cases =
    ("DMNShape", λ child s. record s { shapes = push s.shapes (parse_dmn_shape child) })
    ∷ ("DMNEdge", λ child s. record s { edges = push s.edges (parse_dmn_edge child) })
    ∷ []

unfoldable pub parse_dmn_diagram : OrderedNode → Diagram
unfolding attr for_each parse_dmn_shape parse_dmn_edge
parse_dmn_diagram node =
    let parts =
      for_each (switch diagram_cases) (children node) (record { shapes = []; edges = [] }) in
    record {
      id = attr node "id";
      name = attr node "name";
      shapes = parts.shapes;
      edges = parts.edges;
    }

unfoldable pub parse_dmndi : OrderedNode → Dmndi
unfolding for_each parse_dmn_diagram
parse_dmndi node = record {
  diagrams =
      for_each (switch (("DMNDiagram", λ child found. push found (parse_dmn_diagram child)) ∷ []))
        (children node) [];
}
