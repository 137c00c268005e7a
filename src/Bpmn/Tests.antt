-- ===== src/Bpmn/Tests.antt =====
-- Concrete diagrams for packages/js/sdk/src/bpmn/parser.ts.
mod Linking
mod Extensions
use bfw_engine.Common.{
  String, Bool, true, false, List, [], ◌∷◌, ◌++◌, none, some, ◌≡◌, ◌↔◌, refl, map, has, is_some,
}
use bfw_engine.Xml.{tree, unreadable, OrderedNode, Nodes, element, text, nil, cons}
use bfw_engine.Bpmn.Elements.{flow_node_elements}
use bfw_engine.Bpmn.Elements.Totality.{flow_node_type-total}
use bfw_engine.Bpmn.Model.{
  FlowNode, flow_node, FlowNodeType, NodeFields, node_fields, BoundaryEventTypeData, boundary_event,
  task, exclusive_gateway, BpmnProcess, BpmnDefinitions, SequenceFlow, Association, Lane,
}
use bfw_engine.Bpmn.Linking.{apply_default_flows, link_boundary_refs, link_compensation_handlers}
use bfw_engine.Bpmn.Linking.Boundaries.{with_refs, link_boundary_refs_lem}
use bfw_engine.Bpmn.Linking.Defaults.{with_default, with_mark, apply_default_flows_lem}
use bfw_engine.Bpmn.Linking.Handlers.{relink, link_compensation_handlers_lem}
use bfw_engine.Bpmn.Collect.{collect_lanes_deep, collect_associations_deep, collect_linter_scores}
use bfw_engine.Bpmn.Collect.Order.{
  lanes_below, associations_below, scores_below, collect_lanes_deep-post_order,
  collect_associations_deep-document_order, collect_linter_scores-document_order,
}
use bfw_engine.Bpmn.Build.Scopes.{flow_node_type}
use bfw_engine.Bpmn.Events.{parse_event_definition}
use bfw_engine.Bpmn.Events.Undefined.{ReadsInherited, parse_event_definition-eq-none_iff}
use bfw_engine.Bpmn.Leaves.{parse_association_element, parse_lane, parse_sequence_flow}
use bfw_engine.Bpmn.FlowNodes.{parse_flow_node}
use bfw_engine.Bpmn.FlowNodes.References.{HasReferences, parse_flow_node-HasReferences}
use bfw_engine.Bpmn.Processes.{parse_process}
use bfw_engine.Bpmn.Processes.WellFormed.{IsFormedProcess, parse_process-IsFormed}
use bfw_engine.Bpmn.Doctype.{has_doctype}
use bfw_engine.Bpmn.Doctype.Occurrence.{HasDoctype, has_doctype-eq-true_iff}
use bfw_engine.Bpmn.Document.{XmlLibrary, parsed, thrown, parse_bpmn, parse_definitions}
use bfw_engine.Bpmn.Document.Branches.{
  IsRefused, IsParse, parse_bpmn-thrown_iff, parse_bpmn-IsParse,
}
use bfw_engine.Bpmn.Document.Contents.{HasDefinitions, parse_definitions-HasDefinitions}

-- An element by its id, further attributes and children.
abbrev node : String → String → List (String × String) → Nodes → OrderedNode
node tag id attributes kids = element tag (("@_id", id) ∷ attributes) kids

abbrev leaf : String → String → OrderedNode
leaf tag content = element tag [] (cons (text content) nil)

abbrev nodes_of : List OrderedNode → Nodes
nodes_of [] = nil
nodes_of (n ∷ ns) = cons n (nodes_of ns)

abbrev gateway : OrderedNode
gateway =
    node "exclusiveGateway" "split" (("@_default", "to_pay") ∷ [])
      (nodes_of (leaf "incoming" "from_start" ∷ leaf "outgoing" "to_pay" ∷ []))

abbrev boundary : String → String → OrderedNode
boundary id host =
    node "boundaryEvent" id (("@_attachedToRef", host) ∷ [])
      (nodes_of (node "timerEventDefinition" "timer" [] nil ∷ []))

abbrev block : OrderedNode
block =
    node "subProcess" "block" []
      (nodes_of (node "userTask" "review" [] nil ∷ boundary "late" "review" ∷ []))

abbrev lane_set : OrderedNode
lane_set = element "laneSet" [] (
    nodes_of (
      node "lane" "outer" []
        (nodes_of (element "childLaneSet" [] (nodes_of (node "lane" "inner" [] nil ∷ [])) ∷ []))
      ∷ []))

abbrev flow : String → String → String → OrderedNode
flow id source target =
    node "sequenceFlow" id (("@_sourceRef", source) ∷ ("@_targetRef", target) ∷ []) nil

abbrev compensation : OrderedNode
compensation =
    node "association" "undo" (("@_sourceRef", "first") ∷ ("@_targetRef", "refund") ∷ []) nil

abbrev order_process : OrderedNode
order_process = node "process" "order" [] (
    nodes_of (
      node "startEvent" "start" [] nil
      ∷ gateway
      ∷ node "task" "pay" [] nil
      ∷ boundary "first" "pay"
      ∷ boundary "second" "pay"
      ∷ block
      ∷ flow "from_start" "start" "split"
      ∷ flow "to_pay" "split" "pay"
      ∷ lane_set
      ∷ compensation
      ∷ []))

abbrev linter_report : OrderedNode
linter_report = element "extensionElements" [] (
    nodes_of (
      element "linterRulesetScore" (("@_rulesetId", "strict") ∷ ("@_scorePercent", "92.5") ∷ []) nil
      ∷ []))

abbrev order_definitions : OrderedNode
order_definitions =
    node "definitions" "orders" []
      (nodes_of (node "message" "paid" [] nil ∷ linter_report ∷ order_process ∷ []))

abbrev boundary_refs : FlowNode → String × List String
boundary_refs n = ((node_fields n).id, (node_fields n).boundary_event_refs)

links_the_order :
    map boundary_refs (parse_process order_process 0).0.flow_nodes
    ≡ ("start", [])
      ∷ ("split", [])
      ∷ ("pay", "second" ∷ "first" ∷ [])
      ∷ ("first", [])
      ∷ ("second", [])
      ∷ ("block", [])
      ∷ []
unfolding parse_process parse_association_element
links_the_order = refl

abbrev marking : SequenceFlow → String × Bool
marking f = (f.id, f.is_default)

marks_the_default :
    map marking (parse_process order_process 0).0.sequence_flows
    ≡ ("from_start", false) ∷ ("to_pay", true) ∷ []
unfolding parse_process parse_association_element parse_sequence_flow
marks_the_default = refl

lists_inner_lanes_first :
    map (λ (l : Lane). l.id) (parse_process order_process 0).0.lanes ≡ "inner" ∷ "outer" ∷ []
unfolding parse_process parse_association_element parse_lane
lists_inner_lanes_first = refl

reads_constructor : parse_event_definition (element "constructor" [] nil ∷ []) ≡ none
unfolding parse_event_definition
reads_constructor = refl

parse_process-IsFormed_example : IsFormedProcess (parse_process order_process 0).0
parse_process-IsFormed_example = parse_process-IsFormed order_process 0

parse_definitions-HasDefinitions_example :
    HasDefinitions order_definitions (parse_definitions order_definitions "<definitions/>" 0).0
parse_definitions-HasDefinitions_example =
    parse_definitions-HasDefinitions order_definitions "<definitions/>" 0

-- A library that passes every text and finds the order in it.
abbrev accepting : XmlLibrary
accepting = record { validate = λ xml. none; parse = λ xml. tree (order_definitions ∷ []) }

abbrev refusing : XmlLibrary
refusing = record {
  validate = λ xml. some (record { msg = "unclosed tag"; line = 3; col = some 7 });
  parse = λ xml. tree [];
}

reports_the_position :
    (parse_bpmn refusing "<a>" 0).0 ≡ thrown "Malformed BPMN XML at line 3, column 7: unclosed tag"
unfolding parse_bpmn
reports_the_position = refl

-- A library whose parser does not take what the validator passes.
abbrev throwing : XmlLibrary
throwing = record { validate = λ xml. none; parse = λ xml. unreadable "Comment is not closed." }

passes_the_error_on : (parse_bpmn throwing "<a/><!--" 0).0 ≡ thrown "Comment is not closed."
unfolding parse_bpmn
passes_the_error_on = refl

refuses_a_doctype :
    (parse_bpmn accepting "<!DoctypE a><a/>" 0).0
    ≡ thrown "DOCTYPE declarations are not allowed in BPMN files."
unfolding parse_bpmn
refuses_a_doctype = refl

abbrev orders : BpmnDefinitions
orders = (parse_definitions order_definitions "<!-- <!DOCTYPE --><definitions/>" 0).0

accepts_the_order : (parse_bpmn accepting "<!-- <!DOCTYPE --><definitions/>" 0).0 ≡ parsed orders
unfolding parse_bpmn
accepts_the_order = refl

parse_bpmn-IsParse_example :
    (¬ IsRefused accepting "<!-- <!DOCTYPE --><definitions/>")
    × IsParse "<!-- <!DOCTYPE --><definitions/>" orders
parse_bpmn-IsParse_example =
    parse_bpmn-IsParse accepting "<!-- <!DOCTYPE --><definitions/>" 0 accepts_the_order

parse_bpmn-thrown_iff_example :
    ((m : String) × ((parse_bpmn throwing "<a/><!--" 0).0 ≡ thrown m))
    ↔ IsRefused throwing "<a/><!--"
parse_bpmn-thrown_iff_example = parse_bpmn-thrown_iff throwing "<a/><!--" 0

collect_lanes_deep-post_order_example :
    collect_lanes_deep order_process [] ≡ [] ++ lanes_below order_process
collect_lanes_deep-post_order_example = collect_lanes_deep-post_order order_process []

collect_associations_deep-document_order_example :
    collect_associations_deep order_process [] ≡ [] ++ associations_below order_process
collect_associations_deep-document_order_example =
    collect_associations_deep-document_order order_process []

collect_linter_scores-document_order_example :
    collect_linter_scores linter_report [] ≡ [] ++ scores_below linter_report
collect_linter_scores-document_order_example = collect_linter_scores-document_order linter_report []

parse_event_definition-eq-none_iff_example :
    (parse_event_definition (element "constructor" [] nil ∷ []) ≡ none)
    ↔ ReadsInherited (element "constructor" [] nil ∷ [])
parse_event_definition-eq-none_iff_example =
    parse_event_definition-eq-none_iff (element "constructor" [] nil ∷ [])

flow_node_type-total_example :
    is_some (flow_node_type "userTask") ≡ has "userTask" flow_node_elements
flow_node_type-total_example = (flow_node_type-total "userTask").1

parse_flow_node-HasReferences_example :
    HasReferences gateway
      (node_fields (parse_flow_node gateway FlowNodeType.exclusive_gateway 0).0).incoming
      (node_fields (parse_flow_node gateway FlowNodeType.exclusive_gateway 0).0).outgoing
parse_flow_node-HasReferences_example =
    parse_flow_node-HasReferences gateway FlowNodeType.exclusive_gateway 0

has_doctype-eq-true_iff_example :
    (has_doctype "<a/><!docType b>" ≡ true) ↔ HasDoctype "<a/><!docType b>"
has_doctype-eq-true_iff_example = has_doctype-eq-true_iff "<a/><!docType b>"
