-- ===== src/Bpmn/Linking.antt =====
-- The passes of packages/js/sdk/src/bpmn/parser.ts that run over a process once its elements are
-- read: default flows, boundary event references and compensation handlers.
pub mod Boundaries
pub mod Handlers
pub mod Defaults
use bfw_engine.Common.{
  String, Bool, true, false, List, [], ◌∷◌, ◌++◌, Option, none, some, map, reverse, or_default, has,
  lookup, set, values, is_empty, if◌then◌else◌,
}
use bfw_engine.Bpmn.Model.{
  FlowNode, flow_node, FlowNodeTypeData, FlowNodeType, FlowNodes, NodeFields, node_fields,
  boundary_event, exclusive_gateway, inclusive_gateway, sub_process, SequenceFlow, Association,
  BpmnProcess, BoundaryEventTypeData,
}

unfoldable pub apply_default_to_type_data : FlowNode → String → FlowNode
apply_default_to_type_data (flow_node fields (exclusive_gateway _)) ref =
    flow_node fields (exclusive_gateway (some ref))
apply_default_to_type_data (flow_node fields (inclusive_gateway _)) ref =
    flow_node fields (inclusive_gateway (some ref))
apply_default_to_type_data (flow_node fields td) ref = flow_node fields td

-- the first loop of `applyDefaultFlows`
unfoldable pub apply_default : List (String × String) → FlowNode → FlowNode
unfolding apply_default_to_type_data
apply_default defaults node = elim (lookup (node_fields node).id defaults) [
  | none ↦ node
  | some ref ↦ apply_default_to_type_data node ref
]

-- the second loop
unfoldable pub mark_default : List String → SequenceFlow → SequenceFlow
mark_default ids flow = if has flow.id ids then record flow { is_default = true } else flow

unfoldable pub apply_default_flows : BpmnProcess → List (String × String) → BpmnProcess
unfolding apply_default mark_default
apply_default_flows process defaults = if is_empty defaults then process else record process {
  flow_nodes = map (apply_default defaults) process.flow_nodes;
  sequence_flows = map (mark_default (values defaults)) process.sequence_flows;
}

-- `node.type === FlowNodeType.BoundaryEvent`
abbrev pub is_boundary_type : FlowNodeType → Bool
is_boundary_type FlowNodeType.boundary_event = true
is_boundary_type _ = false

-- `(typeData as BoundaryEventTypeData).attachedToRef`. The cast is unchecked: on other type data
-- the program would read `undefined`.
abbrev pub attached_to_ref : FlowNodeTypeData → Option String
attached_to_ref (boundary_event b) = b.attached_to_ref
attached_to_ref _ = none

-- The id that a boundary event is attached to, if the loop of `linkBoundaryRefs` records it.
unfoldable pub attachment : FlowNode → Option String
attachment (flow_node fields td) = if is_boundary_type fields.type then attached_to_ref td else none

-- `boundaryMap.get(attachedTo) ?? []`, pushed to and set
unfoldable pub add_attached :
    Option String → String → List (String × List String) → List (String × List String)
add_attached none id found = found
add_attached (some host) id found = set host (or_default (lookup host found) [] ++ id ∷ []) found

boundary_map_from : List (String × List String) → List FlowNode → List (String × List String)
unfolding add_attached
boundary_map_from found [] = found
boundary_map_from found (node ∷ rest) =
    boundary_map_from (add_attached (attachment node) (node_fields node).id found) rest

unfoldable pub boundary_map : List FlowNode → List (String × List String)
unfolding boundary_map_from attachment
boundary_map flow_nodes = boundary_map_from [] (reverse flow_nodes)

-- the last loop of `linkBoundaryRefs`
unfoldable pub link_refs : List (String × List String) → FlowNode → FlowNode
link_refs found (flow_node fields td) = elim (lookup fields.id found) [
  | none ↦ flow_node fields td
  | some refs ↦ flow_node (record fields { boundary_event_refs = refs }) td
]

unfoldable pub link_boundary_refs : BpmnProcess → BpmnProcess
unfolding boundary_map link_refs
link_boundary_refs process =
    let found = boundary_map process.flow_nodes in
    if is_empty found
    then process
    else record process { flow_nodes = map (link_refs found) process.flow_nodes }

-- `if (sourceRef !== null && targetRef !== null) handlerBySource.set(sourceRef, targetRef)`
abbrev pub add_handler :
    Option String → Option String → List (String × String) → List (String × String)
add_handler (some source) (some target) found = set source target found
add_handler _ _ found = found

handlers_from : List (String × String) → List Association → List (String × String)
handlers_from found [] = found
handlers_from found (a ∷ rest) = handlers_from (add_handler a.source_ref a.target_ref found) rest

unfoldable pub handler_by_source : List Association → List (String × String)
unfolding handlers_from
handler_by_source associations = handlers_from [] associations

abbrev pub set_handler : Option String → BoundaryEventTypeData → BoundaryEventTypeData
set_handler none b = b
set_handler (some handler) b = record b { compensation_handler_id = some handler }

-- `visit`
unfoldable mutual
  pub visit : List (String × String) → FlowNode → FlowNode
  visit handlers (flow_node fields td) = flow_node fields (visit_data handlers fields td)

  pub visit_data : List (String × String) → NodeFields → FlowNodeTypeData → FlowNodeTypeData
  visit_data handlers fields (boundary_event b) =
      boundary_event (set_handler (lookup fields.id handlers) b)
  visit_data handlers fields (sub_process d inner) = sub_process d (visit_all handlers inner)
  visit_data handlers fields td = td

  pub visit_all : List (String × String) → FlowNodes → FlowNodes
  visit_all handlers FlowNodes.nil = FlowNodes.nil
  visit_all handlers (FlowNodes.cons node rest) =
      FlowNodes.cons (visit handlers node) (visit_all handlers rest)

unfoldable pub link_compensation_handlers : List FlowNode → List Association → List FlowNode
unfolding handler_by_source visit
link_compensation_handlers flow_nodes associations =
    if is_empty associations
    then flow_nodes
    else map (visit (handler_by_source associations)) flow_nodes
