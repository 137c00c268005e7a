-- ===== src/Bpmn/Formed.antt =====
-- Well-formed flow nodes of the BPMN model (packages/js/sdk/src/bpmn/model.ts), as the engine
-- expects them from packages/js/sdk/src/bpmn/parser.ts.
pub mod Kept
use bfw_engine.Common.{String, List, [], ◌∷◌, ◌≡◌, All}
use bfw_engine.Bpmn.Model.{
  FlowNode, flow_node, FlowNodeType, FlowNodeTypeData, FlowNodes, node_fields, nodes, start_event,
  end_event, intermediate_catch_event, intermediate_throw_event, boundary_event, task, user_task,
  service_task, manual_task, script_task, business_rule_task, send_task, receive_task,
  call_activity, sub_process, exclusive_gateway, parallel_gateway, inclusive_gateway,
  event_based_gateway, complex_gateway,
}
use bfw_engine.Bpmn.Linking.Boundaries.{node_id, attached_ids}

-- The `type` tag of type data.
abbrev pub kind : FlowNodeTypeData → FlowNodeType
kind (start_event _) = FlowNodeType.start_event
kind (end_event _) = FlowNodeType.end_event
kind (intermediate_catch_event _) = FlowNodeType.intermediate_catch_event
kind (intermediate_throw_event _) = FlowNodeType.intermediate_throw_event
kind (boundary_event _) = FlowNodeType.boundary_event
kind task = FlowNodeType.task
kind (user_task _) = FlowNodeType.user_task
kind (service_task _) = FlowNodeType.service_task
kind (manual_task _) = FlowNodeType.manual_task
kind (script_task _) = FlowNodeType.script_task
kind (business_rule_task _) = FlowNodeType.business_rule_task
kind (send_task _) = FlowNodeType.send_task
kind (receive_task _) = FlowNodeType.receive_task
kind (call_activity _) = FlowNodeType.call_activity
kind (sub_process _ _) = FlowNodeType.sub_process
kind (exclusive_gateway _) = FlowNodeType.exclusive_gateway
kind parallel_gateway = FlowNodeType.parallel_gateway
kind (inclusive_gateway _) = FlowNodeType.inclusive_gateway
kind event_based_gateway = FlowNodeType.event_based_gateway
kind (complex_gateway _) = FlowNodeType.complex_gateway

-- Each node of a scope lists the boundary events of that scope that are attached to it, the last
-- one of the document first.
abbrev pub IsLinked : List FlowNode → Type 0
IsLinked ns = All (λ n. (node_fields n).boundary_event_refs ≡ attached_ids ns (node_id n)) ns

-- The type data of a node is that of its type, and so it is at every depth, where the scopes of
-- subprocesses are linked.
abbrev mutual
  pub IsFormed : FlowNode → Type 0
  IsFormed (flow_node fields td) = (kind td ≡ fields.type) × IsFormedInside td

  pub IsFormedInside : FlowNodeTypeData → Type 0
  IsFormedInside (sub_process _ inner) = IsFormedEach inner × IsLinked (nodes inner)
  IsFormedInside _ = Unit

  pub IsFormedEach : FlowNodes → Type 0
  IsFormedEach FlowNodes.nil = Unit
  IsFormedEach (FlowNodes.cons node rest) = IsFormed node × IsFormedEach rest
