-- ===== src/Bpmn/Tests/Linking.antt =====
-- A small process for the linking passes of packages/js/sdk/src/bpmn/parser.ts.
use bfw_engine.Common.{String, true, false, List, [], ◌∷◌, none, some, ◌≡◌, refl, map}
use bfw_engine.Bpmn.Model.{
  FlowNode, flow_node, FlowNodeType, NodeFields, BoundaryEventTypeData, boundary_event, task,
  exclusive_gateway, BpmnProcess, SequenceFlow, Association,
}
use bfw_engine.Bpmn.Linking.{apply_default_flows, link_boundary_refs}
use bfw_engine.Bpmn.Linking.Boundaries.{with_refs, link_boundary_refs_lem}
use bfw_engine.Bpmn.Linking.Defaults.{with_default, with_mark, apply_default_flows_lem}

abbrev fields : String → FlowNodeType → NodeFields
fields id type = record {
  id = id;
  name = none;
  type = type;
  incoming = [];
  outgoing = [];
  boundary_event_refs = [];
  data_input_associations = [];
  data_output_associations = [];
  multi_instance = none;
  standard_loop = none;
  is_for_compensation = false;
  documentation = none;
}

abbrev boundary_data : BoundaryEventTypeData
boundary_data = record {
  event_definition = none;
  attached_to_ref = some "pay";
  cancel_activity = true;
  compensation_handler_id = none;
  out_mappings = [];
  result_contract = none;
}

abbrev paying : List FlowNode
paying =
    flow_node (fields "split" FlowNodeType.exclusive_gateway) (exclusive_gateway none)
    ∷ flow_node (fields "pay" FlowNodeType.task) task
    ∷ flow_node (fields "first" FlowNodeType.boundary_event) (boundary_event boundary_data)
    ∷ []

abbrev to_pay : SequenceFlow
to_pay = record {
  id = "to_pay";
  name = none;
  source_ref = "split";
  target_ref = "pay";
  condition_expression = none;
  is_default = false;
}

abbrev paying_process : BpmnProcess
paying_process = record {
  id = "paying";
  name = none;
  version = none;
  is_executable = true;
  is_transaction_scope = false;
  is_ad_hoc_scope = false;
  correlation_key = none;
  flow_nodes = paying;
  sequence_flows = to_pay ∷ [];
  lanes = [];
  data_objects = [];
  data_object_references = [];
  data_stores = [];
  data_store_references = [];
  associations = [];
  extensions = [];
}

link_boundary_refs_lem_example :
    link_boundary_refs paying_process
    ≡ record paying_process { flow_nodes = map (with_refs paying) paying }
link_boundary_refs_lem_example = link_boundary_refs_lem paying_process (refl, (refl, (refl, tt)))

apply_default_flows_lem_example :
    apply_default_flows paying_process (("split", "to_pay") ∷ []) ≡ record paying_process {
      flow_nodes = map (with_default (("split", "to_pay") ∷ [])) paying;
      sequence_flows = map (with_mark (("split", "to_pay") ∷ [])) (to_pay ∷ []);
    }
apply_default_flows_lem_example = apply_default_flows_lem paying_process (("split", "to_pay") ∷ [])

abbrev undo : Association
undo = record {
  id = "undo";
  source_ref = some "first";
  target_ref = some "refund";
  association_direction = none;
}
