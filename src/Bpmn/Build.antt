-- ===== src/Bpmn/Build.antt =====
-- `buildTypeData` of packages/js/sdk/src/bpmn/parser.ts and the builders that it calls. The inner
-- scope of a subprocess is read by the parser itself, and is handed in as a function of the
-- counter of generated ids.
pub mod Scopes
pub mod Tasks
use bfw_engine.Common.{
  String, Bool, true, false, List, [], ◌∷◌, Option, none, some, ℕ, not, ◌&&◌, ◌==◌, is, or_null,
  to_upper_case, if◌then◌else◌,
}
use bfw_engine.Json.{Json, is_array}
use bfw_engine.Xml.{
  OrderedNode, attr, child_text, text_content, find_element, get_extension_children,
}
use bfw_engine.Bpmn.Scalars.{parse_json_text, parse_int_value}
use bfw_engine.Bpmn.Model.{
  FlowNodeTypeData, FlowNodeType, from_list, BpmnProcess, start_event, end_event,
  intermediate_catch_event, intermediate_throw_event, boundary_event, task, user_task, service_task,
  manual_task, script_task, business_rule_task, send_task, receive_task, call_activity, sub_process,
  exclusive_gateway, parallel_gateway, inclusive_gateway, event_based_gateway, complex_gateway,
  Ordering, parallel, sequential,
}
use bfw_engine.Bpmn.Events.{parse_event_definition}
use bfw_engine.Bpmn.Leaves.{child_or_null, parse_mappings}
use bfw_engine.Bpmn.Linking.{apply_default_flows, link_boundary_refs}
use bfw_engine.Bpmn.Build.Tasks.{
  json_child, build_user_task, build_service_task, build_manual_task, build_script_task,
  build_business_rule_task, build_call_activity,
}
use bfw_engine.Bpmn.Build.Scopes.{Scope, inner_process}

-- `cancelAttr !== null ? cancelAttr !== 'false' : true`
abbrev cancel_remaining : Option String → Bool
cancel_remaining none = true
cancel_remaining (some value) = not (value == "false")

-- the text of `<completionCondition>`, or `null`
abbrev completion_condition : Option OrderedNode → Option String
completion_condition none = none
completion_condition (some node) = or_null (text_content node)

-- `buildSubProcessTypeData`, behind its loop over the children
unfoldable pub build_sub_process :
    OrderedNode → List OrderedNode → List OrderedNode → Option String → Scope → FlowNodeTypeData
unfolding attr child_text text_content find_element parse_json_text parse_mappings inner_process
    apply_default_flows link_boundary_refs
build_sub_process node kids ext_kids tag_name scope =
    let is_transaction = is tag_name "transaction" in
    let is_ad_hoc = is tag_name "adHocSubProcess" in
    let process =
      link_boundary_refs
        (apply_default_flows (inner_process node is_transaction is_ad_hoc scope) scope.defaults) in
    sub_process
      (record {
        triggered_by_event = is (attr node "triggeredByEvent") "true";
        is_transaction = is_transaction;
        transaction_method = if is_transaction then attr node "method" else none;
        is_ad_hoc = is_ad_hoc;
        adhoc_ordering =
            if is_ad_hoc && is (attr node "ordering") "Sequential" then sequential else parallel;
        cancel_remaining_instances =
            if is_ad_hoc then cancel_remaining (attr node "cancelRemainingInstances") else true;
        adhoc_completion_condition =
            if is_ad_hoc
            then completion_condition (find_element kids "completionCondition")
            else none;
        implementation = if is_ad_hoc then attr node "implementation" else none;
        active_elements_expression =
            if is_ad_hoc then child_or_null ext_kids "activeElements" else none;
        sequence_flows = process.sequence_flows;
        data_objects = process.data_objects;
        data_object_references = process.data_object_references;
        data_store_references = process.data_store_references;
        payload_contract = json_child ext_kids "payloadContract";
        result_contract = json_child ext_kids "resultContract";
        in_mappings = (parse_mappings ext_kids).in_mappings;
        out_mappings = (parse_mappings ext_kids).out_mappings;
      })
      (from_list process.flow_nodes)

-- The cases of `buildTypeData` but that of a subprocess.
unfoldable pub build_leaf :
    OrderedNode → List OrderedNode → List OrderedNode → FlowNodeType → FlowNodeTypeData
unfolding attr child_text parse_json_text parse_mappings parse_event_definition build_user_task
    build_service_task build_manual_task build_script_task build_business_rule_task
    build_call_activity
build_leaf node kids ext_kids FlowNodeType.start_event = start_event (record {
  event_definition = parse_event_definition kids;
  is_interrupting = not (is (attr node "isInterrupting") "false");
  result_contract = json_child ext_kids "resultContract";
})
build_leaf node kids ext_kids FlowNodeType.end_event = end_event (record {
  event_definition = parse_event_definition kids;
  in_mappings = (parse_mappings ext_kids).in_mappings;
  payload_contract = json_child ext_kids "payloadContract";
})
build_leaf node kids ext_kids FlowNodeType.intermediate_catch_event =
    intermediate_catch_event (record {
      event_definition = parse_event_definition kids;
      out_mappings = (parse_mappings ext_kids).out_mappings;
      result_contract = json_child ext_kids "resultContract";
    })
build_leaf node kids ext_kids FlowNodeType.intermediate_throw_event =
    intermediate_throw_event (record {
      event_definition = parse_event_definition kids;
      in_mappings = (parse_mappings ext_kids).in_mappings;
      payload_contract = json_child ext_kids "payloadContract";
    })
build_leaf node kids ext_kids FlowNodeType.boundary_event = boundary_event (record {
  event_definition = parse_event_definition kids;
  attached_to_ref = attr node "attachedToRef";
  cancel_activity = not (is (attr node "cancelActivity") "false");
  compensation_handler_id = none;
  out_mappings = (parse_mappings ext_kids).out_mappings;
  result_contract = json_child ext_kids "resultContract";
})
build_leaf node kids ext_kids FlowNodeType.user_task = build_user_task ext_kids
build_leaf node kids ext_kids FlowNodeType.service_task = build_service_task node ext_kids
build_leaf node kids ext_kids FlowNodeType.manual_task = build_manual_task ext_kids
build_leaf node kids ext_kids FlowNodeType.script_task = build_script_task node kids ext_kids
build_leaf node kids ext_kids FlowNodeType.business_rule_task =
    build_business_rule_task node kids ext_kids
build_leaf node kids ext_kids FlowNodeType.send_task = send_task (record {
  message_ref = attr node "messageRef";
  payload_contract = json_child ext_kids "payloadContract";
  correlation_retrieval_expression = child_or_null ext_kids "correlationRetrievalExpression";
  in_mappings = (parse_mappings ext_kids).in_mappings;
  out_mappings = (parse_mappings ext_kids).out_mappings;
})
build_leaf node kids ext_kids FlowNodeType.receive_task = receive_task (record {
  message_ref = attr node "messageRef";
  result_contract = json_child ext_kids "resultContract";
  in_mappings = (parse_mappings ext_kids).in_mappings;
  out_mappings = (parse_mappings ext_kids).out_mappings;
})
build_leaf node kids ext_kids FlowNodeType.call_activity = build_call_activity node ext_kids
build_leaf node kids ext_kids FlowNodeType.exclusive_gateway = exclusive_gateway none
build_leaf node kids ext_kids FlowNodeType.parallel_gateway = parallel_gateway
build_leaf node kids ext_kids FlowNodeType.inclusive_gateway = inclusive_gateway none
build_leaf node kids ext_kids FlowNodeType.event_based_gateway = event_based_gateway
build_leaf node kids ext_kids FlowNodeType.complex_gateway =
    complex_gateway (child_or_null kids "activationCondition")
build_leaf node kids ext_kids _ = task

-- `buildTypeData`: only a subprocess reads its inner scope, and with it moves the counter.
unfoldable pub build_type_data :
    OrderedNode
    → List OrderedNode
    → FlowNodeType
    → Option String
    → (ℕ → Scope × ℕ)
    → ℕ
    → FlowNodeTypeData × ℕ
unfolding build_leaf build_sub_process get_extension_children
build_type_data node kids FlowNodeType.sub_process tag_name inner counter =
    let (scope, counter') = inner counter in
    (build_sub_process node kids (get_extension_children kids) tag_name scope, counter')
build_type_data node kids type tag_name inner counter =
    (build_leaf node kids (get_extension_children kids) type, counter)
