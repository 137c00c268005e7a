-- ===== src/Bpmn/Build/Tasks.antt =====
-- The builders of the task types and of call activities
-- (packages/js/sdk/src/bpmn/parser.ts).
use bfw_engine.Common.{
  String, List, Option, none, some, ◌==◌, or_null, to_upper_case, if◌then◌else◌,
}
use bfw_engine.Json.{Json, is_array}
use bfw_engine.Xml.{OrderedNode, attr, child_text}
use bfw_engine.Bpmn.Scalars.{parse_json_text, parse_int_value}
use bfw_engine.Bpmn.Model.{
  FlowNodeTypeData, user_task, service_task, manual_task, script_task, business_rule_task,
  call_activity,
}
use bfw_engine.Bpmn.Leaves.{child_or_null, parse_mappings}

-- `parseJsonText(childText(kids, tag))`
abbrev pub json_child : List OrderedNode → String → Option Json
json_child kids tag = parse_json_text (child_text kids tag)

-- `Array.isArray(raw) ? raw : null`
abbrev array_or_null : Option Json → Option Json
array_or_null none = none
array_or_null (some v) = if is_array v then some v else none

unfoldable pub build_user_task : List OrderedNode → FlowNodeTypeData
unfolding child_text parse_json_text parse_int_value parse_mappings
build_user_task ext_kids = user_task (record {
  form_fields = array_or_null (json_child ext_kids "formFields");
  form_actions = array_or_null (json_child ext_kids "formActions");
  assignees_expression = child_or_null ext_kids "assignees";
  payload_contract = json_child ext_kids "payloadContract";
  result_contract = json_child ext_kids "resultContract";
  in_mappings = (parse_mappings ext_kids).in_mappings;
  out_mappings = (parse_mappings ext_kids).out_mappings;
  due_date = child_or_null ext_kids "dueDate";
  priority = parse_int_value (child_text ext_kids "priority");
})

unfoldable pub build_service_task : OrderedNode → List OrderedNode → FlowNodeTypeData
unfolding attr child_text parse_json_text parse_mappings to_upper_case
build_service_task node ext_kids = service_task (record {
  implementation = attr node "implementation";
  payload_contract = json_child ext_kids "payloadContract";
  result_contract = json_child ext_kids "resultContract";
  in_mappings = (parse_mappings ext_kids).in_mappings;
  out_mappings = (parse_mappings ext_kids).out_mappings;
  http_url = child_or_null ext_kids "httpUrl";
  http_method = or_null (to_upper_case (child_text ext_kids "httpMethod"));
  http_body = child_or_null ext_kids "httpBody";
  http_auth_header = child_or_null ext_kids "httpAuthHeader";
  http_response_headers = child_or_null ext_kids "httpResponseHeaders";
})

unfoldable pub build_manual_task : List OrderedNode → FlowNodeTypeData
unfolding child_text
build_manual_task ext_kids =
    manual_task
      (record { require_confirmation = child_text ext_kids "requireConfirmation" == "true" })

unfoldable pub build_script_task :
    OrderedNode → List OrderedNode → List OrderedNode → FlowNodeTypeData
unfolding attr child_text parse_json_text parse_mappings
build_script_task node kids ext_kids = script_task (record {
  script_format = attr node "scriptFormat";
  script = child_or_null kids "script";
  script_ref = child_or_null ext_kids "scriptRef";
  payload_contract = json_child ext_kids "payloadContract";
  result_contract = json_child ext_kids "resultContract";
  in_mappings = (parse_mappings ext_kids).in_mappings;
  out_mappings = (parse_mappings ext_kids).out_mappings;
})

-- `a ?? b`
abbrev first_present : Option String → Option String → Option String
first_present (some a) b = some a
first_present none b = b

unfoldable pub build_business_rule_task :
    OrderedNode → List OrderedNode → List OrderedNode → FlowNodeTypeData
unfolding attr child_text parse_json_text parse_mappings
build_business_rule_task node kids ext_kids = business_rule_task (record {
  implementation =
      first_present (attr node "implementation") (child_or_null ext_kids "implementation");
  script = child_or_null kids "script";
  decision_ref = child_or_null ext_kids "decisionRef";
  decision_element_id = child_or_null ext_kids "decisionElementId";
  result_variable = child_or_null ext_kids "resultVariable";
  trace_unmatched_rules = child_text ext_kids "traceUnmatchedRules" == "true";
  payload_contract = json_child ext_kids "payloadContract";
  result_contract = json_child ext_kids "resultContract";
  in_mappings = (parse_mappings ext_kids).in_mappings;
  out_mappings = (parse_mappings ext_kids).out_mappings;
})

unfoldable pub build_call_activity : OrderedNode → List OrderedNode → FlowNodeTypeData
unfolding attr child_text parse_mappings
build_call_activity node ext_kids = call_activity (record {
  called_element = attr node "calledElement";
  start_event_id = child_or_null ext_kids "startEventId";
  called_process_version = child_or_null ext_kids "calledProcessVersion";
  in_mappings = (parse_mappings ext_kids).in_mappings;
  out_mappings = (parse_mappings ext_kids).out_mappings;
})
