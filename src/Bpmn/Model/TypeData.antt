-- ===== src/Bpmn/Model/TypeData.antt =====
-- What each flow node type carries (packages/js/sdk/src/bpmn/model.ts). `event_definition` is
-- `none` where the program stores `undefined`; a form is the array that was read.
use bfw_engine.Common.{String, Bool, List, Option}
use bfw_engine.Json.{Json}
use bfw_engine.Bpmn.Scalars.{Integer}
use bfw_engine.Bpmn.Model.Definitions.{
  Mapping, SequenceFlow, DataObject, DataObjectReference, DataStoreReference,
}

pub data EventDefinition : Type 0 where
  no_event : EventDefinition
  message :
      (message_ref : Option String)
      → (correlation_retrieval_expression : Option String) → EventDefinition
  signal : (signal_ref : Option String) → EventDefinition
  timer : (time_date time_duration time_cycle : Option String) → EventDefinition
  error : (error_ref error_code error_message : Option String) → EventDefinition
  escalation : (escalation_ref escalation_code : Option String) → EventDefinition
  conditional : (condition_expression : Option String) → EventDefinition
  compensation : (activity_ref : Option String) → (wait_for_completion : Bool) → EventDefinition
  terminate cancel : EventDefinition
  link : (link_name : Option String) → EventDefinition

pub record Mappings : Type 0 where
  pub in_mappings : List Mapping
  pub out_mappings : List Mapping

pub record StartEventTypeData : Type 0 where
  pub event_definition : Option EventDefinition
  pub is_interrupting : Bool
  pub result_contract : Option Json

pub record EndEventTypeData : Type 0 where
  pub event_definition : Option EventDefinition
  pub in_mappings : List Mapping
  pub payload_contract : Option Json

pub record IntermediateCatchEventTypeData : Type 0 where
  pub event_definition : Option EventDefinition
  pub out_mappings : List Mapping
  pub result_contract : Option Json

pub record IntermediateThrowEventTypeData : Type 0 where
  pub event_definition : Option EventDefinition
  pub in_mappings : List Mapping
  pub payload_contract : Option Json

pub record BoundaryEventTypeData : Type 0 where
  pub event_definition : Option EventDefinition
  pub attached_to_ref : Option String
  pub cancel_activity : Bool
  pub compensation_handler_id : Option String
  pub out_mappings : List Mapping
  pub result_contract : Option Json

pub record UserTaskTypeData : Type 0 where
  pub form_fields : Option Json
  pub form_actions : Option Json
  pub assignees_expression : Option String
  pub payload_contract : Option Json
  pub result_contract : Option Json
  pub in_mappings : List Mapping
  pub out_mappings : List Mapping
  pub due_date : Option String
  pub priority : Option Integer

pub record ServiceTaskTypeData : Type 0 where
  pub implementation : Option String
  pub payload_contract : Option Json
  pub result_contract : Option Json
  pub in_mappings : List Mapping
  pub out_mappings : List Mapping
  pub http_url : Option String
  pub http_method : Option String
  pub http_body : Option String
  pub http_auth_header : Option String
  pub http_response_headers : Option String

pub record ManualTaskTypeData : Type 0 where
  pub require_confirmation : Bool

pub record ScriptTaskTypeData : Type 0 where
  pub script_format : Option String
  pub script : Option String
  pub script_ref : Option String
  pub payload_contract : Option Json
  pub result_contract : Option Json
  pub in_mappings : List Mapping
  pub out_mappings : List Mapping

pub record BusinessRuleTaskTypeData : Type 0 where
  pub implementation : Option String
  pub script : Option String
  pub decision_ref : Option String
  pub decision_element_id : Option String
  pub result_variable : Option String
  pub trace_unmatched_rules : Bool
  pub payload_contract : Option Json
  pub result_contract : Option Json
  pub in_mappings : List Mapping
  pub out_mappings : List Mapping

pub record SendTaskTypeData : Type 0 where
  pub message_ref : Option String
  pub payload_contract : Option Json
  pub correlation_retrieval_expression : Option String
  pub in_mappings : List Mapping
  pub out_mappings : List Mapping

pub record ReceiveTaskTypeData : Type 0 where
  pub message_ref : Option String
  pub result_contract : Option Json
  pub in_mappings : List Mapping
  pub out_mappings : List Mapping

pub record CallActivityTypeData : Type 0 where
  pub called_element : Option String
  pub start_event_id : Option String
  pub called_process_version : Option String
  pub in_mappings : List Mapping
  pub out_mappings : List Mapping

pub data Ordering : Type 0 where
  parallel sequential : Ordering

-- without the inner flow nodes
pub record SubProcessTypeData : Type 0 where
  pub triggered_by_event : Bool
  pub is_transaction : Bool
  pub transaction_method : Option String
  pub is_ad_hoc : Bool
  pub adhoc_ordering : Ordering
  pub cancel_remaining_instances : Bool
  pub adhoc_completion_condition : Option String
  pub implementation : Option String
  pub active_elements_expression : Option String
  pub sequence_flows : List SequenceFlow
  pub data_objects : List DataObject
  pub data_object_references : List DataObjectReference
  pub data_store_references : List DataStoreReference
  pub payload_contract : Option Json
  pub result_contract : Option Json
  pub in_mappings : List Mapping
  pub out_mappings : List Mapping
