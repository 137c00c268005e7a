-- ===== src/Bpmn/Model/Definitions.antt =====
-- The parts of the model that hold no flow node (packages/js/sdk/src/bpmn/model.ts) and the flow
-- node types (packages/js/sdk/src/types/enums.ts).
use bfw_engine.Common.{String, Bool, List, Option}
use bfw_engine.Json.{Json}
use bfw_engine.Bpmn.Scalars.{Integer}

pub data FlowNodeType : Type 0 where
  start_event end_event task user_task service_task manual_task script_task : FlowNodeType
  business_rule_task send_task receive_task call_activity sub_process : FlowNodeType
  exclusive_gateway parallel_gateway inclusive_gateway event_based_gateway : FlowNodeType
  complex_gateway intermediate_catch_event intermediate_throw_event boundary_event : FlowNodeType

pub record MessageDefinition : Type 0 where
  pub id : String
  pub name : Option String

pub record SignalDefinition : Type 0 where
  pub id : String
  pub name : Option String

pub record ErrorDefinition : Type 0 where
  pub id : String
  pub name : Option String
  pub error_code : Option String

pub record EscalationDefinition : Type 0 where
  pub id : String
  pub name : Option String
  pub escalation_code : Option String

pub record SequenceFlow : Type 0 where
  pub id : String
  pub name : Option String
  pub source_ref : String
  pub target_ref : String
  pub condition_expression : Option String
  pub is_default : Bool

pub record Lane : Type 0 where
  pub id : String
  pub name : Option String
  pub flow_node_refs : List String

pub record Association : Type 0 where
  pub id : String
  pub source_ref : Option String
  pub target_ref : Option String
  pub association_direction : Option String

pub record DataObject : Type 0 where
  pub id : String
  pub name : Option String
  pub item_subject_ref : Option String
  pub value_contract : Option Json

pub record DataObjectReference : Type 0 where
  pub id : String
  pub name : Option String
  pub data_object_ref : Option String
  pub data_state : Option String

pub record DataStore : Type 0 where
  pub id : String
  pub name : Option String
  pub capacity : Option Integer
  pub is_unlimited : Bool
  pub item_subject_ref : Option String

pub record DataStoreReference : Type 0 where
  pub id : String
  pub name : Option String
  pub data_store_ref : Option String
  pub data_state : Option String

pub record DataAssociation : Type 0 where
  pub id : String
  pub source_ref : Option String
  pub target_ref : Option String
  pub value_expression : Option String

-- The parser never builds one: `extensions` is always empty.
mutual
  pub data Extension : Type 0 where
    extension :
        (key : String)
        → (value : Option String) → (attributes : List (String × String)) → Extensions
        → Extension

  pub data Extensions : Type 0 where
    nil : Extensions
    cons : Extension → Extensions → Extensions

-- Numbers are kept as the numerals that were read.
pub record LinterRulesetScore : Type 0 where
  pub ruleset_id : String
  pub score_percent : Option String
  pub compliance_status : Option String
  pub computed_at_iso : Option String
  pub schema_version : Option String
  pub max_points : Option String
  pub penalty_points : Option String
  pub raw_error_findings : Option String
  pub raw_warning_findings : Option String

pub record MultiInstance : Type 0 where
  pub is_sequential : Bool
  pub collection_expression : Option String
  pub element_variable : Option String
  pub completion_condition : Option String
  pub output_collection : Option String
  pub output_element_variable : Option String
  pub loop_break_condition : Option String
  pub loop_interval : Option String
  pub max_iterations : Option Integer
  pub loop_cardinality : Option String

pub record StandardLoop : Type 0 where
  pub test_before : Bool
  pub loop_condition : Option String
  pub loop_maximum : Option Integer
  pub loop_interval : Option String

pub record Mapping : Type 0 where
  pub source : String
  pub target : String

-- `FlowNode` without its type data
pub record NodeFields : Type 0 where
  pub id : String
  pub name : Option String
  pub type : FlowNodeType
  pub incoming : List String
  pub outgoing : List String
  pub boundary_event_refs : List String
  pub data_input_associations : List DataAssociation
  pub data_output_associations : List DataAssociation
  pub multi_instance : Option MultiInstance
  pub standard_loop : Option StandardLoop
  pub is_for_compensation : Bool
  pub documentation : Option String
