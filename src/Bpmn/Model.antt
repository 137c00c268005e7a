-- ===== src/Bpmn/Model.antt =====
-- The typed model that the BPMN parser builds (packages/js/sdk/src/bpmn/model.ts). `null` is
-- `none`. A flow node and its type data contain one another through a subprocess, so the fields
-- that hold no flow node stand in records of their own.
mod Definitions
mod TypeData
pub use Definitions.*
pub use TypeData.*
use bfw_engine.Common.{String, Bool, List, [], ◌∷◌, Option}

mutual
  pub data FlowNode : Type 0 where
    flow_node : NodeFields → FlowNodeTypeData → FlowNode

  pub data FlowNodeTypeData : Type 0 where
    start_event : StartEventTypeData → FlowNodeTypeData
    end_event : EndEventTypeData → FlowNodeTypeData
    intermediate_catch_event : IntermediateCatchEventTypeData → FlowNodeTypeData
    intermediate_throw_event : IntermediateThrowEventTypeData → FlowNodeTypeData
    boundary_event : BoundaryEventTypeData → FlowNodeTypeData
    task : FlowNodeTypeData
    user_task : UserTaskTypeData → FlowNodeTypeData
    service_task : ServiceTaskTypeData → FlowNodeTypeData
    manual_task : ManualTaskTypeData → FlowNodeTypeData
    script_task : ScriptTaskTypeData → FlowNodeTypeData
    business_rule_task : BusinessRuleTaskTypeData → FlowNodeTypeData
    send_task : SendTaskTypeData → FlowNodeTypeData
    receive_task : ReceiveTaskTypeData → FlowNodeTypeData
    call_activity : CallActivityTypeData → FlowNodeTypeData
    sub_process : SubProcessTypeData → FlowNodes → FlowNodeTypeData
    exclusive_gateway : (default_flow_ref : Option String) → FlowNodeTypeData
    parallel_gateway : FlowNodeTypeData
    inclusive_gateway : (default_flow_ref : Option String) → FlowNodeTypeData
    event_based_gateway : FlowNodeTypeData
    complex_gateway : (activation_condition : Option String) → FlowNodeTypeData

  pub data FlowNodes : Type 0 where
    nil : FlowNodes
    cons : FlowNode → FlowNodes → FlowNodes

abbrev pub node_fields : FlowNode → NodeFields
node_fields (flow_node fields _) = fields

abbrev pub type_data : FlowNode → FlowNodeTypeData
type_data (flow_node _ td) = td

abbrev pub nodes : FlowNodes → List FlowNode
nodes nil = []
nodes (cons node rest) = node ∷ nodes rest

abbrev pub from_list : List FlowNode → FlowNodes
from_list [] = nil
from_list (node ∷ rest) = cons node (from_list rest)

pub record BpmnProcess : Type 0 where
  pub id : String
  pub name : Option String
  pub version : Option String
  pub is_executable : Bool
  pub is_transaction_scope : Bool
  pub is_ad_hoc_scope : Bool
  pub correlation_key : Option String
  pub flow_nodes : List FlowNode
  pub sequence_flows : List SequenceFlow
  pub lanes : List Lane
  pub data_objects : List DataObject
  pub data_object_references : List DataObjectReference
  pub data_stores : List DataStore
  pub data_store_references : List DataStoreReference
  pub associations : List Association
  pub extensions : List Extension

pub record BpmnDefinitions : Type 0 where
  pub definitions_id : Option String
  pub processes : List BpmnProcess
  pub messages : List MessageDefinition
  pub signals : List SignalDefinition
  pub errors : List ErrorDefinition
  pub escalations : List EscalationDefinition
  pub linter_scores : List LinterRulesetScore
  pub raw_xml : String
