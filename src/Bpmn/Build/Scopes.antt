-- ===== src/Bpmn/Build/Scopes.antt =====
-- What the loops over the children of a process or a subprocess collect
-- (`parseProcess` and `buildSubProcessTypeData` of packages/js/sdk/src/bpmn/parser.ts).
pub mod Extensions
use bfw_engine.Common.{
  String, Bool, false, List, [], ◌∷◌, ◌++◌, Option, none, some, ℕ, ◌==◌, has, lookup, set,
  if◌then◌else◌,
}
use bfw_engine.Xml.{OrderedNode, element_name, children, attr, text_content, has_tag}
use bfw_engine.Bpmn.Elements.{flow_node_elements, element_to_type}
use bfw_engine.Bpmn.Model.{
  FlowNode, FlowNodeType, SequenceFlow, DataObject, DataObjectReference, DataStore,
  DataStoreReference, BpmnProcess,
}
use bfw_engine.Bpmn.Leaves.{
  attr_or_empty, parse_sequence_flow, parse_data_object, parse_data_object_reference,
  parse_data_store, parse_data_store_reference,
}

-- `defaults` is the map from a node to its `default` attribute.
pub record Scope : Type 0 where
  pub flow_nodes : List FlowNode
  pub sequence_flows : List SequenceFlow
  pub data_objects : List DataObject
  pub data_object_references : List DataObjectReference
  pub data_stores : List DataStore
  pub data_store_references : List DataStoreReference
  pub defaults : List (String × String)
  pub version : Option String
  pub correlation_key : Option String

abbrev pub empty_scope : Scope
empty_scope = record {
  flow_nodes = [];
  sequence_flows = [];
  data_objects = [];
  data_object_references = [];
  data_stores = [];
  data_store_references = [];
  defaults = [];
  version = none;
  correlation_key = none;
}

-- `FLOW_NODE_ELEMENTS.has(tag)`, and then `ELEMENT_TO_TYPE[tag]`
unfoldable pub flow_node_type : String → Option FlowNodeType
unfolding element_to_type
flow_node_type tag = if has tag flow_node_elements then lookup tag element_to_type else none

-- `if (defaultRef !== null) defaults.set(nodeId, defaultRef)`
abbrev pub note_default : OrderedNode → List (String × String) → List (String × String)
note_default child found = elim (attr child "default") [
  | none ↦ found
  | some ref ↦ set (attr_or_empty child "id") ref found
]

abbrev pub push_flow_node : OrderedNode → FlowNode → Scope → Scope
push_flow_node child node scope = record scope {
  defaults = note_default child scope.defaults;
  flow_nodes = scope.flow_nodes ++ node ∷ [];
}

-- The switch inside a subprocess.
unfoldable pub inner_switch : String → OrderedNode → Scope → Scope
inner_switch tag child scope =
    if tag == "sequenceFlow"
    then record scope { sequence_flows = scope.sequence_flows ++ parse_sequence_flow child ∷ [] }
    else if tag == "dataObject"
    then record scope { data_objects = scope.data_objects ++ parse_data_object child ∷ [] }
    else if tag == "dataObjectReference"
    then record scope {
      data_object_references =
          scope.data_object_references ++ parse_data_object_reference child ∷ [];
    }
    else if tag == "dataStoreReference"
    then record scope {
      data_store_references = scope.data_store_references ++ parse_data_store_reference child ∷ [];
    }
    else scope

-- One round of `parseProcessExtensions`, whose callbacks set the version and the correlation key.
unfoldable pub extension_step : OrderedNode → Scope → Scope
unfolding text_content
extension_step child scope =
    if text_content child == ""
    then scope
    else if has_tag "version" child
    then record scope { version = some (text_content child) }
    else if has_tag "correlationKey" child
    then record scope { correlation_key = some (text_content child) }
    else scope

unfoldable pub parse_process_extensions : List OrderedNode → Scope → Scope
unfolding extension_step
parse_process_extensions [] scope = scope
parse_process_extensions (child ∷ rest) scope =
    parse_process_extensions rest (extension_step child scope)

-- The switch of `parseProcess`.
unfoldable pub process_switch : String → OrderedNode → Scope → Scope
unfolding inner_switch
process_switch tag child scope =
    if tag == "dataStore"
    then record scope { data_stores = scope.data_stores ++ parse_data_store child ∷ [] }
    else if tag == "extensionElements"
    then parse_process_extensions (children child) scope
    else inner_switch tag child scope

-- What a round does with a tag: read a flow node of its type, or run the switch.
abbrev pub enter :
    Option FlowNodeType
    → (FlowNodeType → ℕ → FlowNode × ℕ)
    → Scope
    → OrderedNode
    → Scope
    → ℕ
    → Scope × ℕ
enter (some type) parse switched child scope counter =
    let (node, counter') = parse type counter in (push_flow_node child node scope, counter')
enter none parse switched child scope counter = (switched, counter)

-- One round of either loop, from the parser of a flow node and the switch over other tags.
unfoldable pub scope_step :
    (String → OrderedNode → Scope → Scope)
    → (FlowNodeType → ℕ → FlowNode × ℕ)
    → OrderedNode
    → Scope
    → ℕ
    → Scope × ℕ
unfolding flow_node_type
scope_step switch parse child scope counter = elim (element_name child) [
  | none ↦ (scope, counter)
  | some tag ↦ enter (flow_node_type tag) parse (switch tag child scope) child scope counter
]

-- `syntheticProcess`
unfoldable pub inner_process : OrderedNode → Bool → Bool → Scope → BpmnProcess
unfolding attr
inner_process node is_transaction is_ad_hoc scope = record {
  id = attr_or_empty node "id";
  name = attr node "name";
  version = none;
  is_executable = false;
  is_transaction_scope = is_transaction;
  is_ad_hoc_scope = is_ad_hoc;
  correlation_key = none;
  flow_nodes = scope.flow_nodes;
  sequence_flows = scope.sequence_flows;
  lanes = [];
  data_objects = scope.data_objects;
  data_object_references = scope.data_object_references;
  data_stores = [];
  data_store_references = scope.data_store_references;
  associations = [];
  extensions = [];
}
