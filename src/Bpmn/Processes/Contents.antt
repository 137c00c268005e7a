-- ===== src/Bpmn/Processes/Contents.antt =====
-- What a process read by `parseProcess` of packages/js/sdk/src/bpmn/parser.ts holds beside its flow
-- nodes.
use bfw_engine.Common.{String, List, [], ℕ, ◌≡◌, ap, ◌∙◌, map, Bool-cases, inl, inr, is_empty}
use bfw_engine.Xml.{OrderedNode, children, find_all_elements}
use bfw_engine.Bpmn.Model.{FlowNode, BpmnProcess}
use bfw_engine.Bpmn.Leaves.{
  attr_or_empty, parse_sequence_flow, parse_data_object, parse_data_object_reference,
  parse_data_store, parse_data_store_reference,
}
use bfw_engine.Bpmn.Linking.{apply_default_flows, link_boundary_refs, boundary_map, link_refs}
use bfw_engine.Bpmn.Linking.Defaults.{with_mark, apply_default_flows_lem}
use bfw_engine.Bpmn.Collect.Order.{lanes_below, associations_below}
use bfw_engine.Bpmn.Build.Scopes.{empty_scope}
use bfw_engine.Bpmn.Processes.{parse_kids, read_process, finish_process, parse_process}
use bfw_engine.Bpmn.Processes.Children.{default_refs}

abbrev with_nodes : BpmnProcess → List FlowNode → BpmnProcess
with_nodes process ns = record process { flow_nodes = ns }

link_boundary_refs-shape :
    (process : BpmnProcess)
    → (ns : List FlowNode) × (link_boundary_refs process ≡ with_nodes process ns)
unfolding link_boundary_refs
link_boundary_refs-shape process = elim (Bool-cases (is_empty (boundary_map process.flow_nodes))) [
  | inl e ↦ (process.flow_nodes, rw e)
  | inr e ↦ (map (link_refs (boundary_map process.flow_nodes)) process.flow_nodes, rw e)
]

-- What the passes make of a process, but for its flow nodes.
passes-shape :
    (process : BpmnProcess) (defaults : List (String × String))
    → (ns : List FlowNode) × (link_boundary_refs (apply_default_flows process defaults)
        ≡ record process {
          flow_nodes = ns;
          sequence_flows = map (with_mark defaults) process.sequence_flows;
        })
passes-shape process defaults =
    let (ns, linked) = link_boundary_refs-shape (apply_default_flows process defaults) in
    (ns, linked ∙ ap (λ p. with_nodes p ns) (apply_default_flows_lem process defaults))

-- The lists of a process against the tree that it is read from.
pub record HasContents (node : OrderedNode) (process : BpmnProcess) : Type 0 where
  pub flows :
      process.sequence_flows
      ≡ map
          (with_mark (default_refs (children node) []))
          (map parse_sequence_flow (find_all_elements (children node) "sequenceFlow"))
  pub objects :
      process.data_objects ≡ map parse_data_object (find_all_elements (children node) "dataObject")
  pub object_references :
      process.data_object_references
      ≡ map parse_data_object_reference (find_all_elements (children node) "dataObjectReference")
  pub stores :
      process.data_stores ≡ map parse_data_store (find_all_elements (children node) "dataStore")
  pub store_references :
      process.data_store_references
      ≡ map parse_data_store_reference (find_all_elements (children node) "dataStoreReference")
  pub all_lanes : process.lanes ≡ lanes_below node
  pub all_associations : process.associations ≡ associations_below node

pub parse_process-id :
    (node : OrderedNode) (counter : ℕ) → (parse_process node counter).0.id ≡ attr_or_empty node "id"
unfolding parse_process finish_process
parse_process-id node counter =
    let scope = (parse_kids (children node) empty_scope counter).0 in
    ap (λ (p : BpmnProcess). p.id) (passes-shape (read_process node scope) scope.defaults).1
