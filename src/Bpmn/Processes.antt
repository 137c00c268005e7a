-- ===== src/Bpmn/Processes.antt =====
-- `parseProcess` of packages/js/sdk/src/bpmn/parser.ts.
pub mod WellFormed
pub mod Children
pub mod Contents
use bfw_engine.Common.{false, List, [], ◌∷◌, ℕ, not, is}
use bfw_engine.Xml.{OrderedNode, children, attr}
use bfw_engine.Bpmn.Model.{BpmnProcess}
use bfw_engine.Bpmn.Leaves.{attr_or_empty}
use bfw_engine.Bpmn.Build.Scopes.{Scope, empty_scope, process_switch, scope_step}
use bfw_engine.Bpmn.Linking.{apply_default_flows, link_boundary_refs, link_compensation_handlers}
use bfw_engine.Bpmn.Collect.{collect_lanes_deep, collect_associations_deep}
use bfw_engine.Bpmn.FlowNodes.{parse_flow_node}

-- the loop over the children in `parseProcess`
unfoldable pub parse_kids : List OrderedNode → Scope → ℕ → Scope × ℕ
unfolding parse_flow_node scope_step process_switch
parse_kids [] scope counter = (scope, counter)
parse_kids (child ∷ rest) scope counter =
    let (scope', counter') =
      scope_step process_switch (parse_flow_node child) child scope counter in
    parse_kids rest scope' counter'

-- The process that is built behind that loop, and its passes.
unfoldable pub read_process : OrderedNode → Scope → BpmnProcess
unfolding collect_lanes_deep collect_associations_deep link_compensation_handlers
read_process node scope =
    let associations = collect_associations_deep node [] in
    record {
      id = attr_or_empty node "id";
      name = attr node "name";
      version = scope.version;
      is_executable = not (is (attr node "isExecutable") "false");
      is_transaction_scope = false;
      is_ad_hoc_scope = false;
      correlation_key = scope.correlation_key;
      flow_nodes = link_compensation_handlers scope.flow_nodes associations;
      sequence_flows = scope.sequence_flows;
      lanes = collect_lanes_deep node [];
      data_objects = scope.data_objects;
      data_object_references = scope.data_object_references;
      data_stores = scope.data_stores;
      data_store_references = scope.data_store_references;
      associations = associations;
      extensions = [];
    }

unfoldable pub finish_process : OrderedNode → Scope → BpmnProcess
unfolding read_process apply_default_flows link_boundary_refs
finish_process node scope =
    link_boundary_refs (apply_default_flows (read_process node scope) scope.defaults)

unfoldable pub parse_process : OrderedNode → ℕ → BpmnProcess × ℕ
unfolding parse_kids finish_process
parse_process node counter =
    let (scope, counter') = parse_kids (children node) empty_scope counter in
    (finish_process node scope, counter')
