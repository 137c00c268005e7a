-- ===== src/Bpmn/Linking/Defaults.antt =====
-- What `applyDefaultFlows` of packages/js/sdk/src/bpmn/parser.ts computes.
use bfw_engine.Common.{
  String, List, [], ◌∷◌, Option, none, some, ◌≡◌, refl, sym, ap, map, lookup, has, values, ◌||◌,
  arith, Option-cases, inl, inr,
}
use bfw_engine.Bpmn.Model.{
  FlowNode, flow_node, FlowNodeTypeData, NodeFields, exclusive_gateway, inclusive_gateway,
  SequenceFlow, BpmnProcess,
}
use bfw_engine.Bpmn.Linking.{
  apply_default, apply_default_to_type_data, mark_default, apply_default_flows,
}

-- The reference: an exclusive or inclusive gateway takes the flow that its id stands for.
abbrev pub take_default : Option String → FlowNodeTypeData → FlowNodeTypeData
take_default (some ref) (exclusive_gateway _) = exclusive_gateway (some ref)
take_default (some ref) (inclusive_gateway _) = inclusive_gateway (some ref)
take_default _ td = td

abbrev pub with_default : List (String × String) → FlowNode → FlowNode
with_default defaults (flow_node fields td) =
    flow_node fields (take_default (lookup fields.id defaults) td)

-- A flow is a default flow if it was one or some default names it.
abbrev pub with_mark : List (String × String) → SequenceFlow → SequenceFlow
with_mark defaults flow = record flow {
  is_default = flow.is_default || has flow.id (values defaults);
}

apply_default_to_type_data-take_default :
    (fields : NodeFields) (td : FlowNodeTypeData) (ref : String)
    → apply_default_to_type_data (flow_node fields td) ref
      ≡ flow_node fields (take_default (some ref) td)
unfolding apply_default_to_type_data
apply_default_to_type_data-take_default fields (exclusive_gateway _) ref = refl
apply_default_to_type_data-take_default fields (inclusive_gateway _) ref = refl
apply_default_to_type_data-take_default fields _ ref = refl

take_default-none : (td : FlowNodeTypeData) → take_default none td ≡ td
take_default-none (exclusive_gateway _) = refl
take_default-none _ = refl

apply_default-with_default :
    (defaults : List (String × String)) (node : FlowNode)
    → apply_default defaults node ≡ with_default defaults node
unfolding apply_default
apply_default-with_default defaults (flow_node fields td) =
    elim (Option-cases (lookup fields.id defaults)) [
      | inl e ↦ rw (e, apply_default) (ap (flow_node fields) (sym (take_default-none td)))
      | inr (ref, e) ↦ rw (e, apply_default) (apply_default_to_type_data-take_default fields td ref)
    ]

mark_default-with_mark :
    (defaults : List (String × String)) (flow : SequenceFlow)
    → mark_default (values defaults) flow ≡ with_mark defaults flow
unfolding mark_default
mark_default-with_mark defaults flow = ground arith

map-with_default :
    (defaults : List (String × String)) (ns : List FlowNode)
    → map (apply_default defaults) ns ≡ map (with_default defaults) ns
map-with_default defaults [] = refl
map-with_default defaults (n ∷ ns) =
    rw (apply_default-with_default defaults n, map-with_default defaults ns)

map-with_mark :
    (defaults : List (String × String)) (flows : List SequenceFlow)
    → map (mark_default (values defaults)) flows ≡ map (with_mark defaults) flows
map-with_mark defaults [] = refl
map-with_mark defaults (f ∷ fs) = rw (mark_default-with_mark defaults f, map-with_mark defaults fs)

map-with_default_nil : (ns : List FlowNode) → map (with_default []) ns ≡ ns
map-with_default_nil [] = refl
map-with_default_nil (flow_node fields td ∷ ns) = rw (take_default-none td, map-with_default_nil ns)

with_mark_nil : (flow : SequenceFlow) → with_mark [] flow ≡ flow
with_mark_nil flow = ground arith

map-with_mark_nil : (flows : List SequenceFlow) → map (with_mark []) flows ≡ flows
map-with_mark_nil [] = refl
map-with_mark_nil (f ∷ fs) = rw (with_mark_nil f, map-with_mark_nil fs)

abbrev replace_flows : BpmnProcess → List FlowNode → List SequenceFlow → BpmnProcess
replace_flows process ns flows = record process { flow_nodes = ns; sequence_flows = flows }

-- Each exclusive or inclusive gateway of the process takes the default that the map has for its
-- id and keeps its own if there is none, a sequence flow becomes a default flow exactly if some
-- entry of the map names its id, and nothing else of the process changes.
pub apply_default_flows_lem :
    (process : BpmnProcess) (defaults : List (String × String))
    → apply_default_flows process defaults ≡ record process {
      flow_nodes = map (with_default defaults) process.flow_nodes;
      sequence_flows = map (with_mark defaults) process.sequence_flows;
    }
unfolding apply_default_flows
apply_default_flows_lem process [] = λ i.
    replace_flows process (sym (map-with_default_nil process.flow_nodes) i)
      (sym (map-with_mark_nil process.sequence_flows) i)
apply_default_flows_lem process (entry ∷ rest) = λ i.
    replace_flows process (map-with_default (entry ∷ rest) process.flow_nodes i)
      (map-with_mark (entry ∷ rest) process.sequence_flows i)
