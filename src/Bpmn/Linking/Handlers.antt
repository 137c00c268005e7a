-- ===== src/Bpmn/Linking/Handlers.antt =====
-- What `linkCompensationHandlers` of packages/js/sdk/src/bpmn/parser.ts computes.
use bfw_engine.Common.{
  String, List, [], ◌∷◌, Option, none, some, ◌≡◌, refl, sym, ap, ◌∙◌, map, lookup, lookup-set, is,
  arith, if◌then◌else◌,
}
use bfw_engine.Bpmn.Model.{
  FlowNode, flow_node, FlowNodes, FlowNodeTypeData, NodeFields, Association, boundary_event,
  sub_process,
}
use bfw_engine.Bpmn.Linking.{
  add_handler, handlers_from, handler_by_source, set_handler, visit, visit_all, visit_data,
  link_compensation_handlers,
}

-- The reference: the target of the last association that starts at an element and has a target.
abbrev pub later_or : Option String → Option String → Option String
later_or none earlier = earlier
later_or (some handler) earlier = some handler

abbrev pub target_from : String → Association → Option String
target_from id a = if is a.source_ref id then a.target_ref else none

unfoldable pub last_target : String → List Association → Option String
last_target id [] = none
last_target id (a ∷ rest) = later_or (last_target id rest) (target_from id a)

lookup-add_handler :
    (source target : Option String) (found : List (String × String)) (id : String)
    → lookup id (add_handler source target found)
      ≡ later_or (if is source id then target else none) (lookup id found)
lookup-add_handler none target found id = refl
lookup-add_handler (some s) none found id = ground arith
lookup-add_handler (some s) (some t) found id = simp lookup-set (ground arith)

later_or_assoc : (a b c : Option String) → later_or a (later_or b c) ≡ later_or (later_or a b) c
later_or_assoc none b c = refl
later_or_assoc (some x) b c = refl

lookup-handlers_from :
    (associations : List Association) (found : List (String × String)) (id : String)
    → lookup id (handlers_from found associations)
      ≡ later_or (last_target id associations) (lookup id found)
unfolding handlers_from last_target
lookup-handlers_from [] found id = refl
lookup-handlers_from (a ∷ rest) found id =
    lookup-handlers_from rest (add_handler a.source_ref a.target_ref found) id
    ∙ (simp (lookup-add_handler, later_or_assoc))

later_or-none : (a : Option String) → later_or a none ≡ a
later_or-none none = refl
later_or-none (some x) = refl

lookup-handler_by_source :
    (associations : List Association) (id : String)
    → lookup id (handler_by_source associations) ≡ last_target id associations
unfolding handler_by_source
lookup-handler_by_source associations id = lookup-handlers_from associations [] id ∙ later_or-none _

-- Every boundary event of a flow node, those inside subprocesses too, has the handler that the
-- associations give it, and whatever else the node holds is kept.
unfoldable mutual
  pub relink : List Association → FlowNode → FlowNode
  relink associations (flow_node fields td) = flow_node fields (relink_data associations fields td)

  pub relink_data : List Association → NodeFields → FlowNodeTypeData → FlowNodeTypeData
  relink_data associations fields (boundary_event b) =
      boundary_event (set_handler (last_target fields.id associations) b)
  relink_data associations fields (sub_process d inner) =
      sub_process d (relink_all associations inner)
  relink_data associations fields td = td

  pub relink_all : List Association → FlowNodes → FlowNodes
  relink_all associations FlowNodes.nil = FlowNodes.nil
  relink_all associations (FlowNodes.cons node rest) =
      FlowNodes.cons (relink associations node) (relink_all associations rest)

mutual
  unfolding visit relink

  visit-relink :
      (associations : List Association) (node : FlowNode)
      → visit (handler_by_source associations) node ≡ relink associations node
  visit-relink associations (flow_node fields td) =
      ap (flow_node fields) (visit_data-relink associations fields td)

  visit_data-relink :
      (associations : List Association) (fields : NodeFields) (td : FlowNodeTypeData)
      → visit_data (handler_by_source associations) fields td ≡ relink_data associations fields td
  visit_data-relink associations fields (boundary_event b) =
      simp (lookup-handler_by_source associations fields.id)
  visit_data-relink associations fields (sub_process d inner) =
      ap (sub_process d) (visit_all-relink associations inner)
  visit_data-relink associations fields _ = refl

  visit_all-relink :
      (associations : List Association) (inner : FlowNodes)
      → visit_all (handler_by_source associations) inner ≡ relink_all associations inner
  visit_all-relink associations FlowNodes.nil = refl
  visit_all-relink associations (FlowNodes.cons node rest) =
      rw (visit-relink associations node, visit_all-relink associations rest)

-- With no association nothing changes, which is what the early return relies on.
mutual
  unfolding relink last_target

  relink_nil : (node : FlowNode) → relink [] node ≡ node
  relink_nil (flow_node fields td) = ap (flow_node fields) (relink_data_nil fields td)

  relink_data_nil : (fields : NodeFields) (td : FlowNodeTypeData) → relink_data [] fields td ≡ td
  relink_data_nil fields (boundary_event b) = refl
  relink_data_nil fields (sub_process d inner) = ap (sub_process d) (relink_all_nil inner)
  relink_data_nil fields _ = refl

  relink_all_nil : (inner : FlowNodes) → relink_all [] inner ≡ inner
  relink_all_nil FlowNodes.nil = refl
  relink_all_nil (FlowNodes.cons node rest) = rw (relink_nil node, relink_all_nil rest)

map-relink_nil : (ns : List FlowNode) → map (relink []) ns ≡ ns
map-relink_nil [] = refl
map-relink_nil (n ∷ ns) = rw (relink_nil n, map-relink_nil ns)

map-visit :
    (associations : List Association) (ns : List FlowNode)
    → map (visit (handler_by_source associations)) ns ≡ map (relink associations) ns
map-visit associations [] = refl
map-visit associations (n ∷ ns) = rw (visit-relink associations n, map-visit associations ns)

pub link_compensation_handlers_lem :
    (ns : List FlowNode) (associations : List Association)
    → link_compensation_handlers ns associations ≡ map (relink associations) ns
unfolding link_compensation_handlers
link_compensation_handlers_lem ns [] = sym (map-relink_nil ns)
link_compensation_handlers_lem ns (a ∷ rest) = map-visit (a ∷ rest) ns
