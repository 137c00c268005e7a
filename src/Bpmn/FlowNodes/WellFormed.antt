-- ===== src/Bpmn/FlowNodes/WellFormed.antt =====
-- Every flow node that packages/js/sdk/src/bpmn/parser.ts reads is well formed, at every depth.
use bfw_engine.Common.{
  String, List, Option, none, some, ℕ, ◌≡◌, refl, sym, ap, map, All, All-append, is, arith,
}
use bfw_engine.Xml.{
  OrderedNode, Nodes, element, text, nil, cons, element_name, children, get_extension_children,
}
use mathlib.Core.Path.{subst}
use bfw_engine.Bpmn.Model.{FlowNode, FlowNodeType, BpmnProcess, from_list, nodes}
use bfw_engine.Bpmn.Linking.{apply_default_flows, link_boundary_refs}
use bfw_engine.Bpmn.Linking.Boundaries.{with_refs, link_boundary_refs_lem}
use bfw_engine.Bpmn.Linking.Defaults.{with_default, apply_default_flows_lem}
use bfw_engine.Bpmn.Build.{build_type_data, build_sub_process}
use bfw_engine.Bpmn.Build.Scopes.{
  Scope, empty_scope, flow_node_type, inner_switch, scope_step, enter, inner_process,
}
use bfw_engine.Bpmn.FlowNodes.{parse_flow_node, parse_inner, parse_parts, no_parts, assemble}
use bfw_engine.Bpmn.Formed.{kind, IsFormed, IsFormedInside, IsFormedEach, IsLinked}
use bfw_engine.Bpmn.Formed.Kept.{
  IsFresh, with_default-IsFresh, with_refs-IsLinked, with_refs-IsFormed, IsFresh-IsFormed,
  IsFresh-HasNoRefs, nodes-from_list, IsFormedEach-from_list,
}

-- The passes of a scope, run over fresh nodes.
abbrev linked_nodes : List (String × String) → List FlowNode → List FlowNode
linked_nodes defaults ns =
    map (with_refs (map (with_default defaults) ns)) (map (with_default defaults) ns)

pub scope_passes :
    (process : BpmnProcess) (defaults : List (String × String))
    → All IsFresh process.flow_nodes
    → (link_boundary_refs (apply_default_flows process defaults)).flow_nodes
      ≡ linked_nodes defaults process.flow_nodes
scope_passes process defaults h = rw (apply_default_flows_lem process defaults) (
    ap (λ (p : BpmnProcess). p.flow_nodes)
      (link_boundary_refs_lem _ (
        IsFresh-HasNoRefs (map (with_default defaults) process.flow_nodes)
          (with_default-IsFresh defaults process.flow_nodes h))))

pub linked_nodes-IsFormed :
    (defaults : List (String × String)) (ns : List FlowNode)
    → All IsFresh ns
    → All IsFormed (linked_nodes defaults ns) × IsLinked (linked_nodes defaults ns)
linked_nodes-IsFormed defaults ns h = (
  with_refs-IsFormed (map (with_default defaults) ns) (map (with_default defaults) ns)
      (IsFresh-IsFormed (map (with_default defaults) ns) (with_default-IsFresh defaults ns h)),
  with_refs-IsLinked (map (with_default defaults) ns),
)

-- The nodes of a scope behind its passes.
pub passes-IsFormed :
    (process : BpmnProcess) (defaults : List (String × String))
    → All IsFresh process.flow_nodes
    → let ns = (link_boundary_refs (apply_default_flows process defaults)).flow_nodes in
      All IsFormed ns × IsLinked ns
passes-IsFormed process defaults h =
    rw (scope_passes process defaults h) (linked_nodes-IsFormed defaults process.flow_nodes h)

inner_nodes-IsFormed :
    (ns : List FlowNode)
    → All IsFormed ns × IsLinked ns
    → IsFormedEach (from_list ns) × IsLinked (nodes (from_list ns))
inner_nodes-IsFormed ns (formed, linked) =
    (IsFormedEach-from_list ns formed, rw (nodes-from_list ns) linked)

build_sub_process-IsFormedInside :
    (node : OrderedNode) (kids ext_kids : List OrderedNode) (tag_name : Option String)
    (scope : Scope)
    → All IsFresh scope.flow_nodes
    → IsFormedInside (build_sub_process node kids ext_kids tag_name scope)
unfolding build_sub_process
build_sub_process-IsFormedInside node kids ext_kids tag_name scope h = inner_nodes-IsFormed _ (
    passes-IsFormed
      (inner_process node (is tag_name "transaction") (is tag_name "adHocSubProcess") scope)
      scope.defaults h)

kind-build_type_data :
    (node : OrderedNode) (kids : List OrderedNode) (type : FlowNodeType) (tag_name : Option String)
    (inner : ℕ → Scope × ℕ) (counter : ℕ)
    → kind (build_type_data node kids type tag_name inner counter).0 ≡ type
unfolding build_type_data
kind-build_type_data node kids FlowNodeType.start_event tag_name inner counter = refl
kind-build_type_data node kids _ tag_name inner counter = refl

-- What the reader of an inner scope promises.
abbrev ReadsFresh : (ℕ → Scope × ℕ) → Type 0
ReadsFresh inner = (counter : ℕ) → All IsFresh (inner counter).0.flow_nodes

build_type_data-IsFormedInside :
    (node : OrderedNode) (kids : List OrderedNode) (type : FlowNodeType) (tag_name : Option String)
    (inner : ℕ → Scope × ℕ) (counter : ℕ)
    → ReadsFresh inner
    → IsFormedInside (build_type_data node kids type tag_name inner counter).0
unfolding build_type_data
build_type_data-IsFormedInside node kids FlowNodeType.sub_process tag_name inner counter h =
    build_sub_process-IsFormedInside node kids (get_extension_children kids) tag_name
      (inner counter).0 (h counter)
build_type_data-IsFormedInside node kids _ tag_name inner counter h = tt

assemble-IsFresh :
    (node : OrderedNode) (type : FlowNodeType) (inner : ℕ → Scope × ℕ) (counter : ℕ)
    → ReadsFresh inner
    → IsFresh (assemble node type inner counter).0
unfolding assemble
assemble-IsFresh node type inner counter h =
    let counter' = (parse_parts (children node) no_parts counter).1 in
    (
      (
        kind-build_type_data node (children node) type (element_name node) inner counter',
        build_type_data-IsFormedInside node (children node) type (element_name node) inner counter'
            h,
      ),
      refl,
    )

enter-IsFresh :
    (o : Option FlowNodeType) (parse : FlowNodeType → ℕ → FlowNode × ℕ) (switched : Scope)
    (child : OrderedNode) (scope : Scope) (counter : ℕ)
    → ((type : FlowNodeType) → IsFresh (parse type counter).0)
    → All IsFresh scope.flow_nodes
    → All IsFresh switched.flow_nodes
    → All IsFresh (enter o parse switched child scope counter).0.flow_nodes
enter-IsFresh none parse switched child scope counter fresh h k = k
enter-IsFresh (some type) parse switched child scope counter fresh h k =
    All-append IsFresh scope.flow_nodes _ h (fresh type, tt)

-- A switch that leaves the flow nodes alone.
abbrev pub KeepsNodes : (String → OrderedNode → Scope → Scope) → Type 0
KeepsNodes switch =
    (tag : String) (child : OrderedNode) (scope : Scope)
    → (switch tag child scope).flow_nodes ≡ scope.flow_nodes

pub scope_step-IsFresh :
    (switch : String → OrderedNode → Scope → Scope) (parse : FlowNodeType → ℕ → FlowNode × ℕ)
    (child : OrderedNode) (scope : Scope) (counter : ℕ)
    → KeepsNodes switch
    → ((type : FlowNodeType) → IsFresh (parse type counter).0)
    → All IsFresh scope.flow_nodes
    → All IsFresh (scope_step switch parse child scope counter).0.flow_nodes
unfolding scope_step
scope_step-IsFresh switch parse (text s) scope counter kept fresh h = h
scope_step-IsFresh switch parse (element tag attributes kids) scope counter kept fresh h =
    let child = element tag attributes kids in
    enter-IsFresh (flow_node_type tag) parse (switch tag child scope) child scope counter fresh h
      (subst (All IsFresh) (sym (kept tag child scope)) h)

pub inner_switch-KeepsNodes : KeepsNodes inner_switch
unfolding inner_switch
inner_switch-KeepsNodes tag child scope = ground arith

mutual
  unfolding parse_flow_node

  pub parse_flow_node-IsFresh :
      (node : OrderedNode) (type : FlowNodeType) (counter : ℕ)
      → IsFresh (parse_flow_node node type counter).0
  parse_flow_node-IsFresh (element tag attributes kids) type counter =
      assemble-IsFresh (element tag attributes kids) type (parse_inner kids empty_scope) counter
        (λ n. parse_inner-IsFresh kids empty_scope n tt)
  parse_flow_node-IsFresh (text s) type counter =
      assemble-IsFresh (text s) type (λ n. (empty_scope, n)) counter (λ n. tt)

  pub parse_inner-IsFresh :
      (kids : Nodes) (scope : Scope) (counter : ℕ)
      → All IsFresh scope.flow_nodes
      → All IsFresh (parse_inner kids scope counter).0.flow_nodes
  parse_inner-IsFresh nil scope counter h = h
  parse_inner-IsFresh (cons child rest) scope counter h =
      let (scope', counter') =
        scope_step inner_switch (parse_flow_node child) child scope counter in
      parse_inner-IsFresh rest scope' counter' (
        scope_step-IsFresh inner_switch (parse_flow_node child) child scope counter
          inner_switch-KeepsNodes (λ type. parse_flow_node-IsFresh child type counter) h)
