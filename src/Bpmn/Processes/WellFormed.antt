-- ===== src/Bpmn/Processes/WellFormed.antt =====
-- Every process that packages/js/sdk/src/bpmn/parser.ts reads is well formed.
use bfw_engine.Common.{List, [], ◌∷◌, ℕ, ◌≡◌, refl, sym, ◌∙◌, All, arith}
use mathlib.Core.Path.{subst}
use bfw_engine.Xml.{OrderedNode, children}
use bfw_engine.Bpmn.Model.{FlowNode, BpmnProcess, Association}
use bfw_engine.Bpmn.Linking.{link_compensation_handlers}
use bfw_engine.Bpmn.Linking.Handlers.{link_compensation_handlers_lem}
use bfw_engine.Bpmn.Build.Scopes.{
  Scope, empty_scope, process_switch, extension_step, parse_process_extensions, scope_step,
}
use bfw_engine.Bpmn.FlowNodes.{parse_flow_node}
use bfw_engine.Bpmn.FlowNodes.WellFormed.{
  KeepsNodes, inner_switch-KeepsNodes, scope_step-IsFresh, parse_flow_node-IsFresh, passes-IsFormed,
}
use bfw_engine.Bpmn.Formed.{IsFormed, IsLinked}
use bfw_engine.Bpmn.Formed.Kept.{IsFresh, relink-IsFresh}
use bfw_engine.Bpmn.Processes.{parse_kids, read_process, finish_process, parse_process}

extension_step-flow_nodes :
    (child : OrderedNode) (scope : Scope)
    → (extension_step child scope).flow_nodes ≡ scope.flow_nodes
unfolding extension_step
extension_step-flow_nodes child scope = ground arith

extensions-flow_nodes :
    (kids : List OrderedNode) (scope : Scope)
    → (parse_process_extensions kids scope).flow_nodes ≡ scope.flow_nodes
unfolding parse_process_extensions
extensions-flow_nodes [] scope = refl
extensions-flow_nodes (child ∷ rest) scope =
    extensions-flow_nodes rest (extension_step child scope) ∙ extension_step-flow_nodes child scope

process_switch-KeepsNodes : KeepsNodes process_switch
unfolding process_switch
process_switch-KeepsNodes tag child scope =
    ground
      (arith, extensions-flow_nodes (children child) scope, inner_switch-KeepsNodes tag child scope)

parse_kids-IsFresh :
    (kids : List OrderedNode) (scope : Scope) (counter : ℕ)
    → All IsFresh scope.flow_nodes
    → All IsFresh (parse_kids kids scope counter).0.flow_nodes
unfolding parse_kids
parse_kids-IsFresh [] scope counter h = h
parse_kids-IsFresh (child ∷ rest) scope counter h =
    let (scope', counter') =
      scope_step process_switch (parse_flow_node child) child scope counter in
    parse_kids-IsFresh rest scope' counter' (
      scope_step-IsFresh process_switch (parse_flow_node child) child scope counter
        process_switch-KeepsNodes (λ type. parse_flow_node-IsFresh child type counter) h)

handlers-IsFresh :
    (ns : List FlowNode) (associations : List Association)
    → All IsFresh ns
    → All IsFresh (link_compensation_handlers ns associations)
handlers-IsFresh ns associations h =
    subst (All IsFresh) (sym (link_compensation_handlers_lem ns associations))
      (relink-IsFresh associations ns h)

abbrev pub IsFormedProcess : BpmnProcess → Type 0
IsFormedProcess process = All IsFormed process.flow_nodes × IsLinked process.flow_nodes

finish_process-IsFormed :
    (node : OrderedNode) (scope : Scope)
    → All IsFresh scope.flow_nodes
    → IsFormedProcess (finish_process node scope)
unfolding finish_process
finish_process-IsFormed node scope h =
    passes-IsFormed (read_process node scope) scope.defaults (handlers-IsFresh scope.flow_nodes _ h)

-- In every process that the parser reads, each flow node carries the type data of its type and
-- lists exactly the boundary events of its scope that are attached to it, the last one of the
-- document first. The same holds in every subprocess, at every depth.
pub parse_process-IsFormed :
    (node : OrderedNode) (counter : ℕ) → IsFormedProcess (parse_process node counter).0
unfolding parse_process
parse_process-IsFormed node counter =
    finish_process-IsFormed node (parse_kids (children node) empty_scope counter).0
      (parse_kids-IsFresh (children node) empty_scope counter tt)
