-- ===== src/Bpmn/Processes/Children.antt =====
-- How the loop of `parseProcess` in packages/js/sdk/src/bpmn/parser.ts lists the children of each
-- kind, in document order, and notes the default flows.
use bfw_engine.Common.{
  one, one-map, String, Bool, false, List, [], ◌∷◌, ◌++◌, Option, none, some, ℕ, ◌≡◌, refl, sym, ap,
  ◌∙◌, map, append_assoc, append-nil, arith, ◌==◌, eq_iff, Bool-cases, inl, inr, if◌then◌else◌, has,
  is_some,
}
use bfw_engine.Bpmn.Elements.{flow_node_elements}
use bfw_engine.Bpmn.Elements.Totality.{flow_node_type-total}
use mathlib.Core.Option.{some-ne-none}
use bfw_engine.Xml.{OrderedNode, element, text, element_name, children, has_tag, find_all_elements}
use bfw_engine.Bpmn.Model.{FlowNode, FlowNodeType}
use bfw_engine.Bpmn.Leaves.{
  parse_sequence_flow, parse_data_object, parse_data_object_reference, parse_data_store,
  parse_data_store_reference,
}
use bfw_engine.Bpmn.Build.Scopes.{
  Scope, note_default, flow_node_type, push_flow_node, enter, process_switch, extension_step,
  parse_process_extensions, scope_step,
}
use bfw_engine.Bpmn.FlowNodes.{parse_flow_node}
use bfw_engine.Bpmn.Processes.{parse_kids}

-- A list of the scope that the switch extends for one tag, and that a flow node leaves alone.
module _ {A : Type 0} (field : Scope → List A) (read : OrderedNode → A) (wanted : String)
    (plain : flow_node_type wanted ≡ none)
    (pushed : (child : OrderedNode) (node : FlowNode) (scope : Scope)
      → field (push_flow_node child node scope) ≡ field scope)
    (switched : (tag : String) (child : OrderedNode) (scope : Scope)
      → field (process_switch tag child scope)
        ≡ field scope ++ one (tag == wanted) (read child)) where
  enter-list :
      (o : Option FlowNodeType) (tag : String) (parse : FlowNodeType → ℕ → FlowNode × ℕ)
      (child : OrderedNode) (scope : Scope) (counter : ℕ)
      → flow_node_type tag ≡ o
      → field (enter o parse (process_switch tag child scope) child scope counter).0
        ≡ field scope ++ one (tag == wanted) (read child)
  enter-list none tag parse child scope counter e = switched tag child scope
  enter-list (some type) tag parse child scope counter e = elim (Bool-cases (tag == wanted)) [
    | inl same ↦
        absurd (some-ne-none type (sym e ∙ ap flow_node_type ((eq_iff tag wanted).0 same) ∙ plain))
    | inr other ↦ rw (other, append-nil) (pushed child (parse type counter).0 scope)
  ]

  step-list :
      (parse : FlowNodeType → ℕ → FlowNode × ℕ) (child : OrderedNode) (scope : Scope) (counter : ℕ)
      → field (scope_step process_switch parse child scope counter).0
        ≡ field scope ++ one (has_tag wanted child) (read child)
  unfolding scope_step
  step-list parse (text s) scope counter = rw append-nil
  step-list parse (element tag attributes kids) scope counter =
      enter-list (flow_node_type tag) tag parse (element tag attributes kids) scope counter refl

  pub parse_kids-list :
      (kids : List OrderedNode) (scope : Scope) (counter : ℕ)
      → field (parse_kids kids scope counter).0
        ≡ field scope ++ map read (find_all_elements kids wanted)
  unfolding parse_kids find_all_elements
  parse_kids-list [] scope counter = rw append-nil
  parse_kids-list (child ∷ rest) scope counter =
      let (scope', counter') =
        scope_step process_switch (parse_flow_node child) child scope counter in
      parse_kids-list rest scope' counter'
      ∙ (rw (step-list (parse_flow_node child) child scope counter, append_assoc)
          (ap (λ l. field scope ++ l)
            (one-map (has_tag wanted child) read child (find_all_elements rest wanted))))

-- The extension elements change the version and the correlation key alone.
abbrev with_extensions : Scope → Option String × Option String → Scope
with_extensions scope e = record scope { version = e.0; correlation_key = e.1 }

extension_step-shape :
    (child : OrderedNode) (scope : Scope)
    → (e : Option String × Option String) × (extension_step child scope ≡ with_extensions scope e)
unfolding extension_step
extension_step-shape child scope = (
  ((extension_step child scope).version, (extension_step child scope).correlation_key),
  ground arith,
)

extensions-shape :
    (kids : List OrderedNode) (scope : Scope)
    → (e : Option String × Option String) × (parse_process_extensions kids scope
        ≡ with_extensions scope e)
unfolding parse_process_extensions
extensions-shape [] scope = ((scope.version, scope.correlation_key), refl)
extensions-shape (child ∷ rest) scope =
    let (e, here) = extension_step-shape child scope in
    let (e', later) = extensions-shape rest (extension_step child scope) in
    (e', later ∙ ap (λ s. with_extensions s e') here)

pub switched-sequence_flows :
    (tag : String) (child : OrderedNode) (scope : Scope)
    → (process_switch tag child scope).sequence_flows
      ≡ scope.sequence_flows ++ one (tag == "sequenceFlow") (parse_sequence_flow child)
unfolding process_switch
switched-sequence_flows tag child scope = elim (Bool-cases (tag == "sequenceFlow")) [
  | inl e ↦ rw ((eq_iff tag "sequenceFlow").0 e) refl
  | inr e ↦
      let kept = ap (λ (s : Scope). s.sequence_flows) (extensions-shape (children child) scope).1 in
      ground (arith, append-nil scope.sequence_flows, kept)
]

pub switched-data_objects :
    (tag : String) (child : OrderedNode) (scope : Scope)
    → (process_switch tag child scope).data_objects
      ≡ scope.data_objects ++ one (tag == "dataObject") (parse_data_object child)
unfolding process_switch
switched-data_objects tag child scope = elim (Bool-cases (tag == "dataObject")) [
  | inl e ↦ rw ((eq_iff tag "dataObject").0 e) refl
  | inr e ↦
      let kept = ap (λ (s : Scope). s.data_objects) (extensions-shape (children child) scope).1 in
      ground (arith, append-nil scope.data_objects, kept)
]

pub switched-data_object_references :
    (tag : String) (child : OrderedNode) (scope : Scope)
    → (process_switch tag child scope).data_object_references
      ≡ scope.data_object_references
        ++ one (tag == "dataObjectReference") (parse_data_object_reference child)
unfolding process_switch
switched-data_object_references tag child scope = elim (Bool-cases (tag == "dataObjectReference")) [
  | inl e ↦ rw ((eq_iff tag "dataObjectReference").0 e) refl
  | inr e ↦
      let kept =
        ap (λ (s : Scope). s.data_object_references) (extensions-shape (children child) scope).1 in
      ground (arith, append-nil scope.data_object_references, kept)
]

pub switched-data_stores :
    (tag : String) (child : OrderedNode) (scope : Scope)
    → (process_switch tag child scope).data_stores
      ≡ scope.data_stores ++ one (tag == "dataStore") (parse_data_store child)
unfolding process_switch
switched-data_stores tag child scope = elim (Bool-cases (tag == "dataStore")) [
  | inl e ↦ rw ((eq_iff tag "dataStore").0 e) refl
  | inr e ↦
      let kept = ap (λ (s : Scope). s.data_stores) (extensions-shape (children child) scope).1 in
      ground (arith, append-nil scope.data_stores, kept)
]

pub switched-data_store_references :
    (tag : String) (child : OrderedNode) (scope : Scope)
    → (process_switch tag child scope).data_store_references
      ≡ scope.data_store_references
        ++ one (tag == "dataStoreReference") (parse_data_store_reference child)
unfolding process_switch
switched-data_store_references tag child scope = elim (Bool-cases (tag == "dataStoreReference")) [
  | inl e ↦ rw ((eq_iff tag "dataStoreReference").0 e) refl
  | inr e ↦
      let kept =
        ap (λ (s : Scope). s.data_store_references) (extensions-shape (children child) scope).1 in
      ground (arith, append-nil scope.data_store_references, kept)
]

-- The element is a flow node.
abbrev pub is_flow_node : OrderedNode → Bool
is_flow_node node = elim (element_name node) [
  | none ↦ false
  | some tag ↦ has tag flow_node_elements
]

-- The `default` attributes of the flow nodes among the children, by the id that carries them.
abbrev pub default_refs : List OrderedNode → List (String × String) → List (String × String)
default_refs [] found = found
default_refs (child ∷ rest) found =
    default_refs rest (if is_flow_node child then note_default child found else found)

switch-defaults :
    (tag : String) (child : OrderedNode) (scope : Scope)
    → (process_switch tag child scope).defaults ≡ scope.defaults
unfolding process_switch
switch-defaults tag child scope =
    let kept = ap (λ (s : Scope). s.defaults) (extensions-shape (children child) scope).1 in
    ground (arith, kept)

enter-defaults :
    (o : Option FlowNodeType) (tag : String) (parse : FlowNodeType → ℕ → FlowNode × ℕ)
    (child : OrderedNode) (scope : Scope) (counter : ℕ)
    → (enter o parse (process_switch tag child scope) child scope counter).0.defaults
      ≡ (if is_some o then note_default child scope.defaults else scope.defaults)
enter-defaults none tag parse child scope counter = switch-defaults tag child scope
enter-defaults (some type) tag parse child scope counter = refl

step-defaults :
    (parse : FlowNodeType → ℕ → FlowNode × ℕ) (child : OrderedNode) (scope : Scope) (counter : ℕ)
    → (scope_step process_switch parse child scope counter).0.defaults
      ≡ (if is_flow_node child then note_default child scope.defaults else scope.defaults)
unfolding scope_step
step-defaults parse (text s) scope counter = refl
step-defaults parse (element tag attributes kids) scope counter =
    let child = element tag attributes kids in
    enter-defaults (flow_node_type tag) tag parse child scope counter
    ∙ ap (λ b. if b then note_default child scope.defaults else scope.defaults)
        (flow_node_type-total tag).1

pub parse_kids-defaults :
    (kids : List OrderedNode) (scope : Scope) (counter : ℕ)
    → (parse_kids kids scope counter).0.defaults ≡ default_refs kids scope.defaults
unfolding parse_kids
parse_kids-defaults [] scope counter = refl
parse_kids-defaults (child ∷ rest) scope counter =
    let (scope', counter') =
      scope_step process_switch (parse_flow_node child) child scope counter in
    parse_kids-defaults rest scope' counter'
    ∙ ap (default_refs rest) (step-defaults (parse_flow_node child) child scope counter)
