-- ===== src/Bpmn/FlowNodes/References.antt =====
-- The references that a flow node of packages/js/sdk/src/bpmn/parser.ts keeps, and their order.
use bfw_engine.Common.{
  String, List, [], ◌∷◌, ◌++◌, ℕ, ◌≡◌, ap, ◌∙◌, reverse, append_assoc, append-nil, arith, ◌==◌,
  eq_iff, Bool-cases, inl, inr, if◌then◌else◌,
}
use bfw_engine.Xml.{OrderedNode, element, text, has_tag, children, text_content, find_all_elements}
use bfw_engine.Bpmn.Model.{node_fields, FlowNodeType}
use bfw_engine.Bpmn.Leaves.{non_empty_texts}
use bfw_engine.Bpmn.FlowNodes.{
  NodeParts, no_parts, parts_step, parse_parts, assemble, parse_flow_node,
}

-- the text of an element of the tag, unless it is empty
abbrev refs_here : String → OrderedNode → List String
refs_here tag child =
    if has_tag tag child
    then (if text_content child == "" then [] else text_content child ∷ [])
    else []

refs_here_cons :
    (tag : String) (child : OrderedNode) (rest : List OrderedNode)
    → refs_here tag child ++ non_empty_texts (find_all_elements rest tag)
      ≡ non_empty_texts (find_all_elements (child ∷ rest) tag)
unfolding non_empty_texts find_all_elements
refs_here_cons tag child rest = ground arith

step-incoming :
    (child : OrderedNode) (parts : NodeParts) (counter : ℕ)
    → (parts_step child parts counter).0.incoming ≡ parts.incoming ++ refs_here "incoming" child
unfolding parts_step
step-incoming (text s) parts counter = rw append-nil
step-incoming (element tag attributes kids) parts counter = elim (Bool-cases (tag == "incoming")) [
  | inl e ↦ rw ((eq_iff tag "incoming").0 e) (ground (arith, append-nil parts.incoming))
  | inr e ↦ ground (arith, append-nil parts.incoming)
]

step-outgoing :
    (child : OrderedNode) (parts : NodeParts) (counter : ℕ)
    → (parts_step child parts counter).0.outgoing ≡ parts.outgoing ++ refs_here "outgoing" child
unfolding parts_step
step-outgoing (text s) parts counter = rw append-nil
step-outgoing (element tag attributes kids) parts counter = elim (Bool-cases (tag == "outgoing")) [
  | inl e ↦ rw ((eq_iff tag "outgoing").0 e) (ground (arith, append-nil parts.outgoing))
  | inr e ↦ ground (arith, append-nil parts.outgoing)
]

module _ (field : NodeParts → List String) (tag : String)
    (stepped : (child : OrderedNode) (parts : NodeParts) (counter : ℕ)
      → field (parts_step child parts counter).0 ≡ field parts ++ refs_here tag child) where
  parse_parts-refs :
      (kids : List OrderedNode) (parts : NodeParts) (counter : ℕ)
      → field (parse_parts kids parts counter).0
        ≡ field parts ++ non_empty_texts (find_all_elements kids tag)
  unfolding parse_parts find_all_elements non_empty_texts
  parse_parts-refs [] parts counter = rw append-nil
  parse_parts-refs (child ∷ rest) parts counter =
      let (parts', counter') = parts_step child parts counter in
      parse_parts-refs rest parts' counter'
      ∙ (rw (stepped child parts counter, append_assoc)
          (ap (λ l. field parts ++ l) (refs_here_cons tag child rest)))

-- The sequence flows that an element names as coming in and going out, in reverse document order.
pub record HasReferences (node : OrderedNode) (incoming outgoing : List String) : Type 0 where
  pub ins : incoming ≡ reverse (non_empty_texts (find_all_elements (children node) "incoming"))
  pub outs : outgoing ≡ reverse (non_empty_texts (find_all_elements (children node) "outgoing"))

assemble-HasReferences :
    (node : OrderedNode) (type : FlowNodeType) (counter : ℕ)
    → HasReferences node
        (reverse (parse_parts (children node) no_parts counter).0.incoming)
        (reverse (parse_parts (children node) no_parts counter).0.outgoing)
assemble-HasReferences node type counter = record {
  ins = ap reverse (
      parse_parts-refs (λ p. p.incoming) "incoming" step-incoming (children node) no_parts counter);
  outs = ap reverse (
      parse_parts-refs (λ p. p.outgoing) "outgoing" step-outgoing (children node) no_parts counter);
}

-- A flow node lists as incoming and as outgoing exactly the texts of its `incoming` and `outgoing`
-- children that are not empty, the last one of the document first.
pub parse_flow_node-HasReferences :
    (node : OrderedNode) (type : FlowNodeType) (counter : ℕ)
    → HasReferences node
        (node_fields (parse_flow_node node type counter).0).incoming
        (node_fields (parse_flow_node node type counter).0).outgoing
unfolding parse_flow_node assemble
parse_flow_node-HasReferences (element tag attributes kids) type counter =
    assemble-HasReferences (element tag attributes kids) type counter
parse_flow_node-HasReferences (text s) type counter = assemble-HasReferences (text s) type counter
