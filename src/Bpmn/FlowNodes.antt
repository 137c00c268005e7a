-- ===== src/Bpmn/FlowNodes.antt =====
-- `parseFlowNode` of packages/js/sdk/src/bpmn/parser.ts, with the loop over a subprocess inside.
-- The module's counter of generated association ids is passed along as a number.
pub mod WellFormed
pub mod References
use bfw_engine.Common.{
  String, List, [], ◌∷◌, ◌++◌, Option, none, some, ℕ, ◌==◌, is, reverse, if◌then◌else◌,
}
use bfw_engine.Xml.{
  OrderedNode, Nodes, element, text, nil, cons, element_name, has_tag, children, attr, text_content,
}
use bfw_engine.Bpmn.Model.{
  FlowNode, flow_node, FlowNodeType, DataAssociation, MultiInstance, StandardLoop,
}
use bfw_engine.Bpmn.Leaves.{
  attr_or_empty, parse_association, parse_multi_instance, parse_standard_loop,
}
use bfw_engine.Bpmn.Build.Scopes.{Scope, empty_scope, inner_switch, scope_step}
use bfw_engine.Bpmn.Build.{build_type_data}

-- The variables of the loop in `parseFlowNode`.
pub record NodeParts : Type 0 where
  pub incoming : List String
  pub outgoing : List String
  pub documentation : Option String
  pub multi_instance : Option MultiInstance
  pub standard_loop : Option StandardLoop
  pub data_input_associations : List DataAssociation
  pub data_output_associations : List DataAssociation

abbrev pub no_parts : NodeParts
no_parts = record {
  incoming = [];
  outgoing = [];
  documentation = none;
  multi_instance = none;
  standard_loop = none;
  data_input_associations = [];
  data_output_associations = [];
}

-- `if (ref !== '') refs.push(ref)`
abbrev pub push_ref : String → List String → List String
push_ref ref refs = if ref == "" then refs else refs ++ ref ∷ []

-- one round of the switch in `parseFlowNode`
unfoldable pub parts_step : OrderedNode → NodeParts → ℕ → NodeParts × ℕ
unfolding text_content parse_association parse_multi_instance parse_standard_loop
parts_step child parts counter =
    if has_tag "incoming" child
    then (record parts { incoming = push_ref (text_content child) parts.incoming }, counter)
    else if has_tag "outgoing" child
    then (record parts { outgoing = push_ref (text_content child) parts.outgoing }, counter)
    else if has_tag "documentation" child
    then (
      (if text_content child == ""
          then parts
          else record parts { documentation = some (text_content child) }),
      counter,
    )
    else if has_tag "multiInstanceLoopCharacteristics" child
    then (record parts { multi_instance = some (parse_multi_instance child) }, counter)
    else if has_tag "standardLoopCharacteristics" child
    then (record parts { standard_loop = some (parse_standard_loop child) }, counter)
    else if has_tag "dataInputAssociation" child
    then (
      record parts {
        data_input_associations =
            parts.data_input_associations ++ (parse_association counter child "dia").0 ∷ [];
      },
      (parse_association counter child "dia").1,
    )
    else if has_tag "dataOutputAssociation" child
    then (
      record parts {
        data_output_associations =
            parts.data_output_associations ++ (parse_association counter child "doa").0 ∷ [];
      },
      (parse_association counter child "doa").1,
    )
    else (parts, counter)

unfoldable pub parse_parts : List OrderedNode → NodeParts → ℕ → NodeParts × ℕ
unfolding parts_step
parse_parts [] parts counter = (parts, counter)
parse_parts (child ∷ rest) parts counter =
    let (parts', counter') = parts_step child parts counter in parse_parts rest parts' counter'

-- The body of `parseFlowNode`, with the parser of the inner scope handed in.
unfoldable pub assemble : OrderedNode → FlowNodeType → (ℕ → Scope × ℕ) → ℕ → FlowNode × ℕ
unfolding attr parse_parts build_type_data
assemble node type inner counter =
    let (parts, counter') = parse_parts (children node) no_parts counter in
    let (td, counter'') =
      build_type_data node (children node) type (element_name node) inner counter' in
    (
      flow_node
          (record {
            id = attr_or_empty node "id";
            name = attr node "name";
            type = type;
            incoming = reverse parts.incoming;
            outgoing = reverse parts.outgoing;
            boundary_event_refs = [];
            data_input_associations = reverse parts.data_input_associations;
            data_output_associations = reverse parts.data_output_associations;
            multi_instance = parts.multi_instance;
            standard_loop = parts.standard_loop;
            is_for_compensation = is (attr node "isForCompensation") "true";
            documentation = parts.documentation;
          })
          td,
      counter'',
    )

unfoldable mutual
  unfolding assemble scope_step inner_switch

  pub parse_flow_node : OrderedNode → FlowNodeType → ℕ → FlowNode × ℕ
  parse_flow_node (element tag attributes kids) type counter =
      assemble (element tag attributes kids) type (parse_inner kids empty_scope) counter
  parse_flow_node (text s) type counter = assemble (text s) type (λ n. (empty_scope, n)) counter

  -- the loop over the children in `buildSubProcessTypeData`
  pub parse_inner : Nodes → Scope → ℕ → Scope × ℕ
  parse_inner nil scope counter = (scope, counter)
  parse_inner (cons child rest) scope counter =
      let (scope', counter') =
        scope_step inner_switch (parse_flow_node child) child scope counter in
      parse_inner rest scope' counter'
