-- ===== src/Bpmn/Elements/Totality.antt =====
-- The element tables of packages/js/sdk/src/bpmn/parser.ts against one another.
use bfw_engine.Common.{
  String, Bool, true, false, ◌≡◌, refl, sym, has, lookup, is_some, is_some-lookup, test_of_has,
  Bool-cases, inl, inr, not,
}
use bfw_engine.Bpmn.Elements.{
  flow_node_elements, element_to_type, event_def_elements, object_prototype,
}
use bfw_engine.Bpmn.Build.Scopes.{flow_node_type}

is_some-element_to_type :
    (tag : String) → is_some (lookup tag element_to_type) ≡ has tag flow_node_elements
unfolding element_to_type
is_some-element_to_type tag = is_some-lookup tag element_to_type

is_some-flow_node_type : (tag : String) → is_some (flow_node_type tag) ≡ has tag flow_node_elements
unfolding flow_node_type
is_some-flow_node_type tag = elim (Bool-cases (has tag flow_node_elements)) [
  | inl e ↦ rw e (rw (is_some-lookup tag element_to_type) e)
  | inr e ↦ rw e
]

-- `ELEMENT_TO_TYPE` has an entry for exactly the tags of `FLOW_NODE_ELEMENTS`, and the lookup behind
-- the test gives a type for each of these tags and for no other.
pub flow_node_type-total :
    (tag : String)
    → (is_some (lookup tag element_to_type) ≡ has tag flow_node_elements)
      × (is_some (flow_node_type tag) ≡ has tag flow_node_elements)
flow_node_type-total tag = (is_some-element_to_type tag, is_some-flow_node_type tag)

-- No inherited property of an object has the name of an event definition.
pub lookup-inherited :
    (tag : String)
    → has tag object_prototype ≡ true
    → is_some (lookup tag event_def_elements) ≡ false
unfolding object_prototype event_def_elements
lookup-inherited tag h =
    negated _
      (test_of_has (λ t. not (is_some (lookup t event_def_elements))) object_prototype tag refl h)
  where
    negated : (b : Bool) → not b ≡ true → b ≡ false
    negated true e = sym e
    negated false e = refl
