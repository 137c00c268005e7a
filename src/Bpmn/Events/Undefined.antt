-- ===== src/Bpmn/Events/Undefined.antt =====
-- When `parseEventDefinition` of packages/js/sdk/src/bpmn/parser.ts returns `undefined`.
use bfw_engine.Common.{
  String, Bool, true, false, List, [], ◌∷◌, Option, none, some, ◌≡◌, ◌↔◌, has, lookup, is_some,
  ◌||◌, arith, Bool-cases, Option-cases, inl, inr,
}
use mathlib.Core.Option.{some-ne-none}
use bfw_engine.Xml.{OrderedNode, element, text, element_name}
use bfw_engine.Bpmn.Elements.{event_def_elements, object_prototype}
use bfw_engine.Bpmn.Elements.Totality.{lookup-inherited}
use bfw_engine.Bpmn.Events.{in_event_def_elements, build_tagged, parse_event_definition}

-- The element is neither an event definition nor named like an inherited property.
abbrev pub IsOther : Option String → Type 0
IsOther none = Unit
IsOther (some tag) =
    (is_some (lookup tag event_def_elements) ≡ false) × (has tag object_prototype ≡ false)

abbrev pub IsInherited : Option String → Type 0
IsInherited none = ⊥
IsInherited (some tag) = has tag object_prototype ≡ true

-- The first element that counts as an event definition is named like an inherited property.
pub data ReadsInherited : List OrderedNode → Type 0 where
  here :
      {child : OrderedNode} {rest : List OrderedNode}
      → IsInherited (element_name child)
      → ReadsInherited (child ∷ rest)
  later :
      {child : OrderedNode} {rest : List OrderedNode}
      → IsOther (element_name child)
      → ReadsInherited rest
      → ReadsInherited (child ∷ rest)

or_false : (a b : Bool) → (a || b) ≡ false → (a ≡ false) × (b ≡ false)
or_false a b h = ground arith

or_true : (a b : Bool) → (a || b) ≡ true → a ≡ false → b ≡ true
or_true a b h e = ground arith

not_in-IsOther : (tag : String) → in_event_def_elements tag ≡ false → IsOther (some tag)
unfolding in_event_def_elements
not_in-IsOther tag h =
    or_false (is_some (lookup tag event_def_elements)) (has tag object_prototype) h

IsOther-not_in : (tag : String) → IsOther (some tag) → in_event_def_elements tag ≡ false
unfolding in_event_def_elements
IsOther-not_in tag h = ground arith

IsInherited-in : (tag : String) → has tag object_prototype ≡ true → in_event_def_elements tag ≡ true
unfolding in_event_def_elements
IsInherited-in tag h = ground arith

-- For a tag of the test, the switch finds no case exactly for an inherited name.
none-IsInherited :
    (tag : String) (node : OrderedNode)
    → in_event_def_elements tag ≡ true
    → build_tagged tag node ≡ none
    → has tag object_prototype ≡ true
unfolding in_event_def_elements build_tagged
none-IsInherited tag node e h = elim (Option-cases (lookup tag event_def_elements)) [
  | inl missing ↦
      or_true (is_some (lookup tag event_def_elements)) (has tag object_prototype) e (rw missing)
  | inr (kind, found) ↦ absurd (some-ne-none _ (rw (found, build_tagged) at h))
]

IsInherited-none :
    (tag : String) (node : OrderedNode)
    → has tag object_prototype ≡ true
    → build_tagged tag node ≡ none
unfolding build_tagged
IsInherited-none tag node h = ground (arith, lookup-inherited tag)

reads_sound : (kids : List OrderedNode) → parse_event_definition kids ≡ none → ReadsInherited kids
unfolding parse_event_definition
reads_sound [] h = cc
reads_sound (text s ∷ rest) h = later tt (reads_sound rest h)
reads_sound (element tag attributes kids ∷ rest) h = elim (Bool-cases (in_event_def_elements tag)) [
  | inl e ↦ here (none-IsInherited tag (element tag attributes kids) e (rw e at h))
  | inr e ↦ later (not_in-IsOther tag e) (reads_sound rest (rw e at h))
]

reads_complete :
    {kids : List OrderedNode} → ReadsInherited kids → parse_event_definition kids ≡ none
unfolding parse_event_definition
reads_complete (here {child = element tag attributes kids} h) =
    rw (IsInherited-in tag h) (IsInherited-none tag (element tag attributes kids) h)
reads_complete (here {child = text s} h) = absurd h
reads_complete (later {child = element tag attributes kids} h r) =
    rw (IsOther-not_in tag h) (reads_complete r)
reads_complete (later {child = text s} h r) = reads_complete r

-- The event definition of an element is `undefined` exactly if the first child that passes the test
-- `tag in EVENT_DEF_ELEMENTS` has the name of a property that every object inherits.
pub parse_event_definition-eq-none_iff :
    (kids : List OrderedNode) → (parse_event_definition kids ≡ none) ↔ ReadsInherited kids
parse_event_definition-eq-none_iff kids = (reads_sound kids, reads_complete)
