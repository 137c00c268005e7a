-- ===== src/Bpmn/Events.antt =====
-- Event definitions: `parseEventDefinition` and `buildEventDefinition` of
-- packages/js/sdk/src/bpmn/parser.ts.
pub mod Undefined
use bfw_engine.Common.{
  String, Bool, List, [], ◌∷◌, Option, none, some, not, has, lookup, is, or_null, is_some, ◌||◌,
  if◌then◌else◌,
}
use bfw_engine.Xml.{OrderedNode, element_name, children, attr, child_text, get_extension_children}
use bfw_engine.Bpmn.Model.{EventDefinition, no_event}
use bfw_engine.Bpmn.Elements.{
  EventDefKind, message, signal, timer, error, escalation, conditional, compensation, terminate,
  cancel, link, event_def_elements, object_prototype,
}

unfoldable pub build_event_definition : EventDefKind → OrderedNode → EventDefinition
unfolding attr child_text get_extension_children
build_event_definition message node =
    EventDefinition.message (attr node "messageRef") (
      or_null
        (child_text (get_extension_children (children node)) "correlationRetrievalExpression"))
build_event_definition signal node = EventDefinition.signal (attr node "signalRef")
build_event_definition timer node =
    EventDefinition.timer (or_null (child_text (children node) "timeDate"))
      (or_null (child_text (children node) "timeDuration"))
      (or_null (child_text (children node) "timeCycle"))
build_event_definition error node =
    EventDefinition.error (attr node "errorRef")
      (or_null (child_text (get_extension_children (children node)) "errorCode"))
      (or_null (child_text (get_extension_children (children node)) "errorMessage"))
build_event_definition escalation node = EventDefinition.escalation (attr node "escalationRef") none
build_event_definition conditional node =
    EventDefinition.conditional (or_null (child_text (children node) "condition"))
build_event_definition compensation node =
    EventDefinition.compensation (attr node "activityRef")
      (not (is (attr node "waitForCompletion") "false"))
build_event_definition terminate node = EventDefinition.terminate
build_event_definition cancel node = EventDefinition.cancel
build_event_definition link node = EventDefinition.link (attr node "name")

-- `tag in EVENT_DEF_ELEMENTS`: an inherited property counts as well
unfoldable pub in_event_def_elements : String → Bool
unfolding event_def_elements object_prototype
in_event_def_elements tag = is_some (lookup tag event_def_elements) || has tag object_prototype

-- `buildEventDefinition(EVENT_DEF_ELEMENTS[tag]!, child)`. For an inherited property the switch
-- has no case, and the function returns `undefined`.
unfoldable pub build_tagged : String → OrderedNode → Option EventDefinition
unfolding event_def_elements build_event_definition
build_tagged tag node = elim (lookup tag event_def_elements) [
  | none ↦ none
  | some kind ↦ some (build_event_definition kind node)
]

unfoldable pub parse_event_definition : List OrderedNode → Option EventDefinition
unfolding in_event_def_elements build_tagged
parse_event_definition [] = some no_event
parse_event_definition (child ∷ rest) =
    let later = parse_event_definition rest in
    elim (element_name child) [
      | none ↦ later
      | some tag ↦ if in_event_def_elements tag then build_tagged tag child else later
    ]
