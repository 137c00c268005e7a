-- ===== src/Bpmn/Elements.antt =====
-- The element tables of packages/js/sdk/src/bpmn/parser.ts. A tag that the switch over the tables
-- does not know stays `none`.
pub mod Totality
use bfw_engine.Common.{String, Bool, List, [], ◌∷◌, Option, none, some, ◌≡◌, refl, has, lookup}
use bfw_engine.Bpmn.Model.{FlowNodeType}

abbrev pub flow_node_elements : List String
flow_node_elements =
    "startEvent" ∷ "endEvent" ∷ "intermediateCatchEvent" ∷ "intermediateThrowEvent"
    ∷ "boundaryEvent" ∷ "task" ∷ "userTask" ∷ "serviceTask" ∷ "manualTask" ∷ "scriptTask"
    ∷ "businessRuleTask" ∷ "sendTask" ∷ "receiveTask" ∷ "callActivity" ∷ "subProcess"
    ∷ "transaction" ∷ "adHocSubProcess" ∷ "exclusiveGateway" ∷ "parallelGateway"
    ∷ "inclusiveGateway" ∷ "eventBasedGateway" ∷ "complexGateway" ∷ []

unfoldable pub element_to_type : List (String × FlowNodeType)
element_to_type =
    ("startEvent", FlowNodeType.start_event)
    ∷ ("endEvent", FlowNodeType.end_event)
    ∷ ("intermediateCatchEvent", FlowNodeType.intermediate_catch_event)
    ∷ ("intermediateThrowEvent", FlowNodeType.intermediate_throw_event)
    ∷ ("boundaryEvent", FlowNodeType.boundary_event)
    ∷ ("task", FlowNodeType.task)
    ∷ ("userTask", FlowNodeType.user_task)
    ∷ ("serviceTask", FlowNodeType.service_task)
    ∷ ("manualTask", FlowNodeType.manual_task)
    ∷ ("scriptTask", FlowNodeType.script_task)
    ∷ ("businessRuleTask", FlowNodeType.business_rule_task)
    ∷ ("sendTask", FlowNodeType.send_task)
    ∷ ("receiveTask", FlowNodeType.receive_task)
    ∷ ("callActivity", FlowNodeType.call_activity)
    ∷ ("subProcess", FlowNodeType.sub_process)
    ∷ ("transaction", FlowNodeType.sub_process)
    ∷ ("adHocSubProcess", FlowNodeType.sub_process)
    ∷ ("exclusiveGateway", FlowNodeType.exclusive_gateway)
    ∷ ("parallelGateway", FlowNodeType.parallel_gateway)
    ∷ ("inclusiveGateway", FlowNodeType.inclusive_gateway)
    ∷ ("eventBasedGateway", FlowNodeType.event_based_gateway)
    ∷ ("complexGateway", FlowNodeType.complex_gateway)
    ∷ []

-- The kinds of event definition, by the names that `EVENT_DEF_ELEMENTS` gives them.
pub data EventDefKind : Type 0 where
  message signal timer error escalation conditional compensation terminate cancel link :
      EventDefKind

unfoldable pub event_def_elements : List (String × EventDefKind)
event_def_elements =
    ("messageEventDefinition", message)
    ∷ ("signalEventDefinition", signal)
    ∷ ("timerEventDefinition", timer)
    ∷ ("errorEventDefinition", error)
    ∷ ("escalationEventDefinition", escalation)
    ∷ ("conditionalEventDefinition", conditional)
    ∷ ("compensateEventDefinition", compensation)
    ∷ ("terminateEventDefinition", terminate)
    ∷ ("cancelEventDefinition", cancel)
    ∷ ("linkEventDefinition", link)
    ∷ []

-- The properties that every plain JavaScript object inherits, which the operator `in` finds too.
unfoldable pub object_prototype : List String
object_prototype =
    "constructor" ∷ "__defineGetter__" ∷ "__defineSetter__" ∷ "hasOwnProperty" ∷ "__lookupGetter__"
    ∷ "__lookupSetter__" ∷ "isPrototypeOf" ∷ "propertyIsEnumerable" ∷ "toString" ∷ "valueOf"
    ∷ "__proto__" ∷ "toLocaleString" ∷ []
