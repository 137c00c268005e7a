-- ===== src/Bpmn/Document/Contents.antt =====
-- What `parseDefinitions` of packages/js/sdk/src/bpmn/parser.ts lists of its children, in document
-- order.
use bfw_engine.Common.{
  one, one-map, String, Bool, true, false, List, [], ◌∷◌, ◌++◌, ℕ, ◌≡◌, refl, sym, ap, ◌∙◌, map,
  append_assoc, append-nil, arith, ◌==◌, eq_iff, Bool-cases, inl, inr, if◌then◌else◌, All,
  All-append,
}
use mathlib.Core.List.{map-append}
use mathlib.Core.Path.{subst}
use bfw_engine.Xml.{OrderedNode, element, text, children, has_tag, find_all_elements, attr}
use bfw_engine.Bpmn.Model.{
  BpmnDefinitions, BpmnProcess, MessageDefinition, SignalDefinition, ErrorDefinition,
  EscalationDefinition, LinterRulesetScore,
}
use bfw_engine.Bpmn.Leaves.{attr_or_empty}
use bfw_engine.Bpmn.Collect.Order.{scores_below, collect_linter_scores-document_order}
use bfw_engine.Bpmn.Processes.{parse_process}
use bfw_engine.Bpmn.Processes.Contents.{parse_process-id}
use bfw_engine.Bpmn.Processes.WellFormed.{IsFormedProcess, parse_process-IsFormed}
use bfw_engine.Bpmn.Document.{
  definitions_step, definitions_each, empty_definitions, parse_definitions,
}

-- A list of the result that the switch extends for one tag.
module _ {A : Type 0} (field : BpmnDefinitions → List A) (read : OrderedNode → A) (wanted : String)
    (stepped : (child : OrderedNode) (result : BpmnDefinitions) (counter : ℕ)
      → field (definitions_step child result counter).0
        ≡ field result ++ one (has_tag wanted child) (read child)) where
  each-list :
      (kids : List OrderedNode) (result : BpmnDefinitions) (counter : ℕ)
      → field (definitions_each kids result counter).0
        ≡ field result ++ map read (find_all_elements kids wanted)
  unfolding definitions_each find_all_elements
  each-list [] result counter = rw append-nil
  each-list (child ∷ rest) result counter =
      let (result', counter') = definitions_step child result counter in
      each-list rest result' counter'
      ∙ (rw (stepped child result counter, append_assoc)
          (ap (λ l. field result ++ l)
            (one-map (has_tag wanted child) read child (find_all_elements rest wanted))))

abbrev pub read_message : OrderedNode → MessageDefinition
read_message node = record { id = attr_or_empty node "id"; name = attr node "name" }

abbrev pub read_signal : OrderedNode → SignalDefinition
read_signal node = record { id = attr_or_empty node "id"; name = attr node "name" }

abbrev pub read_error : OrderedNode → ErrorDefinition
read_error node = record {
  id = attr_or_empty node "id";
  name = attr node "name";
  error_code = attr node "errorCode";
}

abbrev pub read_escalation : OrderedNode → EscalationDefinition
read_escalation node = record {
  id = attr_or_empty node "id";
  name = attr node "name";
  escalation_code = attr node "escalationCode";
}

step-messages :
    (child : OrderedNode) (result : BpmnDefinitions) (counter : ℕ)
    → (definitions_step child result counter).0.messages
      ≡ result.messages ++ one (has_tag "message" child) (read_message child)
unfolding definitions_step
step-messages (text s) result counter = rw append-nil
step-messages (element tag attributes kids) result counter = elim (Bool-cases (tag == "message")) [
  | inl e ↦ rw ((eq_iff tag "message").0 e) refl
  | inr e ↦ ground (arith, append-nil result.messages)
]

step-signals :
    (child : OrderedNode) (result : BpmnDefinitions) (counter : ℕ)
    → (definitions_step child result counter).0.signals
      ≡ result.signals ++ one (has_tag "signal" child) (read_signal child)
unfolding definitions_step
step-signals (text s) result counter = rw append-nil
step-signals (element tag attributes kids) result counter = elim (Bool-cases (tag == "signal")) [
  | inl e ↦ rw ((eq_iff tag "signal").0 e) refl
  | inr e ↦ ground (arith, append-nil result.signals)
]

step-errors :
    (child : OrderedNode) (result : BpmnDefinitions) (counter : ℕ)
    → (definitions_step child result counter).0.errors
      ≡ result.errors ++ one (has_tag "error" child) (read_error child)
unfolding definitions_step
step-errors (text s) result counter = rw append-nil
step-errors (element tag attributes kids) result counter = elim (Bool-cases (tag == "error")) [
  | inl e ↦ rw ((eq_iff tag "error").0 e) refl
  | inr e ↦ ground (arith, append-nil result.errors)
]

step-escalations :
    (child : OrderedNode) (result : BpmnDefinitions) (counter : ℕ)
    → (definitions_step child result counter).0.escalations
      ≡ result.escalations ++ one (has_tag "escalation" child) (read_escalation child)
unfolding definitions_step
step-escalations (text s) result counter = rw append-nil
step-escalations (element tag attributes kids) result counter =
    elim (Bool-cases (tag == "escalation")) [
      | inl e ↦ rw ((eq_iff tag "escalation").0 e) refl
      | inr e ↦ ground (arith, append-nil result.escalations)
    ]

step-processes :
    (child : OrderedNode) (result : BpmnDefinitions) (counter : ℕ)
    → (definitions_step child result counter).0.processes
      ≡ result.processes ++ one (has_tag "process" child) (parse_process child counter).0
unfolding definitions_step
step-processes (text s) result counter = rw append-nil
step-processes (element tag attributes kids) result counter = elim (Bool-cases (tag == "process")) [
  | inl e ↦ rw ((eq_iff tag "process").0 e) refl
  | inr e ↦ ground (arith, append-nil result.processes)
]

abbrev process_id : BpmnProcess → String
process_id p = p.id

map-one : (b : Bool) (p : BpmnProcess) → map process_id (one b p) ≡ one b p.id
map-one true p = refl
map-one false p = refl

step-process_ids :
    (child : OrderedNode) (result : BpmnDefinitions) (counter : ℕ)
    → map process_id (definitions_step child result counter).0.processes
      ≡ map process_id result.processes ++ one (has_tag "process" child) (attr_or_empty child "id")
step-process_ids child result counter = simp (step-processes, map-append, map-one, parse_process-id)

-- The scores below each `extensionElements` child.
abbrev pub scores_of : List OrderedNode → List LinterRulesetScore
scores_of [] = []
scores_of (child ∷ rest) =
    (if has_tag "extensionElements" child then scores_below child else []) ++ scores_of rest

step-scores :
    (child : OrderedNode) (result : BpmnDefinitions) (counter : ℕ)
    → (definitions_step child result counter).0.linter_scores
      ≡ result.linter_scores
        ++ (if has_tag "extensionElements" child then scores_below child else [])
unfolding definitions_step
step-scores (text s) result counter = rw append-nil
step-scores (element tag attributes kids) result counter =
    elim (Bool-cases (tag == "extensionElements")) [
      | inl e ↦ rw ((eq_iff tag "extensionElements").0 e) (
          collect_linter_scores-document_order (element "extensionElements" attributes kids)
            result.linter_scores)
      | inr e ↦ ground (arith, append-nil result.linter_scores)
    ]

each-scores :
    (kids : List OrderedNode) (result : BpmnDefinitions) (counter : ℕ)
    → (definitions_each kids result counter).0.linter_scores
      ≡ result.linter_scores ++ scores_of kids
unfolding definitions_each
each-scores [] result counter = rw append-nil
each-scores (child ∷ rest) result counter =
    let (result', counter') = definitions_step child result counter in
    each-scores rest result' counter' ∙ (rw (step-scores child result counter, append_assoc))

one-IsFormed :
    (b : Bool) (child : OrderedNode) (counter : ℕ)
    → All IsFormedProcess (one b (parse_process child counter).0)
one-IsFormed true child counter = (parse_process-IsFormed child counter, tt)
one-IsFormed false child counter = tt

each-IsFormed :
    (kids : List OrderedNode) (result : BpmnDefinitions) (counter : ℕ)
    → All IsFormedProcess result.processes
    → All IsFormedProcess (definitions_each kids result counter).0.processes
unfolding definitions_each
each-IsFormed [] result counter h = h
each-IsFormed (child ∷ rest) result counter h =
    let (result', counter') = definitions_step child result counter in
    each-IsFormed rest result' counter' (
      subst (All IsFormedProcess) (sym (step-processes child result counter)) (
        All-append IsFormedProcess result.processes _ h
          (one-IsFormed (has_tag "process" child) child counter)))

step-raw_xml :
    (child : OrderedNode) (result : BpmnDefinitions) (counter : ℕ)
    → (definitions_step child result counter).0.raw_xml ≡ result.raw_xml
unfolding definitions_step
step-raw_xml child result counter = ground arith

each-raw_xml :
    (kids : List OrderedNode) (result : BpmnDefinitions) (counter : ℕ)
    → (definitions_each kids result counter).0.raw_xml ≡ result.raw_xml
unfolding definitions_each
each-raw_xml [] result counter = refl
each-raw_xml (child ∷ rest) result counter =
    each-raw_xml rest (definitions_step child result counter).0
      (definitions_step child result counter).1
    ∙ step-raw_xml child result counter

-- The lists of a document against its `definitions` element.
pub record HasDefinitions (node : OrderedNode) (result : BpmnDefinitions) : Type 0 where
  pub all_messages :
      result.messages ≡ map read_message (find_all_elements (children node) "message")
  pub all_signals : result.signals ≡ map read_signal (find_all_elements (children node) "signal")
  pub all_errors : result.errors ≡ map read_error (find_all_elements (children node) "error")
  pub all_escalations :
      result.escalations ≡ map read_escalation (find_all_elements (children node) "escalation")
  pub all_scores : result.linter_scores ≡ scores_of (children node)
  pub process_ids :
      map (λ p. p.id) result.processes
      ≡ map (λ n. attr_or_empty n "id") (find_all_elements (children node) "process")

-- A document has one message, signal, error, escalation or process for each child of that tag, in
-- document order and, for processes, with the ids of the elements. Its linter scores are those
-- below its `extensionElements` children.
pub parse_definitions-HasDefinitions :
    (node : OrderedNode) (raw_xml : String) (counter : ℕ)
    → HasDefinitions node (parse_definitions node raw_xml counter).0
unfolding parse_definitions
parse_definitions-HasDefinitions node raw_xml counter =
    let start = record (empty_definitions raw_xml) { definitions_id = attr node "id" } in
    let kids = children node in
    record {
      all_messages =
          each-list (λ r. r.messages) read_message "message" step-messages kids start counter;
      all_signals = each-list (λ r. r.signals) read_signal "signal" step-signals kids start counter;
      all_errors = each-list (λ r. r.errors) read_error "error" step-errors kids start counter;
      all_escalations =
          each-list (λ r. r.escalations) read_escalation "escalation" step-escalations kids start
            counter;
      all_scores = each-scores kids start counter;
      process_ids =
          each-list (λ r. map process_id r.processes) (λ n. attr_or_empty n "id") "process"
            step-process_ids kids start counter;
    }

pub parse_definitions-IsFormed :
    (node : OrderedNode) (raw_xml : String) (counter : ℕ)
    → All IsFormedProcess (parse_definitions node raw_xml counter).0.processes
unfolding parse_definitions
parse_definitions-IsFormed node raw_xml counter = each-IsFormed (children node) _ counter tt

pub parse_definitions-raw_xml :
    (node : OrderedNode) (raw_xml : String) (counter : ℕ)
    → (parse_definitions node raw_xml counter).0.raw_xml ≡ raw_xml
unfolding parse_definitions
parse_definitions-raw_xml node raw_xml counter = each-raw_xml (children node) _ counter
