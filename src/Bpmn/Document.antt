-- ===== src/Bpmn/Document.antt =====
-- `parseDefinitions` and `parseBpmn` of packages/js/sdk/src/bpmn/parser.ts.
pub mod Contents
pub mod Branches
use Prim.Native.String
use bfw_engine.Bpmn.Doctype.{has_doctype, strip_sections}
use bfw_engine.Common.{
  decimal, String, List, [], ◌∷◌, ◌++◌, Option, none, some, ℕ, if◌then◌else◌, Bool, true, false,
}
use bfw_engine.Xml.{Reading, tree, unreadable, OrderedNode, has_tag, children, attr, find_element}
use bfw_engine.Bpmn.Model.{BpmnDefinitions}
use bfw_engine.Bpmn.Leaves.{attr_or_empty}
use bfw_engine.Bpmn.Collect.{collect_linter_scores}
use bfw_engine.Bpmn.Processes.{parse_process}

unfoldable pub empty_definitions : String → BpmnDefinitions
empty_definitions raw_xml = record {
  definitions_id = none;
  processes = [];
  messages = [];
  signals = [];
  errors = [];
  escalations = [];
  linter_scores = [];
  raw_xml = raw_xml;
}

-- one round of the switch in `parseDefinitions`
unfoldable pub definitions_step : OrderedNode → BpmnDefinitions → ℕ → BpmnDefinitions × ℕ
definitions_step child result counter =
    if has_tag "message" child
    then (
      record result {
        messages =
            result.messages
            ++ record { id = attr_or_empty child "id"; name = attr child "name" } ∷ [];
      },
      counter,
    )
    else if has_tag "signal" child
    then (
      record result {
        signals =
            result.signals
            ++ record { id = attr_or_empty child "id"; name = attr child "name" } ∷ [];
      },
      counter,
    )
    else if has_tag "error" child
    then (
      record result {
        errors =
            result.errors
            ++ record {
              id = attr_or_empty child "id";
              name = attr child "name";
              error_code = attr child "errorCode";
            }
              ∷ [];
      },
      counter,
    )
    else if has_tag "escalation" child
    then (
      record result {
        escalations =
            result.escalations
            ++ record {
              id = attr_or_empty child "id";
              name = attr child "name";
              escalation_code = attr child "escalationCode";
            }
              ∷ [];
      },
      counter,
    )
    else if has_tag "extensionElements" child
    then (
      record result { linter_scores = collect_linter_scores child result.linter_scores },
      counter,
    )
    else if has_tag "process" child
    then (
      record result { processes = result.processes ++ (parse_process child counter).0 ∷ [] },
      (parse_process child counter).1,
    )
    else (result, counter)

unfoldable pub definitions_each : List OrderedNode → BpmnDefinitions → ℕ → BpmnDefinitions × ℕ
unfolding definitions_step
definitions_each [] result counter = (result, counter)
definitions_each (child ∷ rest) result counter =
    let (result', counter') = definitions_step child result counter in
    definitions_each rest result' counter'

unfoldable pub parse_definitions : OrderedNode → String → ℕ → BpmnDefinitions × ℕ
unfolding attr definitions_each empty_definitions
parse_definitions node raw_xml counter =
    definitions_each (children node)
      (record (empty_definitions raw_xml) { definitions_id = attr node "id" }) counter

-- What `XMLValidator.validate` reports of a text that is not well formed.
pub record ValidationError : Type 0 where
  pub msg : String
  pub line : ℕ
  pub col : Option ℕ

-- The XML library, which is not part of the repository: the validator, with `none` for `true`,
-- and the parser with the options that `parseBpmn` sets.
pub record XmlLibrary : Type 0 where
  pub validate : String → Option ValidationError
  pub parse : String → Reading

-- A call returns definitions or throws an error with a message.
pub data Outcome : Type 0 where
  parsed : BpmnDefinitions → Outcome
  thrown : String → Outcome

unfoldable pub position : ValidationError → String
unfolding decimal
position e = elim e.col [
  | none ↦ String.◌++◌ "line " (decimal e.line)
  | some col ↦
      String.◌++◌ "line " (String.◌++◌ (decimal e.line) (String.◌++◌ ", column " (decimal col)))
]

unfoldable pub malformed_message : ValidationError → String
unfolding position
malformed_message e =
    String.◌++◌ "Malformed BPMN XML at " (String.◌++◌ (position e) (String.◌++◌ ": " e.msg))

abbrev pub doctype_message : String
doctype_message = "DOCTYPE declarations are not allowed in BPMN files."

-- `definitionsNode ? parseDefinitions(definitionsNode, xml) : emptyDefinitions(xml)`
unfoldable pub parse_found : Option OrderedNode → String → ℕ → Outcome × ℕ
unfolding parse_definitions empty_definitions
parse_found none xml counter = (parsed (empty_definitions xml), counter)
parse_found (some node) xml counter =
    (parsed (parse_definitions node xml counter).0, (parse_definitions node xml counter).1)

-- `parser.parse(xml)` and what follows it
unfoldable pub parse_read : Reading → String → ℕ → Outcome × ℕ
unfolding find_element parse_found
parse_read (unreadable message) xml counter = (thrown message, counter)
parse_read (tree nodes) xml counter = parse_found (find_element nodes "definitions") xml counter

-- what follows a text that the validator passes
unfoldable pub parse_valid : XmlLibrary → String → Bool → ℕ → Outcome × ℕ
unfolding parse_read
parse_valid library xml true counter = (thrown doctype_message, counter)
parse_valid library xml false counter = parse_read (library.parse xml) xml counter

unfoldable pub parse_validated : XmlLibrary → String → Option ValidationError → ℕ → Outcome × ℕ
unfolding malformed_message strip_sections has_doctype parse_valid
parse_validated library xml (some e) counter = (thrown (malformed_message e), counter)
parse_validated library xml none counter =
    parse_valid library xml (has_doctype (strip_sections xml)) counter

unfoldable pub parse_bpmn : XmlLibrary → String → ℕ → Outcome × ℕ
unfolding parse_validated
parse_bpmn library xml counter = parse_validated library xml (library.validate xml) counter
