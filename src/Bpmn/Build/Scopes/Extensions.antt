-- ===== src/Bpmn/Build/Scopes/Extensions.antt =====
-- What `parseProcessExtensions` of packages/js/sdk/src/bpmn/parser.ts sets.
use bfw_engine.Common.{
  String, List, [], ◌∷◌, Option, some, ◌≡◌, refl, ◌∙◌, arith, ◌==◌, eq_iff, Bool-cases, inl, inr,
  if◌then◌else◌,
}
use bfw_engine.Xml.{OrderedNode, element, text, has_tag, text_content, find_all_elements}
use bfw_engine.Bpmn.Leaves.{non_empty_texts}
use bfw_engine.Bpmn.Build.Scopes.{Scope, extension_step, parse_process_extensions}

-- The last text of a list, or what was there before.
abbrev pub last_or : Option String → List String → Option String
last_or before [] = before
last_or before (s ∷ rest) = last_or (some s) rest

abbrev last_text : Option String → String → List OrderedNode → Option String
last_text before tag kids = last_or before (non_empty_texts (find_all_elements kids tag))

-- what one element sets
abbrev set_by : Option String → String → OrderedNode → Option String
set_by before tag child =
    if has_tag tag child
    then (if text_content child == "" then before else some (text_content child))
    else before

set_by-last_text :
    (before : Option String) (tag : String) (child : OrderedNode) (rest : List OrderedNode)
    → last_text (set_by before tag child) tag rest ≡ last_text before tag (child ∷ rest)
unfolding non_empty_texts find_all_elements
set_by-last_text before tag child rest = ground arith

step-version :
    (child : OrderedNode) (scope : Scope)
    → (extension_step child scope).version ≡ set_by scope.version "version" child
unfolding extension_step
step-version child scope = ground arith

step-correlation_key :
    (child : OrderedNode) (scope : Scope)
    → (extension_step child scope).correlation_key
      ≡ set_by scope.correlation_key "correlationKey" child
unfolding extension_step
step-correlation_key (text s) scope = ground arith
step-correlation_key (element tag attributes kids) scope =
    elim (Bool-cases (tag == "correlationKey")) [
      | inl e ↦ rw ((eq_iff tag "correlationKey").0 e) (ground arith)
      | inr e ↦ ground arith
    ]

-- The extension elements of a process set its version and its correlation key to the last text
-- that is not empty of an element of that tag, and leave each as it was if there is none.
pub parse_process_extensions_lem :
    (kids : List OrderedNode) (scope : Scope)
    → ((parse_process_extensions kids scope).version
        ≡ last_or scope.version (non_empty_texts (find_all_elements kids "version")))
      × ((parse_process_extensions kids scope).correlation_key
          ≡ last_or scope.correlation_key
              (non_empty_texts (find_all_elements kids "correlationKey")))
unfolding parse_process_extensions find_all_elements non_empty_texts
parse_process_extensions_lem [] scope = (refl, refl)
parse_process_extensions_lem (child ∷ rest) scope =
    let (version, key) = parse_process_extensions_lem rest (extension_step child scope) in
    (
      version
          ∙ (rw (step-version child scope) (set_by-last_text scope.version "version" child rest)),
      key
          ∙ (rw (step-correlation_key child scope)
              (set_by-last_text scope.correlation_key "correlationKey" child rest)),
    )
