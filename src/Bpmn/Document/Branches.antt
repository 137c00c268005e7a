-- ===== src/Bpmn/Document/Branches.antt =====
-- When `parseBpmn` of packages/js/sdk/src/bpmn/parser.ts throws, and what it promises otherwise.
use bfw_engine.Common.{
  String, List, Bool, true, false, Option, none, some, ℕ, ◌≡◌, ◌≢◌, ◌↔◌, ◌⊎◌, inl, inr, refl, sym,
  ◌∙◌, All,
}
use mathlib.Core.Path.{subst}
use mathlib.Core.Option.{some-ne-none}
use mathlib.Core.Bool.{false≢true}
use bfw_engine.Xml.{OrderedNode, Reading, tree, unreadable}
use bfw_engine.Bpmn.Model.{BpmnDefinitions}
use bfw_engine.Bpmn.Doctype.{has_doctype, strip_sections}
use bfw_engine.Bpmn.Processes.WellFormed.{IsFormedProcess}
use bfw_engine.Bpmn.Document.{
  XmlLibrary, ValidationError, Outcome, parsed, thrown, parse_bpmn, parse_found, parse_valid,
  parse_read, parse_validated,
}
use bfw_engine.Bpmn.Document.Contents.{parse_definitions-IsFormed, parse_definitions-raw_xml}

-- The library's parser throws.
abbrev pub IsUnreadable : Reading → Type 0
IsUnreadable reading = (message : String) × (reading ≡ unreadable message)

-- The text is refused: by the validator, for a DOCTYPE outside comments and CDATA sections, or by
-- the library's parser.
abbrev pub IsRefused : XmlLibrary → String → Type 0
IsRefused library xml =
    (library.validate xml ≢ none)
    ⊎ ((has_doctype (strip_sections xml) ≡ true) ⊎ IsUnreadable (library.parse xml))

-- What holds of definitions that the parser returns for a text.
pub record IsParse (xml : String) (result : BpmnDefinitions) : Type 0 where
  pub raw : result.raw_xml ≡ xml
  pub formed : All IsFormedProcess result.processes

abbrev Promises : XmlLibrary → String → Outcome → Type 0
Promises library xml (thrown message) = IsRefused library xml
Promises library xml (parsed result) = (¬ IsRefused library xml) × IsParse xml result

tree≢unreadable : (nodes : List OrderedNode) (m : String) → tree nodes ≢ unreadable m
tree≢unreadable nodes m e = cc

module _ (library : XmlLibrary) (xml : String) (counter : ℕ) where
  clean-not_IsRefused :
      library.validate xml ≡ none
      → has_doctype (strip_sections xml) ≡ false
      → (¬ IsUnreadable (library.parse xml))
      → ¬ IsRefused library xml
  clean-not_IsRefused valid clean readable (inl invalid) = invalid valid
  clean-not_IsRefused valid clean readable (inr (inl doctype)) = false≢true (sym clean ∙ doctype)
  clean-not_IsRefused valid clean readable (inr (inr bad)) = readable bad

  parse_found-Promises :
      ¬ IsRefused library xml
      → (o : Option OrderedNode) → Promises library xml (parse_found o xml counter).0
  unfolding parse_found
  parse_found-Promises fine none = (fine, record { raw = refl; formed = tt })
  parse_found-Promises fine (some node) = (
    fine,
    record {
      raw = parse_definitions-raw_xml node xml counter;
      formed = parse_definitions-IsFormed node xml counter;
    },
  )

  parse_read-Promises :
      library.validate xml ≡ none
      → has_doctype (strip_sections xml) ≡ false
      → (reading : Reading) → library.parse xml ≡ reading
      → Promises library xml (parse_read reading xml counter).0
  unfolding parse_read
  parse_read-Promises valid clean (unreadable message) e = inr (inr (message, e))
  parse_read-Promises valid clean (tree nodes) e =
      parse_found-Promises
        (clean-not_IsRefused valid clean (λ (m, f). tree≢unreadable nodes m (sym e ∙ f))) _

  parse_valid-Promises :
      library.validate xml ≡ none
      → (b : Bool) → has_doctype (strip_sections xml) ≡ b
      → Promises library xml (parse_valid library xml b counter).0
  unfolding parse_valid
  parse_valid-Promises valid true e = inr (inl e)
  parse_valid-Promises valid false e = parse_read-Promises valid e (library.parse xml) refl

  parse_validated-Promises :
      (o : Option ValidationError)
      → library.validate xml ≡ o
      → Promises library xml (parse_validated library xml o counter).0
  unfolding parse_validated
  parse_validated-Promises (some e) invalid = inl (λ valid. some-ne-none _ (sym invalid ∙ valid))
  parse_validated-Promises none valid = parse_valid-Promises valid _ refl

  parse_bpmn-Promises : Promises library xml (parse_bpmn library xml counter).0
  unfolding parse_bpmn
  parse_bpmn-Promises = parse_validated-Promises (library.validate xml) refl

thrown_or_parsed :
    (library : XmlLibrary) (xml : String) (o : Outcome)
    → Promises library xml o
    → IsRefused library xml
    → (m : String) × (o ≡ thrown m)
thrown_or_parsed library xml (thrown m) _ _ = (m, refl)
thrown_or_parsed library xml (parsed r) (fine, _) refused = absurd (fine refused)

-- A call throws exactly when the validator reports an error, the text has a DOCTYPE outside its
-- comments and CDATA sections, or the library's parser throws.
pub parse_bpmn-thrown_iff :
    (library : XmlLibrary) (xml : String) (counter : ℕ)
    → ((m : String) × ((parse_bpmn library xml counter).0 ≡ thrown m)) ↔ IsRefused library xml
parse_bpmn-thrown_iff library xml counter = (
  λ (m, e). subst (Promises library xml) e (parse_bpmn-Promises library xml counter),
  thrown_or_parsed library xml _ (parse_bpmn-Promises library xml counter),
)

-- If a call returns definitions, then the text was not refused, the definitions keep it verbatim,
-- and every process in them is well formed.
pub parse_bpmn-IsParse :
    (library : XmlLibrary) (xml : String) (counter : ℕ) {result : BpmnDefinitions}
    → (parse_bpmn library xml counter).0 ≡ parsed result
    → (¬ IsRefused library xml) × IsParse xml result
parse_bpmn-IsParse library xml counter e =
    subst (Promises library xml) e (parse_bpmn-Promises library xml counter)
