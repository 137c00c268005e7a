-- ===== src/Dmn/Decisions/Contents.antt =====
-- What `parseDecision` of packages/js/sdk/src/dmn/parser.ts keeps of the children of a decision.
use bfw_engine.Common.{
  String, false, List, [], ◌∷◌, map, ◌==◌, eq_iff, Bool-cases, inl, inr, ◌≡◌, refl, ◌∙◌, ap,
}
use mathlib.Core.List.{foldl}
use bfw_engine.Xml.{OrderedNode, Nodes, element, text, children, find_all_elements}
use bfw_engine.Xml.Switch.{fills, for_each-push, for_each, switch}
use bfw_engine.Dmn.Leaves.{
  parse_information_requirement, parse_knowledge_requirement, parse_authority_requirement,
}
use bfw_engine.Dmn.Expressions.{parse_expression_body, or_else}
use bfw_engine.Dmn.Model.{MaybeExpression, absent, given}
use bfw_engine.Dmn.Decisions.{
  DecisionParts, no_decision_parts, requirement_cases, take_expression, decision_step,
  parse_decision,
}

-- The later expression, where there is one.
abbrev pub later : MaybeExpression → MaybeExpression → MaybeExpression
later found next = or_else next found

abbrev with_expression : MaybeExpression → DecisionParts → DecisionParts
with_expression e s = record s { expression = e }

take_no_requirement :
    (found : MaybeExpression) (tag : String) (attributes : List (String × String)) (kids : Nodes)
    (s : DecisionParts)
    → (tag == "informationRequirement") ≡ false
    → (tag == "knowledgeRequirement") ≡ false
    → (tag == "authorityRequirement") ≡ false
    → take_expression found (element tag attributes kids) s
      ≡ with_expression
          (or_else found s.expression)
          (switch requirement_cases (element tag attributes kids) s)
take_no_requirement absent tag attributes kids s e f g = rw (e, f, g)
take_no_requirement (given x) tag attributes kids s e f g = rw (e, f, g)

-- The tag of a requirement is that of no expression.
step-switch :
    (child : OrderedNode) (s : DecisionParts)
    → decision_step child s
      ≡ with_expression
          (later s.expression (parse_expression_body child))
          (switch requirement_cases child s)
unfolding decision_step parse_expression_body
step-switch (text t) s = refl
step-switch (element tag attributes kids) s = elim (Bool-cases (tag == "informationRequirement")) [
  | inl e ↦ rw ((eq_iff tag "informationRequirement").0 e)
  | inr e ↦ elim (Bool-cases (tag == "knowledgeRequirement")) [
    | inl f ↦ rw ((eq_iff tag "knowledgeRequirement").0 f)
    | inr f ↦ elim (Bool-cases (tag == "authorityRequirement")) [
      | inl g ↦ rw ((eq_iff tag "authorityRequirement").0 g)
      | inr g ↦ take_no_requirement _ tag attributes kids s e f g
    ]
  ]
]

switch-with_expression :
    (child : OrderedNode) (e : MaybeExpression) (s : DecisionParts)
    → switch requirement_cases child (with_expression e s)
      ≡ with_expression e (switch requirement_cases child s)
switch-with_expression (text t) x s = refl
switch-with_expression (element tag attributes kids) x s =
    elim (Bool-cases (tag == "informationRequirement")) [
      | inl e ↦ rw e
      | inr e ↦ elim (Bool-cases (tag == "knowledgeRequirement")) [
        | inl f ↦ rw (e, f)
        | inr f ↦ elim (Bool-cases (tag == "authorityRequirement")) [
          | inl g ↦ rw (e, f, g)
          | inr g ↦ rw (e, f, g)
        ]
      ]
    ]

for_each-with_expression :
    (kids : List OrderedNode) (e : MaybeExpression) (s : DecisionParts)
    → for_each (switch requirement_cases) kids (with_expression e s)
      ≡ with_expression e (for_each (switch requirement_cases) kids s)
unfolding for_each
for_each-with_expression [] e s = refl
for_each-with_expression (child ∷ rest) e s =
    rw (switch-with_expression child e s)
      (for_each-with_expression rest e (switch requirement_cases child s))

-- The loop is one over the requirements beside one over the expressions.
loop-lem :
    (kids : List OrderedNode) (s : DecisionParts)
    → for_each decision_step kids s
      ≡ with_expression
          (foldl later s.expression (map parse_expression_body kids))
          (for_each (switch requirement_cases) kids s)
unfolding for_each
loop-lem [] s = refl
loop-lem (child ∷ rest) s =
    let found = later s.expression (parse_expression_body child) in
    let next = switch requirement_cases child s in
    ap (for_each decision_step rest) (step-switch child s)
    ∙ (loop-lem rest (with_expression found next)
        ∙ ap (with_expression (foldl later found (map parse_expression_body rest)))
            (for_each-with_expression rest found next))

-- A decision has the last expression among its children, and each list of requirements holds what
-- its reader gives for the children of its tag, all of them and in document order: no requirement is
-- taken for an expression.
pub parse_decision-children :
    (node : OrderedNode)
    → ((parse_decision node).expression
        ≡ foldl later absent (map parse_expression_body (children node)))
      × ((parse_decision node).information_requirements
          ≡ map parse_information_requirement
              (find_all_elements (children node) "informationRequirement"))
      × ((parse_decision node).knowledge_requirements
          ≡ map parse_knowledge_requirement
              (find_all_elements (children node) "knowledgeRequirement"))
      × ((parse_decision node).authority_requirements
          ≡ map parse_authority_requirement
              (find_all_elements (children node) "authorityRequirement"))
unfolding parse_decision
parse_decision-children node =
    let loop = loop-lem (children node) no_decision_parts in
    (
      ap DecisionParts.expression loop,
      ap DecisionParts.information_requirements loop
          ∙ for_each-push requirement_cases DecisionParts.information_requirements
              parse_information_requirement (search fills depth 30) (children node) _ refl,
      ap DecisionParts.knowledge_requirements loop
          ∙ for_each-push requirement_cases DecisionParts.knowledge_requirements
              parse_knowledge_requirement (search fills depth 30) (children node) _ refl,
      ap DecisionParts.authority_requirements loop
          ∙ for_each-push requirement_cases DecisionParts.authority_requirements
              parse_authority_requirement (search fills depth 30) (children node) _ refl,
    )
