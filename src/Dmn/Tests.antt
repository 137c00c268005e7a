-- ===== src/Dmn/Tests.antt =====
-- A small decision model, what the DMN parser makes of it, and the theorems applied to it.
use bfw_engine.Common.{String, [], ◌∷◌, map, none, some, ◌≡◌, refl, trim_end}
use bfw_engine.Xml.{OrderedNode, Nodes, element, text, nil, cons, children, find_all_elements}
use bfw_engine.Dmn.Texts.{fragment_id_from_href}
use bfw_engine.Dmn.Texts.References.{fragment_id_from_href-hash}
use bfw_engine.Dmn.Scalars.{parse_hit_policy}
use bfw_engine.Dmn.Scalars.Policies.{is_table_policy, policy_text, parse_hit_policy-policy_text}
use bfw_engine.Dmn.Tables.{parse_decision_table, parse_rule}
use bfw_engine.Dmn.Tables.Contents.{parse_decision_table-children}
use bfw_engine.Dmn.Expressions.{parse_expression_body}
use bfw_engine.Dmn.Expressions.Parts.{part, parse_expression_body-parts}
use bfw_engine.Dmn.Decisions.{parse_decision}
use bfw_engine.Dmn.Decisions.Contents.{parse_decision-children}
use bfw_engine.Dmn.Document.{parse_definitions}
use bfw_engine.Dmn.Document.Contents.{parse_definitions-children}
use bfw_engine.Dmn.Model.{given, boxed_conditional, collect, sum, DmnHitPolicy}

abbrev text_element : String → OrderedNode
text_element s = element "text" [] (cons (text s) nil)

abbrev table : OrderedNode
table = element "decisionTable" (("@_hitPolicy", "Collect") ∷ ("@_aggregation", "sum") ∷ []) (
    cons (element "input" (("@_id", "in_1") ∷ []) nil) (
      cons (element "output" (("@_id", "out_1") ∷ []) nil) (
        cons
          (element "rule" (("@_id", "rule_1") ∷ []) (
            cons (element "inputEntry" [] (cons (text_element "> 3") nil))
              (cons (element "outputEntry" [] (cons (text_element "7") nil)) nil)))
          nil)))

abbrev branch_of : String → String → OrderedNode
branch_of tag s =
    element tag [] (cons (element "literalExpression" [] (cons (text_element s) nil)) nil)

abbrev conditional : OrderedNode
conditional =
    element "conditional" []
      (cons (branch_of "if" "true") (cons (branch_of "then" "1") (cons (branch_of "else" "2") nil)))

abbrev decision : OrderedNode
decision = element "decision" (("@_id", "decision_1") ∷ []) (
    cons
      (element "informationRequirement" []
        (cons (element "requiredInput" (("@_href", "#input_1") ∷ []) nil) nil))
      (cons conditional (cons table nil)))

abbrev model : OrderedNode
model = element "definitions" (("@_id", "model_1") ∷ ("@_targetNamespace", "urn:x") ∷ []) (
    cons (element "inputData" (("@_id", "input_1") ∷ ("@_name", "Age") ∷ []) nil)
      (cons decision (cons (element "DMNDI" [] nil) nil)))

reads_table :
    ((parse_decision_table table).hit_policy ≡ collect)
    × ((parse_decision_table table).aggregation ≡ some sum)
    × (map parse_rule (find_all_elements (children table) "rule")
        ≡ (parse_decision_table table).rules)
unfolding parse_decision_table parse_rule find_all_elements
reads_table = (refl, refl, refl)

parse_definitions-children_example :
    (parse_definitions model "<xml/>").decisions ≡ parse_decision decision ∷ []
unfolding find_all_elements
parse_definitions-children_example = (parse_definitions-children model "<xml/>").0

parse_decision_table-children_example :
    (parse_decision_table table).rules ≡ map parse_rule (find_all_elements (children table) "rule")
parse_decision_table-children_example = (parse_decision_table-children table).2

parse_decision-children_example : (parse_decision decision).expression ≡ parse_expression_body table
unfolding parse_expression_body
parse_decision-children_example = (parse_decision-children decision).0

-- the branches of a conditional, with a second `else`
abbrev branches : Nodes
branches =
    cons (branch_of "if" "true")
      (cons (branch_of "then" "1") (cons (branch_of "else" "2") (cons (branch_of "else" "3") nil)))

parse_expression_body-parts_example :
    parse_expression_body (element "conditional" (("@_id", "c") ∷ []) branches)
    ≡ given (
        boxed_conditional
          (some "c")
          (part "if" branches)
          (part "then" branches)
          (parse_expression_body (element "literalExpression" [] (cons (text_element "3") nil))))
unfolding parse_expression_body
parse_expression_body-parts_example = (parse_expression_body-parts (("@_id", "c") ∷ []) branches).0

parse_hit_policy-policy_text_example :
    parse_hit_policy (some "output_order") ≡ DmnHitPolicy.output_order
unfolding policy_text is_table_policy
parse_hit_policy-policy_text_example =
    (parse_hit_policy-policy_text none DmnHitPolicy.output_order refl).1

reads_fragment : fragment_id_from_href (some "#input 1") ≡ some "input 1"
unfolding trim_end
reads_fragment = fragment_id_from_href-hash "input 1" refl
