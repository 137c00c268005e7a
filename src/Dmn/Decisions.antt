-- ===== src/Dmn/Decisions.antt =====
-- Decisions and business knowledge models of packages/js/sdk/src/dmn/parser.ts.
pub mod Contents
use bfw_engine.Common.{String, List, [], ◌∷◌, Option, none, some, or_null}
use bfw_engine.Xml.{OrderedNode, element, text, children, attr, attr_or_empty, find_element}
use bfw_engine.Xml.Switch.{Cases, switch, for_each, push}
use bfw_engine.Dmn.Leaves.{
  parse_information_item, parse_information_requirement, parse_knowledge_requirement,
  parse_authority_requirement,
}
use bfw_engine.Dmn.Expressions.{parse_expression_body, last_expression, all_items, function_kind}
use bfw_engine.Dmn.Model.{
  MaybeExpression, absent, given, InformationItem, InformationRequirement, KnowledgeRequirement,
  AuthorityRequirement, FunctionDefinition, Decision, BusinessKnowledgeModel,
}

-- The variables of the loop in `parseDecision`.
pub record DecisionParts : Type 0 where
  pub expression : MaybeExpression
  pub information_requirements : List InformationRequirement
  pub knowledge_requirements : List KnowledgeRequirement
  pub authority_requirements : List AuthorityRequirement

abbrev pub no_decision_parts : DecisionParts
no_decision_parts = record {
  expression = absent;
  information_requirements = [];
  knowledge_requirements = [];
  authority_requirements = [];
}

abbrev pub requirement_cases : Cases DecisionParts
requirement_cases =
    (
      "informationRequirement",
      λ child s. record s {
        information_requirements =
            push s.information_requirements (parse_information_requirement child);
      },
    )
    ∷ (
      "knowledgeRequirement",
      λ child s. record s {
        knowledge_requirements = push s.knowledge_requirements (parse_knowledge_requirement child);
      },
    )
    ∷ (
      "authorityRequirement",
      λ child s. record s {
        authority_requirements = push s.authority_requirements (parse_authority_requirement child);
      },
    )
    ∷ []

-- `if (parsedExpression !== null) … else …`
abbrev pub take_expression : MaybeExpression → OrderedNode → DecisionParts → DecisionParts
take_expression (given e) child s = record s { expression = given e }
take_expression absent child s = switch requirement_cases child s

-- one round of the loop
unfoldable pub decision_step : OrderedNode → DecisionParts → DecisionParts
unfolding parse_expression_body parse_information_requirement parse_knowledge_requirement
    parse_authority_requirement
decision_step child s = take_expression (parse_expression_body child) child s

abbrev variable_of : Option OrderedNode → Option InformationItem
variable_of none = none
variable_of (some node) = some (parse_information_item node)

-- `variable.name !== '' ? variable.name : null`
abbrev label_of : Option InformationItem → Option String
label_of none = none
label_of (some item) = or_null item.name

unfoldable pub parse_decision : OrderedNode → Decision
unfolding attr find_element parse_information_item for_each decision_step
parse_decision node =
    let variable = variable_of (find_element (children node) "variable") in
    let parts = for_each decision_step (children node) no_decision_parts in
    record {
      id = attr_or_empty node "id";
      name = attr node "name";
      output_label = label_of variable;
      expression = parts.expression;
      information_requirements = parts.information_requirements;
      knowledge_requirements = parts.knowledge_requirements;
      authority_requirements = parts.authority_requirements;
      variable = variable;
    }

-- `parseFunctionDefinition`, where it is not an expression itself
unfoldable pub parse_function_definition : OrderedNode → FunctionDefinition
unfolding attr function_kind all_items last_expression
parse_function_definition (element tag attributes kids) =
    let node = element tag attributes kids in
    record {
      id = attr node "id";
      kind = function_kind (attr node "kind");
      formal_parameters = all_items "formalParameter" kids;
      body = last_expression "formalParameter" kids absent;
    }
parse_function_definition (text s) = record {
  id = none;
  kind = function_kind none;
  formal_parameters = [];
  body = absent;
}

-- The variables of the loop in `parseBusinessKnowledgeModel`.
pub record ModelParts : Type 0 where
  pub encapsulated_logic : Option FunctionDefinition
  pub knowledge_requirements : List KnowledgeRequirement
  pub authority_requirements : List AuthorityRequirement
  pub variable : Option InformationItem

abbrev pub no_model_parts : ModelParts
no_model_parts = record {
  encapsulated_logic = none;
  knowledge_requirements = [];
  authority_requirements = [];
  variable = none;
}

abbrev pub model_cases : Cases ModelParts
model_cases =
    (
      "encapsulatedLogic",
      λ child s. record s { encapsulated_logic = some (parse_function_definition child) },
    )
    ∷ ("variable", λ child s. record s { variable = some (parse_information_item child) })
    ∷ (
      "knowledgeRequirement",
      λ child s. record s {
        knowledge_requirements = push s.knowledge_requirements (parse_knowledge_requirement child);
      },
    )
    ∷ (
      "authorityRequirement",
      λ child s. record s {
        authority_requirements = push s.authority_requirements (parse_authority_requirement child);
      },
    )
    ∷ []

unfoldable pub parse_business_knowledge_model : OrderedNode → BusinessKnowledgeModel
unfolding attr for_each parse_function_definition parse_information_item parse_knowledge_requirement
    parse_authority_requirement
parse_business_knowledge_model node =
    let parts = for_each (switch model_cases) (children node) no_model_parts in
    record {
      id = attr_or_empty node "id";
      name = attr node "name";
      encapsulated_logic = parts.encapsulated_logic;
      knowledge_requirements = parts.knowledge_requirements;
      authority_requirements = parts.authority_requirements;
      variable = parts.variable;
    }
