-- ===== src/Dmn/Model.antt =====
-- The typed model that the DMN parser builds (packages/js/sdk/src/dmn/model.ts). `null` is `none`. The
-- kinds of expression contain one another; each is a constructor here, with its fields in order.
mod Tables
mod Parts
pub use Tables.*
pub use Parts.*
use bfw_engine.Common.{String, Bool, List, [], ◌∷◌, Option, none, some}

-- `DmnExpressionBody`, the lists of it, and `DmnExpressionBody | null`.
mutual
  pub data Expression : Type 0 where
    decision_table : DecisionTable → Expression
    literal_expression : LiteralExpression → Expression
    boxed_context : (id : Option String) (context_entries : ContextEntries) → Expression
    boxed_invocation :
        (id : Option String) (called_function : String) (bindings : Bindings) → Expression
    boxed_list : (id : Option String) (elements : Expressions) → Expression
    relation : (id : Option String) (columns : List InformationItem) (rows : Rows) → Expression
    function_definition :
        (id : Option String) (kind : String) (formal_parameters : List InformationItem)
        (body : MaybeExpression)
        → Expression
    boxed_conditional :
        (id : Option String) (if_expression then_expression else_expression : MaybeExpression)
        → Expression
    boxed_filter :
        (id : Option String) (in_expression match_expression : MaybeExpression) → Expression
    boxed_for :
        (id : Option String) (iterator_variable : String)
        (in_expression return_expression : MaybeExpression)
        → Expression
    boxed_every boxed_some :
        (id : Option String) (iterator_variable : String)
        (in_expression satisfies_expression : MaybeExpression)
        → Expression

  pub data MaybeExpression : Type 0 where
    absent : MaybeExpression
    given : Expression → MaybeExpression

  pub data Expressions : Type 0 where
    nil : Expressions
    cons : Expression → Expressions → Expressions

  pub data Rows : Type 0 where
    no_row : Rows
    row : Expressions → Rows → Rows

  pub data ContextEntries : Type 0 where
    no_entry : ContextEntries
    context_entry :
        (variable : Option InformationItem) → MaybeExpression → ContextEntries → ContextEntries

  pub data Bindings : Type 0 where
    no_binding : Bindings
    binding : (parameter : Option InformationItem) → MaybeExpression → Bindings → Bindings

pub record FunctionDefinition : Type 0 where
  pub id : Option String
  pub kind : String
  pub formal_parameters : List InformationItem
  pub body : MaybeExpression

pub record Decision : Type 0 where
  pub id : String
  pub name : Option String
  pub output_label : Option String
  pub expression : MaybeExpression
  pub information_requirements : List InformationRequirement
  pub knowledge_requirements : List KnowledgeRequirement
  pub authority_requirements : List AuthorityRequirement
  pub variable : Option InformationItem

pub record BusinessKnowledgeModel : Type 0 where
  pub id : String
  pub name : Option String
  pub encapsulated_logic : Option FunctionDefinition
  pub knowledge_requirements : List KnowledgeRequirement
  pub authority_requirements : List AuthorityRequirement
  pub variable : Option InformationItem

pub record Definitions : Type 0 where
  pub id : Option String
  pub name : Option String
  pub namespace : Option String
  pub decisions : List Decision
  pub input_data : List InputData
  pub business_knowledge_models : List BusinessKnowledgeModel
  pub knowledge_sources : List KnowledgeSource
  pub item_definitions : List ItemDefinition
  pub imports : List Import
  pub decision_services : List DecisionService
  pub dmndi : Option Dmndi
  pub raw_xml : String
