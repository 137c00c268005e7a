-- ===== src/Dmn/Model/Tables.antt =====
-- Decision tables, literal expressions and information items (packages/js/sdk/src/dmn/model.ts), and
-- the hit policies (packages/js/sdk/src/types/enums.ts).
use bfw_engine.Common.{String, List, Option}

pub data DmnHitPolicy : Type 0 where
  unique first any collect rule_order output_order priority : DmnHitPolicy
  literal boxed_expression : DmnHitPolicy

pub data DmnAggregation : Type 0 where
  sum min max count : DmnAggregation

pub data DmnOrientation : Type 0 where
  rule_as_row rule_as_column cross_table : DmnOrientation

pub record Input : Type 0 where
  pub id : String
  pub label : Option String
  pub input_expression : Option String
  pub input_values : Option String
  pub type_ref : Option String

pub record Output : Type 0 where
  pub id : String
  pub label : Option String
  pub name : Option String
  pub output_values : Option String
  pub type_ref : Option String
  pub default_output_value : Option String

pub record InputEntry : Type 0 where
  pub id : String
  pub text : String

pub record OutputEntry : Type 0 where
  pub id : String
  pub text : String

pub record Rule : Type 0 where
  pub id : String
  pub description : Option String
  pub input_entries : List InputEntry
  pub output_entries : List OutputEntry
  pub annotation_entries : List String

pub record DecisionTable : Type 0 where
  pub id : Option String
  pub hit_policy : DmnHitPolicy
  pub aggregation : Option DmnAggregation
  pub preferred_orientation : DmnOrientation
  pub inputs : List Input
  pub outputs : List Output
  pub rules : List Rule

pub record LiteralExpression : Type 0 where
  pub id : Option String
  pub text : String
  pub type_ref : Option String
  pub expression_language : Option String

pub record InformationItem : Type 0 where
  pub id : Option String
  pub name : String
  pub type_ref : Option String
