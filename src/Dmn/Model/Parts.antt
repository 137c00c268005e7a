-- ===== src/Dmn/Model/Parts.antt =====
-- Requirements, services, item definitions, imports and diagrams (packages/js/sdk/src/dmn/model.ts).
use bfw_engine.Common.{String, Bool, List, Option}

pub record InputData : Type 0 where
  pub id : String
  pub name : String
  pub type_ref : Option String

pub record InformationRequirement : Type 0 where
  pub id : Option String
  pub required_decision_id : Option String
  pub required_input_id : Option String

pub record KnowledgeRequirement : Type 0 where
  pub id : Option String
  pub required_knowledge_id : String

pub record AuthorityRequirement : Type 0 where
  pub id : Option String
  pub required_authority_id : Option String
  pub required_decision_id : Option String
  pub required_input_id : Option String

pub record KnowledgeSource : Type 0 where
  pub id : String
  pub name : Option String
  pub type : Option String
  pub authority_requirements : List AuthorityRequirement

pub record DecisionService : Type 0 where
  pub id : String
  pub name : Option String
  pub output_decisions : List String
  pub encapsulated_decisions : List String
  pub input_decisions : List String
  pub input_data : List String

pub record Import : Type 0 where
  pub id : Option String
  pub namespace : String
  pub location_uri : Option String
  pub import_type : String

-- An item definition holds those of its components.
mutual
  pub data ItemDefinition : Type 0 where
    item_definition :
        (id name : String) (type_ref allowed_values : Option String)
        (item_components : ItemDefinitions) (is_collection : Bool)
        → ItemDefinition

  pub data ItemDefinitions : Type 0 where
    nil : ItemDefinitions
    cons : ItemDefinition → ItemDefinitions → ItemDefinitions

-- Coordinates are kept as the texts of the numbers that are read.
pub record Bounds : Type 0 where
  pub x : String
  pub y : String
  pub width : String
  pub height : String

pub record Point : Type 0 where
  pub x : String
  pub y : String

pub record Shape : Type 0 where
  pub id : Option String
  pub dmn_element_ref : String
  pub bounds : Bounds

pub record Edge : Type 0 where
  pub id : Option String
  pub dmn_element_ref : String
  pub waypoints : List Point

pub record Diagram : Type 0 where
  pub id : Option String
  pub name : Option String
  pub shapes : List Shape
  pub edges : List Edge

pub record Dmndi : Type 0 where
  pub diagrams : List Diagram
