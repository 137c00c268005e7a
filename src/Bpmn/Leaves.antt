-- ===== src/Bpmn/Leaves.antt =====
-- The parts of packages/js/sdk/src/bpmn/parser.ts that read one element with no flow node inside.
pub mod Listed
pub use bfw_engine.Xml.{attr_or_empty, child_or_null}
use bfw_engine.Common.{
  String, List, [], ◌∷◌, ◌++◌, Option, none, some, ◌==◌, is, or_null, or_default, decimal,
  if◌then◌else◌, ℕ, ◌+◌, false,
}
use Prim.Native.String
use bfw_engine.Xml.{
  OrderedNode, has_tag, children, attr, child_text, text_content, find_element, find_all_elements,
  get_extension_children,
}
use bfw_engine.Bpmn.Scalars.{Integer, parse_json_text, parse_int_value}
use bfw_engine.Bpmn.Model.{
  SequenceFlow, Lane, Association, DataObject, DataObjectReference, DataStore, DataStoreReference,
  DataAssociation, MultiInstance, StandardLoop, Mapping, Mappings,
}

unfoldable pub parse_sequence_flow : OrderedNode → SequenceFlow
unfolding attr child_text
parse_sequence_flow node = record {
  id = attr_or_empty node "id";
  name = attr node "name";
  source_ref = attr_or_empty node "sourceRef";
  target_ref = attr_or_empty node "targetRef";
  condition_expression = child_or_null (children node) "conditionExpression";
  is_default = false;
}

-- the texts of the elements that are not empty
unfoldable pub non_empty_texts : List OrderedNode → List String
non_empty_texts [] = []
non_empty_texts (child ∷ rest) =
    let later = non_empty_texts rest in
    let ref = text_content child in if ref == "" then later else ref ∷ later

unfoldable pub parse_lane : OrderedNode → Lane
unfolding attr find_all_elements non_empty_texts text_content
parse_lane node = record {
  id = attr_or_empty node "id";
  name = attr node "name";
  flow_node_refs = non_empty_texts (find_all_elements (children node) "flowNodeRef");
}

unfoldable pub parse_data_object : OrderedNode → DataObject
unfolding attr child_text get_extension_children parse_json_text
parse_data_object node =
    let value_text = child_text (get_extension_children (children node)) "valueContract" in
    record {
      id = attr_or_empty node "id";
      name = attr node "name";
      item_subject_ref = attr node "itemSubjectRef";
      value_contract = if value_text == "" then none else parse_json_text value_text;
    }

unfoldable pub parse_data_object_reference : OrderedNode → DataObjectReference
unfolding attr
parse_data_object_reference node = record {
  id = attr_or_empty node "id";
  name = attr node "name";
  data_object_ref = attr node "dataObjectRef";
  data_state = attr node "dataState";
}

unfoldable pub parse_data_store_reference : OrderedNode → DataStoreReference
unfolding attr
parse_data_store_reference node = record {
  id = attr_or_empty node "id";
  name = attr node "name";
  data_store_ref = attr node "dataStoreRef";
  data_state = attr node "dataState";
}

-- `text !== null ? parseIntValue(text) : null`
abbrev int_or_null : Option String → Option Integer
int_or_null none = none
int_or_null (some digits) = parse_int_value digits

unfoldable pub parse_data_store : OrderedNode → DataStore
unfolding attr parse_int_value
parse_data_store node = record {
  id = attr_or_empty node "id";
  name = attr node "name";
  capacity = int_or_null (attr node "capacity");
  is_unlimited = is (attr node "isUnlimited") "true";
  item_subject_ref = attr node "itemSubjectRef";
}

unfoldable pub parse_association_element : OrderedNode → Association
unfolding attr
parse_association_element node = record {
  id = attr_or_empty node "id";
  source_ref = attr node "sourceRef";
  target_ref = attr node "targetRef";
  association_direction = attr node "associationDirection";
}

unfoldable pub parse_association : ℕ → OrderedNode → String → DataAssociation × ℕ
unfolding attr child_text decimal
parse_association counter node prefix =
    let counter' = counter + 1 in
    (
      record {
        id =
            or_default (attr node "id")
              (String.◌++◌ prefix (String.◌++◌ "_auto_" (decimal counter')));
        source_ref = child_or_null (children node) "sourceRef";
        target_ref = child_or_null (children node) "targetRef";
        value_expression = child_or_null (children node) "transformation";
      },
      counter',
    )

unfoldable pub data_item_name : List OrderedNode → String → String
unfolding attr find_element
data_item_name nodes tag = elim (find_element nodes tag) [
  | none ↦ ""
  | some node ↦ attr_or_empty node "name"
]

-- `first || second || null`
abbrev either_or_null : String → String → Option String
either_or_null first second = if first == "" then or_null second else some first

unfoldable pub parse_multi_instance : OrderedNode → MultiInstance
unfolding attr child_text get_extension_children data_item_name parse_int_value
parse_multi_instance node =
    let kids = children node in
    let ext_kids = get_extension_children kids in
    let max_iterations_text = child_text ext_kids "maxIterations" in
    record {
      is_sequential = is (attr node "isSequential") "true";
      collection_expression =
          either_or_null (child_text ext_kids "inputCollection") (child_text kids "loopDataInput");
      element_variable =
          either_or_null (child_text ext_kids "elementVariable")
            (data_item_name kids "inputDataItem");
      completion_condition = child_or_null kids "completionCondition";
      output_collection =
          either_or_null (child_text ext_kids "outputCollection")
            (child_text kids "loopDataOutput");
      output_element_variable =
          either_or_null (child_text ext_kids "outputElementVariable")
            (data_item_name kids "outputDataItem");
      loop_break_condition = child_or_null ext_kids "loopBreakCondition";
      loop_interval = child_or_null ext_kids "loopInterval";
      max_iterations =
          if max_iterations_text == "" then none else parse_int_value max_iterations_text;
      loop_cardinality = child_or_null kids "loopCardinality";
    }

unfoldable pub parse_standard_loop : OrderedNode → StandardLoop
unfolding attr child_text get_extension_children parse_int_value
parse_standard_loop node =
    let kids = children node in
    record {
      test_before = is (attr node "testBefore") "true";
      loop_condition = child_or_null kids "loopCondition";
      loop_maximum = int_or_null (attr node "loopMaximum");
      loop_interval = child_or_null (get_extension_children kids) "loopInterval";
    }

abbrev pub read_mapping : OrderedNode → Mapping
read_mapping node = record {
  source = attr_or_empty node "source";
  target = attr_or_empty node "target";
}

-- The loop of `parseMappings`, over the lists that it pushes to.
unfoldable pub mappings_from : Mappings → List OrderedNode → Mappings
unfolding attr
mappings_from m [] = m
mappings_from m (child ∷ rest) =
    mappings_from
      (if has_tag "inputMapping" child
        then record m { in_mappings = m.in_mappings ++ read_mapping child ∷ [] }
        else if has_tag "outputMapping" child
        then record m { out_mappings = m.out_mappings ++ read_mapping child ∷ [] }
        else m)
      rest

unfoldable pub parse_mappings : List OrderedNode → Mappings
unfolding mappings_from
parse_mappings ext_kids = mappings_from (record { in_mappings = []; out_mappings = [] }) ext_kids
