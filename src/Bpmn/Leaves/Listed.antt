-- ===== src/Bpmn/Leaves/Listed.antt =====
-- What `parseMappings` of packages/js/sdk/src/bpmn/parser.ts lists.
use bfw_engine.Common.{
  String, List, [], ◌∷◌, ◌++◌, ◌≡◌, sym, ◌∙◌, map, append_assoc, append-nil, ◌==◌, eq_iff,
  Bool-cases, inl, inr,
}
use bfw_engine.Xml.{OrderedNode, element, text, find_all_elements}
use bfw_engine.Bpmn.Model.{Mapping, Mappings}
use bfw_engine.Bpmn.Leaves.{read_mapping, mappings_from, parse_mappings}

abbrev found_mappings : String → List OrderedNode → List Mapping
found_mappings tag kids = map read_mapping (find_all_elements kids tag)

abbrev behind : Mappings → List Mapping → List Mapping → Mappings
behind m ins outs = record {
  in_mappings = m.in_mappings ++ ins;
  out_mappings = m.out_mappings ++ outs;
}

mappings_from-lists :
    (kids : List OrderedNode) (m : Mappings)
    → mappings_from m kids
      ≡ behind m (found_mappings "inputMapping" kids) (found_mappings "outputMapping" kids)
unfolding mappings_from find_all_elements
mappings_from-lists [] m = λ i. record {
  in_mappings = sym (append-nil m.in_mappings) i;
  out_mappings = sym (append-nil m.out_mappings) i;
}
mappings_from-lists (text s ∷ rest) m = mappings_from-lists rest m
mappings_from-lists (element tag attributes kids ∷ rest) m =
    elim (Bool-cases (tag == "inputMapping")) [
      | inl e ↦
          rw ((eq_iff tag "inputMapping").0 e) (mappings_from-lists rest _ ∙ simp append_assoc)
      | inr e ↦ elim (Bool-cases (tag == "outputMapping")) [
        | inl f ↦
            rw ((eq_iff tag "outputMapping").0 f) (mappings_from-lists rest _ ∙ simp append_assoc)
        | inr f ↦ rw (e, f) (mappings_from-lists rest m)
      ]
    ]

-- The mappings of extension elements are those of the `inputMapping` children and those of the
-- `outputMapping` children, each in document order.
pub parse_mappings_lem :
    (kids : List OrderedNode)
    → parse_mappings kids ≡ record {
      in_mappings = map read_mapping (find_all_elements kids "inputMapping");
      out_mappings = map read_mapping (find_all_elements kids "outputMapping");
    }
unfolding parse_mappings
parse_mappings_lem kids = mappings_from-lists kids (record { in_mappings = []; out_mappings = [] })
