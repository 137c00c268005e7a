-- ===== src/Bpmn/Tests/Extensions.antt =====
-- Extension elements for packages/js/sdk/src/bpmn/parser.ts.
use bfw_engine.Common.{String, List, [], ◌∷◌, none, some, ◌≡◌, refl, map}
use bfw_engine.Xml.{OrderedNode, element, text, nil, cons, find_all_elements}
use bfw_engine.Bpmn.Leaves.{read_mapping, parse_mappings, non_empty_texts}
use bfw_engine.Bpmn.Leaves.Listed.{parse_mappings_lem}
use bfw_engine.Bpmn.Build.Scopes.{empty_scope, parse_process_extensions}
use bfw_engine.Bpmn.Build.Scopes.Extensions.{last_or, parse_process_extensions_lem}

abbrev leaf : String → String → OrderedNode
leaf tag content = element tag [] (cons (text content) nil)

abbrev mapping : String → String → String → OrderedNode
mapping tag source target = element tag (("@_source", source) ∷ ("@_target", target) ∷ []) nil

abbrev extensions : List OrderedNode
extensions =
    mapping "inputMapping" "order" "input"
    ∷ leaf "version" " 1.0 "
    ∷ mapping "outputMapping" "result" "invoice"
    ∷ leaf "version" "1.1"
    ∷ leaf "version" "  "
    ∷ mapping "inputMapping" "customer" "payer"
    ∷ []

takes_the_last_version : (parse_process_extensions extensions empty_scope).version ≡ some "1.1"
unfolding parse_process_extensions
takes_the_last_version = refl

parse_mappings_lem_example : parse_mappings extensions ≡ record {
  in_mappings = map read_mapping (find_all_elements extensions "inputMapping");
  out_mappings = map read_mapping (find_all_elements extensions "outputMapping");
}
parse_mappings_lem_example = parse_mappings_lem extensions

parse_process_extensions_lem_example :
    ((parse_process_extensions extensions empty_scope).version
      ≡ last_or none (non_empty_texts (find_all_elements extensions "version")))
    × ((parse_process_extensions extensions empty_scope).correlation_key
        ≡ last_or none (non_empty_texts (find_all_elements extensions "correlationKey")))
parse_process_extensions_lem_example = parse_process_extensions_lem extensions empty_scope
