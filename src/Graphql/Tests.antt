-- ===== src/Graphql/Tests.antt =====
-- Concrete queries of packages/js/client/src/graphql/query-builder.ts.
use bfw_engine.Common.{false, true, [], ◌∷◌, some, none, ◌≡◌, refl}
use bfw_engine.Graphql.Values.{Members, Number, object, member, end, text, SortClause, desc}
use bfw_engine.Graphql.Selection.{
  SelectionField, scalar, nested, nil, cons, no_fragment, fragment, render_selection_field,
}
use bfw_engine.Graphql.Selection.Blocks.{IsSelections, render_selection_field-IsSelections}
use bfw_engine.Graphql.Query.{BuildListQueryParams, cursor, offset, build_list_query}
use bfw_engine.Graphql.Names.{to_snake_case}
use bfw_engine.Graphql.Responses.{ConnectionResponse, cursor_page, build_page_info, camel_key}
use bfw_engine.Graphql.Responses.RoundTrip.{camel_key-to_snake_case}
use bfw_engine.Graphql.Query.Variables.{requested, AsksFor, build_list_query-AsksFor}

abbrev ten : Number
ten = record { negative = false; magnitude = 10 }

abbrev started : SortClause
started = record { field = "startedAt"; direction = desc }

abbrev running : Members
running = member "state" (object (member "eq" (text "running") end)) end

abbrev running_instances : BuildListQueryParams
running_instances = record {
  resource_name = "processInstances";
  ash_type_name = "ProcessInstance";
  fields = cons (scalar "startedAt") nil;
  filter = some running;
  sort = some (started ∷ []);
  included = some (
      ("flowNodeInstances", record { fields = []; filter = none; sort = some (started ∷ []) })
      ∷ []);
  pagination = some (offset ten ten);
}

writes_the_query :
    (build_list_query running_instances).query
    ≡ "query ProcessInstancesList($filter: ProcessInstanceFilterInput, $sort: [ProcessInstanceSortInput], $limit: Int, $offset: Int) {\n  processInstances(filter: $filter, sort: $sort, limit: $limit, offset: $offset) {\n    results {\n      started_at\n      flow_node_instances(sort: [{field: STARTED_AT, order: DESC}]) {\n          __typename\n      }\n    }\n    count\n    hasNextPage\n    hasPreviousPage\n    pageNumber\n    lastPage\n    limit\n  }\n}"
unfolding build_list_query
writes_the_query = refl

-- A fragment with no field is left out, and a nested field with nothing inside asks for its type.
abbrev flow_nodes : SelectionField
flow_nodes =
    nested "flowNodes" (cons (scalar "id") nil)
      (fragment "TaskNode" nil (fragment "UserTaskNode" (cons (scalar "dueDate") nil) no_fragment))

renders_fragments :
    render_selection_field flow_nodes "  "
    ≡ "  flow_nodes {" ∷ "    id" ∷ "    ... on UserTaskNode {" ∷ "      due_date" ∷ "    }" ∷ "  }"
      ∷ []
unfolding render_selection_field
renders_fragments = refl

build_list_query-AsksFor_example :
    AsksFor running_instances (requested running_instances) (build_list_query running_instances)
build_list_query-AsksFor_example = build_list_query-AsksFor running_instances

render_selection_field-IsSelections_example :
    IsSelections (render_selection_field flow_nodes "      ")
render_selection_field-IsSelections_example =
    render_selection_field-IsSelections flow_nodes "      " refl
      (refl, (refl, tt), (refl, tt, (refl, (refl, tt), tt)))

camel_key-to_snake_case_example :
    camel_key (to_snake_case "boundaryEventRefs2") ≡ "boundaryEventRefs2"
camel_key-to_snake_case_example = camel_key-to_snake_case "boundaryEventRefs2" refl

-- The second page of fifteen results, with the last five.
abbrev last_five : ConnectionResponse
last_five = record {
  count = 15;
  start_keyset = some "k10";
  end_keyset = some "k14";
  has_next_page = none;
  has_previous_page = none;
  page_number = none;
  last_page = none;
  limit = none;
}

-- The last page of fifteen results is said to have a next one.
last_page :
    build_page_info last_five (some (cursor (some ten) (some "k9") none none)) 5
    ≡ cursor_page 15 (some "k10") (some "k14") true true
unfolding build_page_info
last_page = refl
