-- ===== src/Bpmn/Collect.antt =====
-- The deep collectors of packages/js/sdk/src/bpmn/parser.ts: lanes, associations and linter
-- scores. Each walks the tree and pushes to the list that it is given.
pub mod Order
use bfw_engine.Common.{List, [], ◌∷◌, ◌++◌, none, some, ◌==◌, if◌then◌else◌}
use bfw_engine.Xml.{OrderedNode, Nodes, element, text, nil, cons, has_tag, attr}
use bfw_engine.Bpmn.Scalars.{leading_float, leading_integer, parse_leading_number}
use bfw_engine.Bpmn.Model.{Lane, Association, LinterRulesetScore}
use bfw_engine.Bpmn.Leaves.{parse_lane, parse_association_element}

unfoldable mutual
  pub collect_lanes_deep : OrderedNode → List Lane → List Lane
  collect_lanes_deep (element _ _ kids) lanes = collect_lanes_each kids lanes
  collect_lanes_deep (text _) lanes = lanes

  pub collect_lanes_each : Nodes → List Lane → List Lane
  collect_lanes_each nil lanes = lanes
  collect_lanes_each (cons child rest) lanes =
      let below = collect_lanes_deep child lanes in
      collect_lanes_each rest
        (if has_tag "lane" child then below ++ parse_lane child ∷ [] else below)

unfoldable mutual
  pub collect_associations_deep : OrderedNode → List Association → List Association
  collect_associations_deep (element _ _ kids) found = collect_associations_each kids found
  collect_associations_deep (text _) found = found

  pub collect_associations_each : Nodes → List Association → List Association
  collect_associations_each nil found = found
  collect_associations_each (cons child rest) found =
      let below = collect_associations_deep child found in
      collect_associations_each rest (
        if has_tag "association" child
        then found ++ parse_association_element child ∷ []
        else below)

-- The record pushed for one `linterRulesetScore`, unless it has no ruleset id.
unfoldable pub read_score : OrderedNode → List LinterRulesetScore
unfolding attr parse_leading_number
read_score child = elim (attr child "rulesetId") [
  | none ↦ []
  | some ruleset_id ↦
      if ruleset_id == ""
      then []
      else record {
        ruleset_id = ruleset_id;
        score_percent = parse_leading_number (attr child "scorePercent") leading_float;
        compliance_status = attr child "complianceStatus";
        computed_at_iso = attr child "computedAtIso";
        schema_version = attr child "schemaVersion";
        max_points = parse_leading_number (attr child "maxPoints") leading_float;
        penalty_points = parse_leading_number (attr child "penaltyPoints") leading_float;
        raw_error_findings = parse_leading_number (attr child "rawErrorFindings") leading_integer;
        raw_warning_findings =
            parse_leading_number (attr child "rawWarningFindings") leading_integer;
      }
        ∷ []
]

unfoldable mutual
  pub collect_linter_scores : OrderedNode → List LinterRulesetScore → List LinterRulesetScore
  collect_linter_scores (element _ _ kids) scores = collect_scores_each kids scores
  collect_linter_scores (text _) scores = scores

  pub collect_scores_each : Nodes → List LinterRulesetScore → List LinterRulesetScore
  collect_scores_each nil scores = scores
  collect_scores_each (cons child rest) scores =
      let below = collect_linter_scores child scores in
      collect_scores_each rest
        (if has_tag "linterRulesetScore" child then scores ++ read_score child else below)
