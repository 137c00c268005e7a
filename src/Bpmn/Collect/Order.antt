-- ===== src/Bpmn/Collect/Order.antt =====
-- In which order the deep collectors of packages/js/sdk/src/bpmn/parser.ts list what they find.
use bfw_engine.Common.{
  List, [], ◌∷◌, ◌++◌, Bool, not, ◌==◌, one, or_default, Option-cases, refl, ◌≡◌, append_assoc,
  append-nil, Bool-cases, inl, inr, if◌then◌else◌,
}
use bfw_engine.Xml.{OrderedNode, Nodes, element, text, nil, cons, has_tag, attr}
use bfw_engine.Bpmn.Scalars.{leading_float, leading_integer, parse_leading_number}
use bfw_engine.Bpmn.Model.{Lane, Association, LinterRulesetScore}
use bfw_engine.Bpmn.Leaves.{parse_lane, parse_association_element}
use bfw_engine.Bpmn.Collect.{
  collect_lanes_deep, collect_lanes_each, collect_associations_deep, collect_associations_each,
  collect_linter_scores, collect_scores_each, read_score,
}

-- What is listed for one element and the list of what its children give, by post-order for lanes,
-- and without a look inside an association or a score.
abbrev pub lane_here : OrderedNode → List Lane
lane_here node = if has_tag "lane" node then parse_lane node ∷ [] else []

mutual
  pub lanes_below : OrderedNode → List Lane
  lanes_below (element _ _ kids) = lanes_of_each kids
  lanes_below (text _) = []

  pub lanes_of_each : Nodes → List Lane
  lanes_of_each nil = []
  lanes_of_each (cons child rest) = lanes_below child ++ (lane_here child ++ lanes_of_each rest)

mutual
  unfolding collect_lanes_deep lanes_below

  lanes_deep :
      (node : OrderedNode) (acc : List Lane) → collect_lanes_deep node acc ≡ acc ++ lanes_below node
  lanes_deep (element _ _ kids) acc = lanes_each kids acc
  lanes_deep (text _) acc = simp append-nil

  lanes_each :
      (kids : Nodes) (acc : List Lane) → collect_lanes_each kids acc ≡ acc ++ lanes_of_each kids
  lanes_each nil acc = simp append-nil
  lanes_each (cons child rest) acc = elim (Bool-cases (has_tag "lane" child)) [
    | inl e ↦ simp (e, lanes_deep child acc, lanes_each rest, append_assoc)
    | inr e ↦ simp (e, lanes_deep child acc, lanes_each rest, append_assoc)
  ]

mutual
  pub associations_below : OrderedNode → List Association
  associations_below (element _ _ kids) = associations_of_each kids
  associations_below (text _) = []

  pub associations_of_each : Nodes → List Association
  associations_of_each nil = []
  associations_of_each (cons child rest) =
      (if has_tag "association" child
        then parse_association_element child ∷ []
        else associations_below child)
      ++ associations_of_each rest

mutual
  unfolding collect_associations_deep associations_below

  associations_deep :
      (node : OrderedNode) (acc : List Association)
      → collect_associations_deep node acc ≡ acc ++ associations_below node
  associations_deep (element _ _ kids) acc = associations_each kids acc
  associations_deep (text _) acc = simp append-nil

  associations_each :
      (kids : Nodes) (acc : List Association)
      → collect_associations_each kids acc ≡ acc ++ associations_of_each kids
  associations_each nil acc = simp append-nil
  associations_each (cons child rest) acc = elim (Bool-cases (has_tag "association" child)) [
    | inl e ↦ simp (e, associations_each rest, append_assoc)
    | inr e ↦ simp (e, associations_deep child acc, associations_each rest, append_assoc)
  ]

-- The record of a score, whose numbers are the numerals at the start of their attributes.
abbrev pub score_of : OrderedNode → LinterRulesetScore
score_of node = record {
  ruleset_id = or_default (attr node "rulesetId") "";
  score_percent = parse_leading_number (attr node "scorePercent") leading_float;
  compliance_status = attr node "complianceStatus";
  computed_at_iso = attr node "computedAtIso";
  schema_version = attr node "schemaVersion";
  max_points = parse_leading_number (attr node "maxPoints") leading_float;
  penalty_points = parse_leading_number (attr node "penaltyPoints") leading_float;
  raw_error_findings = parse_leading_number (attr node "rawErrorFindings") leading_integer;
  raw_warning_findings = parse_leading_number (attr node "rawWarningFindings") leading_integer;
}

-- An attribute that is there and not empty.
abbrev pub has_ruleset_id : OrderedNode → Bool
has_ruleset_id node = not (or_default (attr node "rulesetId") "" == "")

-- What is listed for a score element.
abbrev pub score_here : OrderedNode → List LinterRulesetScore
score_here node = one (has_ruleset_id node) (score_of node)

read_score-score_here : (node : OrderedNode) → read_score node ≡ score_here node
unfolding read_score
read_score-score_here node = elim (Option-cases (attr node "rulesetId")) [
  | inl e ↦ rw (read_score, e) refl
  | inr (s, e) ↦ elim (Bool-cases (s == "")) [
    | inl f ↦ rw (read_score, e, f) refl
    | inr f ↦ rw (read_score, e, f) refl
  ]
]

mutual
  pub scores_below : OrderedNode → List LinterRulesetScore
  scores_below (element _ _ kids) = scores_of_each kids
  scores_below (text _) = []

  pub scores_of_each : Nodes → List LinterRulesetScore
  scores_of_each nil = []
  scores_of_each (cons child rest) =
      (if has_tag "linterRulesetScore" child then score_here child else scores_below child)
      ++ scores_of_each rest

mutual
  unfolding collect_linter_scores scores_below

  scores_deep :
      (node : OrderedNode) (acc : List LinterRulesetScore)
      → collect_linter_scores node acc ≡ acc ++ scores_below node
  scores_deep (element _ _ kids) acc = scores_each kids acc
  scores_deep (text _) acc = simp append-nil

  scores_each :
      (kids : Nodes) (acc : List LinterRulesetScore)
      → collect_scores_each kids acc ≡ acc ++ scores_of_each kids
  scores_each nil acc = simp append-nil
  scores_each (cons child rest) acc = elim (Bool-cases (has_tag "linterRulesetScore" child)) [
    | inl e ↦ simp (e, read_score-score_here child, scores_each rest, append_assoc)
    | inr e ↦ simp (e, scores_deep child acc, scores_each rest, append_assoc)
  ]

-- Every lane below a node is appended once, in post-order: the lanes inside a lane come before it,
-- and what stands in an earlier child comes before what stands in a later one.
pub collect_lanes_deep-post_order :
    (node : OrderedNode) (acc : List Lane) → collect_lanes_deep node acc ≡ acc ++ lanes_below node
collect_lanes_deep-post_order node acc = lanes_deep node acc

-- Every association below a node is appended once, in document order, except those inside another
-- association.
pub collect_associations_deep-document_order :
    (node : OrderedNode) (acc : List Association)
    → collect_associations_deep node acc ≡ acc ++ associations_below node
collect_associations_deep-document_order node acc = associations_deep node acc

-- Every linter score below a node whose ruleset id is there and not empty is appended once, in
-- document order and with its attributes, except those inside another score.
pub collect_linter_scores-document_order :
    (node : OrderedNode) (acc : List LinterRulesetScore)
    → collect_linter_scores node acc ≡ acc ++ scores_below node
collect_linter_scores-document_order node acc = scores_deep node acc
