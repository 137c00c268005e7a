-- ===== src/Dmn/Scalars/Policies.antt =====
-- The hit policies that `parseHitPolicy` of packages/js/sdk/src/dmn/parser.ts gives, beside the texts
-- of the enumeration in packages/js/sdk/src/types/enums.ts.
use bfw_engine.Common.{
  String, Bool, true, false, List, [], ◌∷◌, Option, some, lookup, or_default, ◌==◌, ◌≡◌, refl, trim,
  to_upper_case, if◌then◌else◌, Bool-cases, Option-cases, inl, inr,
}
use bfw_engine.Dmn.Texts.{present, replace_spaces}
use bfw_engine.Dmn.Model.{
  DmnHitPolicy, unique, first, any, collect, rule_order, output_order, priority, literal,
  boxed_expression,
}
use bfw_engine.Dmn.Scalars.{hit_policies, parse_hit_policy}

-- the values of the enumeration
unfoldable pub policy_text : DmnHitPolicy → String
policy_text unique = "unique"
policy_text first = "first"
policy_text any = "any"
policy_text collect = "collect"
policy_text rule_order = "rule_order"
policy_text output_order = "output_order"
policy_text priority = "priority"
policy_text literal = "literal"
policy_text boxed_expression = "boxed_expression"

-- Whether a decision table can have the policy: the others are the engine's own.
unfoldable pub is_table_policy : DmnHitPolicy → Bool
is_table_policy literal = false
is_table_policy boxed_expression = false
is_table_policy _ = true

-- what the cases of a switch give
abbrev pub results {ℓ} : {A : Type ℓ} → List (String × A) → List A
results [] = []
results ((k, v) ∷ rest) = v ∷ results rest

abbrev all_table_policies : List DmnHitPolicy → Bool
all_table_policies [] = true
all_table_policies (p ∷ rest) = if is_table_policy p then all_table_policies rest else false

lookup-table_policy :
    (m : List (String × DmnHitPolicy)) (key : String)
    → all_table_policies (results m) ≡ true
    → is_table_policy (or_default (lookup key m) unique) ≡ true
unfolding is_table_policy
lookup-table_policy [] key h = refl
lookup-table_policy ((k, v) ∷ rest) key h = elim (Bool-cases (is_table_policy v)) [
  | inl e ↦ elim (Bool-cases (k == key)) [
    | inl f ↦ rw (f, e) refl
    | inr f ↦ rw f (lookup-table_policy rest key (rw e at h))
  ]
  | inr e ↦ cc
]

given_policy : (raw : Option String) → is_table_policy (parse_hit_policy raw) ≡ true
unfolding parse_hit_policy is_table_policy
given_policy raw = elim (Option-cases (present raw)) [
  | inl e ↦ rw (e, parse_hit_policy) refl
  | inr (s, e) ↦
      rw (e, parse_hit_policy)
        (lookup-table_policy hit_policies (replace_spaces "_" false (to_upper_case (trim s))) refl)
]

read_policy :
    (p : DmnHitPolicy) → is_table_policy p ≡ true → parse_hit_policy (some (policy_text p)) ≡ p
unfolding parse_hit_policy policy_text is_table_policy
read_policy unique h = refl
read_policy first h = refl
read_policy any h = refl
read_policy collect h = refl
read_policy rule_order h = refl
read_policy output_order h = refl
read_policy priority h = refl
read_policy literal h = cc
read_policy boxed_expression h = cc

-- Whatever the attribute holds, the policy of a decision table is one that a table can have, never one
-- of the two that stand for a literal or boxed expression; and any policy that a table can have is read
-- back from its text in the enumeration.
pub parse_hit_policy-policy_text :
    (raw : Option String) (p : DmnHitPolicy)
    → is_table_policy p ≡ true
    → (is_table_policy (parse_hit_policy raw) ≡ true)
      × (parse_hit_policy (some (policy_text p)) ≡ p)
parse_hit_policy-policy_text raw p h = (given_policy raw, read_policy p h)
