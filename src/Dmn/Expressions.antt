-- ===== src/Dmn/Expressions.antt =====
-- `parseExpressionBody` of packages/js/sdk/src/dmn/parser.ts and the parsers of boxed expressions. The
-- tag that the program passes along is always that of the node.
pub mod Parts
use bfw_engine.Common.{
  String, List, [], ◌∷◌, Option, none, some, or_default, lookup, to_upper_case, ◌==◌, if◌then◌else◌,
}
use bfw_engine.Xml.{
  OrderedNode, Nodes, element, text, nil, cons, items, has_tag, attr, attr_or_empty,
}
use bfw_engine.Xml.Switch.{for_each, switch, push}
use bfw_engine.Dmn.Leaves.{parse_information_item}
use bfw_engine.Dmn.Tables.{parse_decision_table, parse_literal_expression}
use bfw_engine.Dmn.Model.{
  Expression, decision_table, literal_expression, boxed_context, boxed_invocation, boxed_list,
  relation, function_definition, boxed_conditional, boxed_filter, boxed_for, boxed_every,
  boxed_some, MaybeExpression, absent, given, Expressions, Rows, no_row, row, ContextEntries,
  no_entry, context_entry, Bindings, no_binding, binding, InformationItem,
}

-- What the switch of `parseExpressionBody` tells apart.
pub data ExpressionKind : Type 0 where
  is_table is_literal is_context is_invocation is_list is_relation is_function is_conditional :
      ExpressionKind
  is_filter is_for is_every is_some_quantifier : ExpressionKind

abbrev pub expression_kinds : List (String × ExpressionKind)
expression_kinds =
    ("decisionTable", is_table)
    ∷ ("literalExpression", is_literal)
    ∷ ("context", is_context)
    ∷ ("invocation", is_invocation)
    ∷ ("list", is_list)
    ∷ ("relation", is_relation)
    ∷ ("functionDefinition", is_function)
    ∷ ("conditional", is_conditional)
    ∷ ("filter", is_filter)
    ∷ ("for", is_for)
    ∷ ("every", is_every)
    ∷ ("some", is_some_quantifier)
    ∷ []

-- `const rawKind = attr(node, 'kind') ?? 'FEEL'`, with every spelling of FEEL in upper case
unfoldable pub function_kind : Option String → String
unfolding to_upper_case
function_kind raw =
    if to_upper_case (or_default raw "FEEL") == "FEEL" then "FEEL" else or_default raw "FEEL"

-- the last child of a tag, as an information item
unfoldable pub last_item : String → Nodes → Option InformationItem → Option InformationItem
unfolding parse_information_item
last_item tag nil found = found
last_item tag (cons child rest) found =
    last_item tag rest (if has_tag tag child then some (parse_information_item child) else found)

-- the children of a tag, as information items
unfoldable pub all_items : String → Nodes → List InformationItem
unfolding for_each parse_information_item
all_items tag kids =
    for_each (switch ((tag, λ child found. push found (parse_information_item child)) ∷ []))
      (items kids) []

-- `'text' in parsed && typeof parsed.text === 'string' ? parsed.text : ''`
abbrev pub literal_text : Expression → String
literal_text (literal_expression e) = e.text
literal_text _ = ""

abbrev pub prepend : MaybeExpression → Expressions → Expressions
prepend absent rest = rest
prepend (given e) rest = Expressions.cons e rest

abbrev pub or_else : MaybeExpression → MaybeExpression → MaybeExpression
or_else absent found = found
or_else (given e) found = given e

unfoldable mutual
  unfolding attr function_kind last_item all_items parse_decision_table parse_literal_expression

  pub parse_expression_body : OrderedNode → MaybeExpression
  parse_expression_body (text s) = absent
  parse_expression_body (element tag attributes kids) =
      let node = element tag attributes kids in
      elim (lookup tag expression_kinds) [
        | none ↦ absent
        | some is_table ↦ given (decision_table (parse_decision_table node))
        | some is_literal ↦ given (literal_expression (parse_literal_expression node))
        | some is_context ↦ given (boxed_context (attr node "id") (context_entries kids))
        | some is_invocation ↦
            given (boxed_invocation (attr node "id") (called_function kids) (bindings kids))
        | some is_list ↦ given (boxed_list (attr node "id") (expressions kids))
        | some is_relation ↦ given (relation (attr node "id") (all_items "column" kids) (rows kids))
        | some is_function ↦ given (
            function_definition (attr node "id") (function_kind (attr node "kind"))
              (all_items "formalParameter" kids) (last_expression "formalParameter" kids absent))
        | some is_conditional ↦ given (
            boxed_conditional (attr node "id") (branch "if" kids absent) (branch "then" kids absent)
              (branch "else" kids absent))
        | some is_filter ↦
            given
              (boxed_filter (attr node "id") (branch "in" kids absent) (branch "match" kids absent))
        | some is_for ↦ given (
            boxed_for (attr node "id") (attr_or_empty node "iteratorVariable")
              (branch "in" kids absent) (branch "return" kids absent))
        | some is_every ↦ given (
            boxed_every (attr node "id") (attr_or_empty node "iteratorVariable")
              (branch "in" kids absent) (branch "satisfies" kids absent))
        | some is_some_quantifier ↦ given (
            boxed_some (attr node "id") (attr_or_empty node "iteratorVariable")
              (branch "in" kids absent) (branch "satisfies" kids absent))
      ]

  -- the loop of `firstExpressionBodyInChildren`
  pub first_expression : Nodes → MaybeExpression
  first_expression nil = absent
  first_expression (cons child rest) =
      let later = first_expression rest in or_else (parse_expression_body child) later

  pub first_expression_in_children : OrderedNode → MaybeExpression
  first_expression_in_children (element tag attributes kids) = first_expression kids
  first_expression_in_children (text s) = absent

  -- `if (tag === …) found = firstExpressionBodyInChildren(child)`
  pub branch : String → Nodes → MaybeExpression → MaybeExpression
  branch tag nil found = found
  branch tag (cons child rest) found =
      branch tag rest (if has_tag tag child then first_expression_in_children child else found)

  -- the last child that is an expression, where those of a tag are passed over
  pub last_expression : String → Nodes → MaybeExpression → MaybeExpression
  last_expression skipped nil found = found
  last_expression skipped (cons child rest) found =
      last_expression skipped rest
        (if has_tag skipped child then found else or_else (parse_expression_body child) found)

  -- the children that are expressions, in order
  pub expressions : Nodes → Expressions
  expressions nil = Expressions.nil
  expressions (cons child rest) = prepend (parse_expression_body child) (expressions rest)

  pub cells : OrderedNode → Expressions
  cells (element tag attributes kids) = expressions kids
  cells (text s) = Expressions.nil

  pub rows : Nodes → Rows
  rows nil = no_row
  rows (cons child rest) =
      let later = rows rest in if has_tag "row" child then row (cells child) later else later

  pub parse_context_entry : OrderedNode → ContextEntries → ContextEntries
  parse_context_entry (element tag attributes kids) later =
      context_entry (last_item "variable" kids none) (last_expression "variable" kids absent) later
  parse_context_entry (text s) later = later

  pub context_entries : Nodes → ContextEntries
  context_entries nil = no_entry
  context_entries (cons child rest) =
      let later = context_entries rest in
      if has_tag "contextEntry" child then parse_context_entry child later else later

  pub parse_binding : OrderedNode → Bindings → Bindings
  parse_binding (element tag attributes kids) later =
      binding (last_item "parameter" kids none) (last_expression "parameter" kids absent) later
  parse_binding (text s) later = later

  pub bindings : Nodes → Bindings
  bindings nil = no_binding
  bindings (cons child rest) =
      let later = bindings rest in
      if has_tag "binding" child then parse_binding child later else later

  -- the text of the first expression beside the bindings
  pub called_function : Nodes → String
  called_function nil = ""
  called_function (cons child rest) =
      let later = called_function rest in
      if has_tag "binding" child
      then later
      else elim (parse_expression_body child) [ absent ↦ later | given e ↦ literal_text e ]
