-- ===== src/Dmn/Expressions/Parts.antt =====
-- The parts of a boxed expression that packages/js/sdk/src/dmn/parser.ts reads.
use bfw_engine.Common.{
  String, not, List, [], ◌∷◌, Option, none, some, map, filter, Bool-cases, inl, inr, ◌≡◌, refl, ◌∙◌,
  ap,
}
use bfw_engine.Xml.{
  OrderedNode, Nodes, element, text, nil, cons, items, has_tag, attr, attr_or_empty, children,
}
use bfw_engine.Dmn.Model.{
  MaybeExpression, absent, given, Expressions, boxed_list, function_definition, boxed_conditional,
  boxed_filter, boxed_for, boxed_every, boxed_some,
}
use bfw_engine.Dmn.Expressions.{
  or_else, prepend, function_kind, all_items, parse_expression_body, first_expression,
  first_expression_in_children, branch, last_expression, expressions,
}

-- What the nodes of a list are read as.
abbrev bodies : List OrderedNode → List MaybeExpression
bodies nodes = map parse_expression_body nodes

abbrev first_given : List MaybeExpression → MaybeExpression
first_given [] = absent
first_given (absent ∷ rest) = first_given rest
first_given (given e ∷ rest) = given e

abbrev last_given : List MaybeExpression → MaybeExpression
last_given [] = absent
last_given (m ∷ rest) = or_else (last_given rest) m

abbrev pub all_given : List MaybeExpression → Expressions
all_given [] = Expressions.nil
all_given (absent ∷ rest) = all_given rest
all_given (given e ∷ rest) = Expressions.cons e (all_given rest)

abbrev or_last : Option OrderedNode → OrderedNode → OrderedNode
or_last none node = node
or_last (some later) node = later

abbrev last_of : List OrderedNode → Option OrderedNode
last_of [] = none
last_of (node ∷ rest) = some (or_last (last_of rest) node)

abbrev inside : MaybeExpression → Option OrderedNode → MaybeExpression
inside found none = found
inside found (some node) = first_given (bodies (children node))

-- The first expression inside the last child of a tag.
abbrev pub part : String → Nodes → MaybeExpression
part tag kids = inside absent (last_of (filter (has_tag tag) (items kids)))

-- The last expression among the children that do not have a tag.
abbrev pub last_beside : String → Nodes → MaybeExpression
last_beside tag kids = last_given (bodies (filter (λ child. not (has_tag tag child)) (items kids)))

-- The expressions among the children, in order.
abbrev pub all_inside : Nodes → Expressions
all_inside kids = all_given (bodies (items kids))

or_else-first_given :
    (m : MaybeExpression) (ms : List MaybeExpression)
    → or_else m (first_given ms) ≡ first_given (m ∷ ms)
or_else-first_given absent ms = refl
or_else-first_given (given e) ms = refl

first_expression-first_given :
    (kids : Nodes) → first_expression kids ≡ first_given (bodies (items kids))
unfolding parse_expression_body
first_expression-first_given nil = refl
first_expression-first_given (cons child rest) =
    ap (or_else (parse_expression_body child)) (first_expression-first_given rest)
    ∙ or_else-first_given (parse_expression_body child) (bodies (items rest))

first_expression_in_children-inside :
    (node : OrderedNode) (found : MaybeExpression)
    → first_expression_in_children node ≡ inside found (some node)
unfolding parse_expression_body
first_expression_in_children-inside (element tag attributes kids) found =
    first_expression-first_given kids
first_expression_in_children-inside (text s) found = refl

inside-later :
    (found : MaybeExpression) (node : OrderedNode) (later : Option OrderedNode)
    → inside (inside found (some node)) later ≡ inside found (some (or_last later node))
inside-later found node none = refl
inside-later found node (some later) = refl

branch-inside :
    (tag : String) (kids : Nodes) (found : MaybeExpression)
    → branch tag kids found ≡ inside found (last_of (filter (has_tag tag) (items kids)))
unfolding parse_expression_body
branch-inside tag nil found = refl
branch-inside tag (cons child rest) found = elim (Bool-cases (has_tag tag child)) [
  | inl e ↦
      rw (branch, e, first_expression_in_children-inside child found)
        (branch-inside tag rest (inside found (some child))
          ∙ inside-later found child (last_of (filter (has_tag tag) (items rest))))
  | inr e ↦ rw (branch, e) (branch-inside tag rest found)
]

or_else_assoc : (a b c : MaybeExpression) → or_else a (or_else b c) ≡ or_else (or_else a b) c
or_else_assoc absent b c = refl
or_else_assoc (given e) b c = refl

last_expression-last_given :
    (tag : String) (kids : Nodes) (found : MaybeExpression)
    → last_expression tag kids found ≡ or_else (last_beside tag kids) found
unfolding parse_expression_body
last_expression-last_given tag nil found = refl
last_expression-last_given tag (cons child rest) found = elim (Bool-cases (has_tag tag child)) [
  | inl e ↦ rw (last_expression, e) (last_expression-last_given tag rest found)
  | inr e ↦
      rw (last_expression, e)
        (last_expression-last_given tag rest (or_else (parse_expression_body child) found)
          ∙ or_else_assoc (last_beside tag rest) (parse_expression_body child) found)
]

or_else-absent : (m : MaybeExpression) → or_else m absent ≡ m
or_else-absent absent = refl
or_else-absent (given e) = refl

prepend-all_given :
    (m : MaybeExpression) (ms : List MaybeExpression)
    → prepend m (all_given ms) ≡ all_given (m ∷ ms)
prepend-all_given absent ms = refl
prepend-all_given (given e) ms = refl

expressions-all_inside : (kids : Nodes) → expressions kids ≡ all_inside kids
unfolding parse_expression_body
expressions-all_inside nil = refl
expressions-all_inside (cons child rest) =
    ap (prepend (parse_expression_body child)) (expressions-all_inside rest)
    ∙ prepend-all_given (parse_expression_body child) (bodies (items rest))

-- A conditional, a filter, a `for`, an `every`, a `some`, a list and a function are each read as an
-- expression of their own kind. Each part of the first five is the first expression inside the last
-- child of the part's tag; a list has every child that is an expression, in order; and the body of
-- a function is the last child that is an expression and no formal parameter.
pub parse_expression_body-parts :
    (attributes : List (String × String)) (kids : Nodes)
    → let node = λ (tag : String). element tag attributes kids in
      let id = attr (element "" attributes kids) "id" in
      let variable = attr_or_empty (element "" attributes kids) "iteratorVariable" in
      (parse_expression_body (node "conditional")
        ≡ given (boxed_conditional id (part "if" kids) (part "then" kids) (part "else" kids)))
      × (parse_expression_body (node "filter")
          ≡ given (boxed_filter id (part "in" kids) (part "match" kids)))
      × (parse_expression_body (node "for")
          ≡ given (boxed_for id variable (part "in" kids) (part "return" kids)))
      × (parse_expression_body (node "every")
          ≡ given (boxed_every id variable (part "in" kids) (part "satisfies" kids)))
      × (parse_expression_body (node "some")
          ≡ given (boxed_some id variable (part "in" kids) (part "satisfies" kids)))
      × (parse_expression_body (node "list") ≡ given (boxed_list id (all_inside kids)))
      × (parse_expression_body (node "functionDefinition")
          ≡ given (
              function_definition id
                (function_kind (attr (element "" attributes kids) "kind"))
                (all_items "formalParameter" kids)
                (last_beside "formalParameter" kids)))
unfolding parse_expression_body attr
parse_expression_body-parts attributes kids =
    let b = λ (tag : String). branch-inside tag kids absent in
    (
      rw (b "if", b "then", b "else") refl,
      rw (b "in", b "match") refl,
      rw (b "in", b "return") refl,
      rw (b "in", b "satisfies") refl,
      rw (b "in", b "satisfies") refl,
      rw (expressions-all_inside kids) refl,
      rw (last_expression-last_given "formalParameter" kids absent)
          (rw (or_else-absent (last_beside "formalParameter" kids)) refl),
    )
