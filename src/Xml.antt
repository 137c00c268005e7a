-- ===== src/Xml.antt =====
-- The ordered tree that the XML library hands to the BPMN and DMN parsers, and their accessors
-- (packages/js/sdk/src/bpmn/parser.ts; those of packages/js/sdk/src/dmn/parser.ts are the same).
-- With `preserveOrder` a node holds one tag, its list of children and, under `:@`, its attributes
-- with `@_` before each name; a piece of text holds `#text` alone. Comments and DOCTYPE never reach
-- this tree.
pub mod Switch
use bfw_engine.Common.{
  String, Bool, List, [], ◌∷◌, Option, none, some, if◌then◌else◌, lookup, filter, is, trim, or_null,
  or_default,
}
use Prim.Native.String

mutual
  pub data OrderedNode : Type 0 where
    element : (tag : String) (attributes : List (String × String)) (kids : Nodes) → OrderedNode
    text : String → OrderedNode

  pub data Nodes : Type 0 where
    nil : Nodes
    cons : OrderedNode → Nodes → Nodes

-- What the XML library's parser does with a text: it gives a tree or throws an error.
pub data Reading : Type 0 where
  tree : List OrderedNode → Reading
  unreadable : (message : String) → Reading

abbrev pub items : Nodes → List OrderedNode
items nil = []
items (cons node rest) = node ∷ items rest

abbrev pub element_name : OrderedNode → Option String
element_name (element tag _ _) = some tag
element_name (text _) = none

abbrev pub children : OrderedNode → List OrderedNode
children (element _ _ kids) = items kids
children (text _) = []

abbrev pub attrs : OrderedNode → List (String × String)
attrs (element _ attributes _) = attributes
attrs (text _) = []

unfoldable pub attr : OrderedNode → String → Option String
attr node name = lookup (String.◌++◌ "@_" name) (attrs node)

-- `elementName(node) === tagName`
abbrev pub has_tag : String → OrderedNode → Bool
has_tag tag node = is (element_name node) tag

unfoldable pub find_element : List OrderedNode → String → Option OrderedNode
find_element [] tag = none
find_element (node ∷ rest) tag = if has_tag tag node then some node else find_element rest tag

unfoldable pub find_all_elements : List OrderedNode → String → List OrderedNode
find_all_elements nodes tag = filter (has_tag tag) nodes

-- `node['#text']`
abbrev pub own_text : OrderedNode → Option String
own_text (element _ _ _) = none
own_text (text s) = some s

first_text : List OrderedNode → Option String
first_text [] = none
first_text (kid ∷ rest) = elim (own_text kid) [ some s ↦ some s | none ↦ first_text rest ]

unfoldable pub text_content : OrderedNode → String
unfolding first_text trim
text_content node = elim (first_text (children node)) [
  | some s ↦ trim s
  | none ↦ elim (own_text node) [ some s ↦ trim s | none ↦ "" ]
]

unfoldable pub child_text : List OrderedNode → String → String
unfolding find_element text_content
child_text nodes tag = elim (find_element nodes tag) [ none ↦ "" | some node ↦ text_content node ]

unfoldable pub get_extension_children : List OrderedNode → List OrderedNode
unfolding find_element
get_extension_children kids = elim (find_element kids "extensionElements") [
  | none ↦ []
  | some node ↦ children node
]

-- `attr(node, name) ?? ''`
abbrev pub attr_or_empty : OrderedNode → String → String
attr_or_empty node name = or_default (attr node name) ""

-- `childText(kids, name) || null`
abbrev pub child_or_null : List OrderedNode → String → Option String
child_or_null kids name = or_null (child_text kids name)
