-- ===== src/Graphql/Selection/Blocks.antt =====
-- The selection fields that packages/js/client/src/graphql/query-builder.ts writes: every block is
-- closed, and none is empty.
use Prim.Native.String
use Prim.Native.String.{[], ◌∷◌}
use bfw_engine.Common.{
  String, Char, code, Bool, true, false, not, ◌&&◌, ◌||◌, List, ◌++◌, ◌≡◌, refl, sym, eqb, is_empty,
  Bool-cases, inl, inr, translate, lower_letters, upper_letters,
}
use mathlib.Core.Bool.{and-eq-true_iff}
use text.Mathlib.TextLemmas.{nil-append, cons-append, append_assoc}
use bfw_engine.Graphql.Names.{is_upper, to_snake_case}
use bfw_engine.Graphql.Selection.{
  SelectionField, SelectionFields, Fragments, scalar, nested, no_fragment, fragment, opening,
  or_typename, fragment_lines, render_selection_field, render_each, render_fragments,
}

abbrev plain_char : Char → Bool
plain_char c = not (eqb (code c) b'{' || eqb (code c) b'}')

-- A text without braces.
abbrev pub is_plain : String → Bool
is_plain [] = true
is_plain (c ∷ s) = plain_char c && is_plain s

pub record IsOpening (l : String) : Type 0 where
  pub head : String
  pub plain : is_plain head ≡ true
  pub shape : l ≡ String.◌++◌ head " {"

pub record IsClosing (l : String) : Type 0 where
  pub margin : String
  pub plain : is_plain margin ≡ true
  pub shape : l ≡ String.◌++◌ margin "}"

-- Lines that stand inside a selection set: names and blocks that are closed and not empty.
pub data IsSelections : List String → Type 0 where
  nothing : IsSelections List.[]
  single : {l : String} → is_plain l ≡ true → IsSelections (List.◌∷◌ l List.[])
  block :
      {opened closed : String} {body : List String}
      → IsOpening opened
      → IsSelections body
      → is_empty body ≡ false
      → IsClosing closed
      → IsSelections (List.◌∷◌ opened (body ++ List.◌∷◌ closed List.[]))
  both :
      {above below : List String}
      → IsSelections above
      → IsSelections below
      → IsSelections (above ++ below)

is_plain-append :
    (s t : String) → is_plain s ≡ true → is_plain t ≡ true → is_plain (String.◌++◌ s t) ≡ true
is_plain-append [] t h k = rw (nil-append t) k
is_plain-append (c ∷ s) t h k =
    let (p, hs) = (and-eq-true_iff _ _).0 h in
    rw (cons-append c s t) ((and-eq-true_iff _ _).1 (p, is_plain-append s t hs k))

translate-plain :
    (from to : String) (c : Char)
    → is_plain to ≡ true
    → plain_char c ≡ true
    → plain_char (translate from to c) ≡ true
translate-plain [] to c h k = k
translate-plain (a ∷ from) [] c h k = k
translate-plain (a ∷ from) (b ∷ to) c h k =
    let (p, hs) = (and-eq-true_iff _ _).0 h in
    let later = translate-plain from to c hs k in
    elim (Bool-cases (eqb (code c) (code a))) [ inl e ↦ rw e p | inr e ↦ rw e later ]

to_snake_case-plain : (s : String) → is_plain s ≡ true → is_plain (to_snake_case s) ≡ true
unfolding to_snake_case
to_snake_case-plain [] h = refl
to_snake_case-plain (c ∷ s) h =
    let (p, hs) = (and-eq-true_iff _ _).0 h in
    let rest = to_snake_case-plain s hs in
    elim (Bool-cases (is_upper c)) [
      | inl e ↦ rw e (
          is_plain-append "_" (translate upper_letters lower_letters c ∷ to_snake_case s) refl
            ((and-eq-true_iff _ _).1 (translate-plain upper_letters lower_letters c refl p, rest)))
      | inr e ↦ rw e ((and-eq-true_iff _ _).1 (p, rest))
    ]

-- The names of a field, of those inside it and of its fragments have no brace.
abbrev mutual
  pub HasPlainNames : SelectionField → Type 0
  HasPlainNames (scalar name) = is_plain name ≡ true
  HasPlainNames (nested name fields on) =
      (is_plain name ≡ true) × HavePlainNames fields × FragmentsHavePlainNames on

  pub HavePlainNames : SelectionFields → Type 0
  HavePlainNames SelectionFields.nil = Unit
  HavePlainNames (SelectionFields.cons field rest) = HasPlainNames field × HavePlainNames rest

  pub FragmentsHavePlainNames : Fragments → Type 0
  FragmentsHavePlainNames no_fragment = Unit
  FragmentsHavePlainNames (fragment type_name fields rest) =
      (is_plain type_name ≡ true) × HavePlainNames fields × FragmentsHavePlainNames rest

module _ (prefix : String) (margin : is_plain prefix ≡ true) where
  opening-IsOpening : (head : String) → is_plain head ≡ true → IsOpening (opening prefix head)
  opening-IsOpening head h = record {
    head = String.◌++◌ prefix head;
    plain = is_plain-append prefix head margin h;
    shape = sym (append_assoc prefix head " {");
  }

  or_typename-IsSelections :
      (body : List String) → IsSelections body → IsSelections (or_typename prefix body)
  or_typename-IsSelections List.[] h = single (is_plain-append prefix "  __typename" margin refl)
  or_typename-IsSelections (List.◌∷◌ l ls) h = h

  or_typename-is_empty : (body : List String) → is_empty (or_typename prefix body) ≡ false
  or_typename-is_empty List.[] = refl
  or_typename-is_empty (List.◌∷◌ l ls) = refl

  fragment_lines-IsSelections :
      (type_name : String) (body : List String)
      → is_plain type_name ≡ true
      → IsSelections body
      → IsSelections (fragment_lines prefix type_name body)
  fragment_lines-IsSelections type_name List.[] p h = nothing
  fragment_lines-IsSelections type_name (List.◌∷◌ l ls) p h =
      block
        (opening-IsOpening (String.◌++◌ "  ... on " type_name)
          (is_plain-append "  ... on " type_name refl p))
        h refl
        (record {
          margin = String.◌++◌ prefix "  ";
          plain = is_plain-append prefix "  " margin refl;
          shape = sym (append_assoc prefix "  " "}");
        })

mutual
  unfolding render_selection_field

  render-IsSelections :
      (field : SelectionField) (prefix : String)
      → is_plain prefix ≡ true
      → HasPlainNames field
      → IsSelections (render_selection_field field prefix)
  render-IsSelections (scalar name) prefix margin p =
      single (is_plain-append prefix (to_snake_case name) margin (to_snake_case-plain name p))
  render-IsSelections (nested name fields on) prefix margin (p, ps, qs) =
      block (opening-IsOpening prefix margin (to_snake_case name) (to_snake_case-plain name p))
        (or_typename-IsSelections prefix margin _ (
          both
            (each-IsSelections fields (String.◌++◌ prefix "  ")
              (is_plain-append prefix "  " margin refl) ps)
            (fragments-IsSelections on prefix margin qs)))
        (or_typename-is_empty prefix margin _)
        (record { margin = prefix; plain = margin; shape = refl })

  each-IsSelections :
      (fields : SelectionFields) (prefix : String)
      → is_plain prefix ≡ true
      → HavePlainNames fields
      → IsSelections (render_each fields prefix)
  each-IsSelections SelectionFields.nil prefix margin ps = nothing
  each-IsSelections (SelectionFields.cons field rest) prefix margin (p, ps) =
      both (render-IsSelections field prefix margin p) (each-IsSelections rest prefix margin ps)

  fragments-IsSelections :
      (on : Fragments) (prefix : String)
      → is_plain prefix ≡ true
      → FragmentsHavePlainNames on
      → IsSelections (render_fragments on prefix)
  fragments-IsSelections no_fragment prefix margin qs = nothing
  fragments-IsSelections (fragment type_name fields rest) prefix margin (p, ps, qs) =
      both
        (fragment_lines-IsSelections prefix margin type_name _ p (
          each-IsSelections fields (String.◌++◌ prefix "    ")
            (is_plain-append prefix "    " margin refl) ps))
        (fragments-IsSelections rest prefix margin qs)

-- If no name of a field, of those inside it and of its fragments has a brace, then every block of
-- the lines that are written for it is closed and has at least one line inside.
pub render_selection_field-IsSelections :
    (field : SelectionField) (prefix : String)
    → is_plain prefix ≡ true
    → HasPlainNames field
    → IsSelections (render_selection_field field prefix)
render_selection_field-IsSelections field prefix margin p =
    render-IsSelections field prefix margin p
