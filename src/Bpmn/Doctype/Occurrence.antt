-- ===== src/Bpmn/Doctype/Occurrence.antt =====
-- When the DOCTYPE test of packages/js/sdk/src/bpmn/parser.ts succeeds.
use Prim.Native.String
use Prim.Native.String.{[], ◌∷◌}
use bfw_engine.Common.{
  String, Bool, true, false, ◌||◌, ◌≡◌, ◌↔◌, sym, ap, ◌∙◌, arith, Bool-cases, inl, inr,
  to_upper_case,
}
use mathlib.Core.Path.{subst}
use mathlib.Core.Bool.{false≢true}
use text.Mathlib.TextLemmas.{nil-append, cons-append}
use bfw_engine.Bpmn.Doctype.{starts, has_doctype}

abbrev pub begins_doctype : String → Bool
begins_doctype s = starts "<!DOCTYPE" (to_upper_case s)

-- A text with `<!DOCTYPE` in it, in upper or lower case.
pub record HasDoctype (s : String) : Type 0 where
  pub before : String
  pub rest : String
  pub split : s ≡ String.◌++◌ before rest
  pub found : begins_doctype rest ≡ true

or_left : (a b : Bool) → a ≡ true → (a || b) ≡ true
or_left a b h = ground arith

or_right : (a b : Bool) → b ≡ true → (a || b) ≡ true
or_right a b h = ground arith

or_second : (a b : Bool) → a ≡ false → (a || b) ≡ true → b ≡ true
or_second a b e h = ground arith

doctype_found : (s : String) → has_doctype s ≡ true → HasDoctype s
unfolding has_doctype
doctype_found [] h = absurd (false≢true h)
doctype_found (c ∷ s) h = elim (Bool-cases (begins_doctype (c ∷ s))) [
  | inl e ↦ record { before = ""; rest = c ∷ s; split = sym (nil-append (c ∷ s)); found = e }
  | inr e ↦
      let later = doctype_found s (or_second (begins_doctype (c ∷ s)) (has_doctype s) e h) in
      record {
        before = c ∷ later.before;
        rest = later.rest;
        split = ap (λ t. c ∷ t) later.split ∙ sym (cons-append c later.before later.rest);
        found = later.found;
      }
]

begins-has_doctype : (s : String) → begins_doctype s ≡ true → has_doctype s ≡ true
unfolding has_doctype to_upper_case
begins-has_doctype [] h = absurd (false≢true h)
begins-has_doctype (c ∷ s) h = or_left (begins_doctype (c ∷ s)) (has_doctype s) h

append-has_doctype :
    (before rest : String)
    → begins_doctype rest ≡ true
    → has_doctype (String.◌++◌ before rest) ≡ true
unfolding has_doctype
append-has_doctype [] rest h = rw (nil-append rest) (begins-has_doctype rest h)
append-has_doctype (c ∷ s) rest h = rw (cons-append c s rest) (
    or_right (begins_doctype (c ∷ String.◌++◌ s rest)) (has_doctype (String.◌++◌ s rest))
      (append-has_doctype s rest h))

-- The test succeeds exactly if some part of the text begins with `<!DOCTYPE` in upper or lower case.
pub has_doctype-eq-true_iff : (s : String) → (has_doctype s ≡ true) ↔ HasDoctype s
has_doctype-eq-true_iff s = (
  doctype_found s,
  λ h. subst (λ t. has_doctype t ≡ true) (sym h.split) (append-has_doctype h.before h.rest h.found),
)
