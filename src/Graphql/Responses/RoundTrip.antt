-- ===== src/Graphql/Responses/RoundTrip.antt =====
-- The spelling of a field in a query (packages/js/client/src/graphql/query-builder.ts) against that of
-- a key in its response (packages/js/client/src/graphql/graphql-client.ts).
use Prim.Native.String.{[], ◌∷◌}
use bfw_engine.Common.{
  String, Char, code, Bool, true, false, ◌&&◌, ◌||◌, ◌≡◌, refl, ap, ◌∙◌, eqb, arith, Bool-cases,
  inl, inr, translate, lower_letters, upper_letters,
}
use mathlib.Core.Bool.{and-eq-true_iff}
use text.Mathlib.TextLemmas.{nil-append, cons-append}
use text.Mathlib.TextEquality.{Char-path}
use bfw_engine.Graphql.Names.{in_text, is_upper, to_snake_case}
use bfw_engine.Graphql.Responses.{is_lower, is_underscore, camel_from, camel_key}

abbrev pub has_underscore : String → Bool
has_underscore [] = false
has_underscore (c ∷ s) = is_underscore c || has_underscore s

abbrev all_chars : (Char → Bool) → String → Bool
all_chars p [] = true
all_chars p (c ∷ s) = p c && all_chars p s

eqb-same : (m n : Prim.Native.Nat.ℕ) → eqb m n ≡ true → m ≡ n
eqb-same m n h = ground arith

test_of_in_text :
    (p : Char → Bool) (table : String) (c : Char)
    → all_chars p table ≡ true
    → in_text c table ≡ true
    → p c ≡ true
test_of_in_text p [] c h e = cc
test_of_in_text p (a ∷ s) c h e = elim (Bool-cases (eqb (code c) (code a))) [
  | inl same ↦ rw (Char-path c a (eqb-same _ _ same)) ((and-eq-true_iff _ _).0 h).0
  | inr other ↦ test_of_in_text p s c ((and-eq-true_iff _ _).0 h).1 (rw other at e)
]

abbrev lowered : Char → Char
lowered c = translate upper_letters lower_letters c

-- what is tested of the 26 letters
abbrev comes_back : Char → Bool
comes_back c =
    is_lower (lowered c) && eqb (code (translate lower_letters upper_letters (lowered c))) (code c)

comes_back-is_upper : (c : Char) → is_upper c ≡ true → comes_back c ≡ true
comes_back-is_upper c h = test_of_in_text comes_back upper_letters c refl h

returns :
    (c : Char)
    → is_upper c ≡ true
    → (is_lower (lowered c) ≡ true)
      × (eqb (code (translate lower_letters upper_letters (lowered c))) (code c) ≡ true)
returns c e = (and-eq-true_iff _ _).0 (comes_back-is_upper c e)

or_false : (a b : Bool) → (a || b) ≡ false → (a ≡ false) × (b ≡ false)
or_false a b h = ground arith

camel-snake : (s : String) → has_underscore s ≡ false → camel_from false (to_snake_case s) ≡ s
unfolding camel_from to_snake_case
camel-snake [] h = refl
camel-snake (c ∷ s) h =
    let (other, clean) = or_false (is_underscore c) (has_underscore s) h in
    let rest = camel-snake s clean in
    elim (Bool-cases (is_upper c)) [
      | inl e ↦
          let (low, same) = returns c e in
          rw (e, cons-append, nil-append, low)
            (ap (λ d. d ∷ camel_from false (to_snake_case s)) (Char-path _ c (eqb-same _ _ same))
              ∙ ap (λ t. c ∷ t) rest)
      | inr e ↦ rw (e, other) (ap (λ t. c ∷ t) rest)
    ]

-- A field name without an underscore comes back unchanged: the key under which a response has the
-- field of that name in the query is spelled like the name.
pub camel_key-to_snake_case :
    (s : String) → has_underscore s ≡ false → camel_key (to_snake_case s) ≡ s
unfolding camel_key
camel_key-to_snake_case s h = camel-snake s h
