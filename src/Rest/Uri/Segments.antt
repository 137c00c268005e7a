-- ===== src/Rest/Uri/Segments.antt =====
-- Names in the paths of packages/js/client/src/rest stay within their segment.
use Prim.Native.String.{[], ◌∷◌}
use bfw_engine.Common.{
  String, Char, code, ℕ, zero, suc, ◌/◌, ◌%◌, Bool, true, ◌||◌, ◌&&◌, eqb, Bool-cases, inl, inr,
  ◌≡◌, refl,
}
use mathlib.Core.Bool.{and-eq-true_iff}
use bfw_engine.Rest.Uri.{
  Bytes, stop, byte, unreserved, utf8, char_at, hex_digit, escape, encode_uri_component,
}

-- An unreserved character, or the sign of an escape: none that ends a segment, such as `/`, `?` and `#`.
abbrev pub is_segment_char : ℕ → Bool
is_segment_char c = unreserved c || eqb c b'%'

abbrev pub all_segment_chars : String → Bool
all_segment_chars [] = true
all_segment_chars (c ∷ s) = is_segment_char (code c) && all_segment_chars s

-- a character of a table of such characters is one
char_at-all :
    (n : ℕ) (c : Char) (s : String)
    → is_segment_char (code c) ≡ true
    → all_segment_chars s ≡ true
    → is_segment_char (code (char_at n c s)) ≡ true
char_at-all n c [] h k = h
char_at-all zero c (d ∷ s) h k = ((and-eq-true_iff _ _).0 k).0
char_at-all (suc n) c (d ∷ s) h k = char_at-all n c s h ((and-eq-true_iff _ _).0 k).1

both : (a b : Bool) → a ≡ true → b ≡ true → (a && b) ≡ true
both a b h k = (and-eq-true_iff a b).1 (h, k)

hex_digit-all : (n : ℕ) → is_segment_char (code (hex_digit n)) ≡ true
hex_digit-all n = char_at-all n "0" "0123456789ABCDEF" refl refl

escape-all :
    (bytes : Bytes) (rest : String)
    → all_segment_chars rest ≡ true
    → all_segment_chars (escape bytes rest) ≡ true
escape-all stop rest h = h
escape-all (byte b bytes) rest h =
    both _ _ (hex_digit-all (b / 16)) (both _ _ (hex_digit-all (b % 16)) (escape-all bytes rest h))

unreserved-all : (c : ℕ) → unreserved c ≡ true → is_segment_char c ≡ true
unreserved-all c h = rw h refl

-- A name that is encoded for a path holds only unreserved characters and the signs of escapes.
pub encode_uri_component-all_segment_chars :
    (name : String) → all_segment_chars (encode_uri_component name) ≡ true
unfolding encode_uri_component
encode_uri_component-all_segment_chars [] = refl
encode_uri_component-all_segment_chars (c ∷ s) = elim (Bool-cases (unreserved (code c))) [
  | inl e ↦ rw e (both _ _ (unreserved-all (code c) e) (encode_uri_component-all_segment_chars s))
  | inr e ↦ rw e (
      escape-all (utf8 (code c)) (encode_uri_component s)
        (encode_uri_component-all_segment_chars s))
]
