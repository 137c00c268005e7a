-- ===== src/Bpmn/Doctype.antt =====
-- The DOCTYPE test of `parseBpmn` (packages/js/sdk/src/bpmn/parser.ts):
-- `/<!DOCTYPE/i.test(xml.replace(/<!--[\s\S]*?-->|<!\[CDATA\[[\s\S]*?\]\]>/g, ''))`.
pub mod Occurrence
use Prim.Native.String.{[], ◌∷◌}
use bfw_engine.Common.{
  String, Bool, true, false, ℕ, zero, suc, ◌+◌, code, Option, none, some, ◌||◌, eqb, ◌≡◌, refl,
  to_upper_case, if◌then◌else◌,
}
use mathlib.Core.Option

-- The rest of a text behind a prefix.
abbrev pub drop_prefix : String → String → Option String
drop_prefix [] s = some s
drop_prefix (p ∷ ps) [] = none
drop_prefix (p ∷ ps) (c ∷ s) =
    let rest = drop_prefix ps s in if eqb (code p) (code c) then rest else none

abbrev pub starts : String → String → Bool
starts p s = elim (drop_prefix p s) [ none ↦ false | some _ ↦ true ]

-- The number of characters before the end of the first occurrence of `last`, as `[\s\S]*?last`
-- matches them, where `size` is the length of `last`.
unfoldable pub through : (last : String) → (size : ℕ) → String → Option ℕ
through last size [] = none
through last size (c ∷ s) =
    let later = through last size s in
    if starts last (c ∷ s) then some size else Option.map (λ n. n + 1) later

-- The length of the comment or CDATA section that a text begins with.
unfoldable pub section_length : String → Option ℕ
unfolding through
section_length s = elim (drop_prefix "<!--" s) [
  | some rest ↦ Option.map (λ n. n + 4) (through "-->" 3 rest)
  | none ↦ elim (drop_prefix "<![CDATA[" s) [
    | some rest ↦ Option.map (λ n. n + 9) (through "]]>" 3 rest)
    | none ↦ none
  ]
]

-- `replace(…, '')`: the number counts the characters of a match that are still to be skipped.
unfoldable pub strip_from : String → ℕ → String
unfolding section_length
strip_from [] skip = []
strip_from (c ∷ s) (suc skip) = strip_from s skip
strip_from (c ∷ s) zero = elim (section_length (c ∷ s)) [
  | none ↦ c ∷ strip_from s zero
  | some zero ↦ c ∷ strip_from s zero
  | some (suc n) ↦ strip_from s n
]

unfoldable pub strip_sections : String → String
unfolding strip_from
strip_sections s = strip_from s zero

-- `/<!DOCTYPE/i.test(s)`
unfoldable pub has_doctype : String → Bool
unfolding to_upper_case
has_doctype [] = false
has_doctype (c ∷ s) =
    let later = has_doctype s in starts "<!DOCTYPE" (to_upper_case (c ∷ s)) || later

finds_doctype :
    (has_doctype (strip_sections "<a/><!DocType x>") ≡ true)
    × (has_doctype (strip_sections "<a><!-- <!DOCTYPE x> --></a>") ≡ false)
    × (has_doctype (strip_sections "<![CDATA[<!DOCTYPE]]><!-- <!DOCTYPE") ≡ true)
    × (has_doctype (strip_sections "<!<!---->DOCTYPE") ≡ true)
unfolding has_doctype strip_sections
finds_doctype = (refl, refl, refl, refl)
