-- ===== src/Common/Text.antt =====
-- What the source uses of JavaScript's strings. A text is a list of characters. Letters outside
-- ASCII are left as they are by the case conversions.
use Prim.Native.Nat.{ℕ, zero, suc, ◌<◌, ◌/◌, ◌%◌}
use Prim.Native.String
use mathlib.Core.Path.{◌≡◌, refl}
use mathlib.Core.Logic.{dite}
use mathlib.Core.List.{List, [], ◌∷◌}
use mathlib.Core.WellFounded.{Acc}
use native.Mathlib.Decide.{dec_lt}
use native.Mathlib.Omega.{arith}
use Prim.Native.Char.{Char, code}
use Prim.Native.String.{String, [], ◌∷◌}
use mathlib.Core.Bool.{Bool, false, ◌&&◌, ◌||◌}
use mathlib.Core.Option.{Option, none, some}
use text.Mathlib.Text.{◌==◌}
use bfw_engine.Common.Tests.{leb, eqb, if◌then◌else◌}

-- `text || null`
abbrev pub or_null : String → Option String
or_null text = if text == "" then none else some text

-- `text !== 'false'`, `text === 'true'` and the like, where `null` is `none`
abbrev pub is : Option String → String → Bool
is none expected = false
is (some text) expected = text == expected

-- the white space and line terminators that `trim` and `parseInt` skip
abbrev pub is_space : ℕ → Bool
is_space c =
    (leb 9 c && leb c 13)
    || eqb c 32
    || eqb c 160
    || eqb c 0x1680
    || (leb 0x2000 c && leb c 0x200a)
    || eqb c 0x2028
    || eqb c 0x2029
    || eqb c 0x202f
    || eqb c 0x205f
    || eqb c 0x3000
    || eqb c 0xfeff

unfoldable pub trim_start : String → String
trim_start [] = []
trim_start (c ∷ s) = let rest = trim_start s in if is_space (code c) then rest else c ∷ s

unfoldable pub trim_end : String → String
trim_end [] = []
trim_end (c ∷ s) = let rest = trim_end s in if is_space (code c) && rest == "" then [] else c ∷ rest

unfoldable pub trim : String → String
unfolding trim_start trim_end
trim s = trim_end (trim_start s)

-- the character of `to` at the place where `from` has `c`
abbrev pub translate : String → String → Char → Char
translate (a ∷ from) (b ∷ to) c =
    let later = translate from to c in if eqb (code c) (code a) then b else later
translate _ _ c = c

abbrev pub lower_letters : String
lower_letters = "abcdefghijklmnopqrstuvwxyz"

abbrev pub upper_letters : String
upper_letters = "ABCDEFGHIJKLMNOPQRSTUVWXYZ"

unfoldable pub to_upper_case : String → String
to_upper_case [] = []
to_upper_case (c ∷ s) = translate lower_letters upper_letters c ∷ to_upper_case s

unfoldable pub to_lower_case : String → String
to_lower_case [] = []
to_lower_case (c ∷ s) = translate upper_letters lower_letters c ∷ to_lower_case s

abbrev pub is_digit : ℕ → Bool
is_digit c = leb b'0' c && leb c b'9'

Acc-below : (k n : ℕ) → n < k → Acc ◌<◌ n
Acc-below zero n h = elim h [ ]
Acc-below (suc k) n h = Acc.intro n (λ m hm. Acc-below k m (omega arith))

abbrev digit : ℕ → List String → String
digit n [] = ""
digit zero (t ∷ ts) = t
digit (suc n) (t ∷ ts) = digit n ts

abbrev digit_texts : List String
digit_texts = "0" ∷ "1" ∷ "2" ∷ "3" ∷ "4" ∷ "5" ∷ "6" ∷ "7" ∷ "8" ∷ "9" ∷ []

decimal_acc : (n : ℕ) → Acc ◌<◌ n → String
decimal_acc n (Acc.intro _ smaller) =
    dite (dec_lt 9 n)
      (λ h.
        String.◌++◌ (decimal_acc (n / 10) (smaller (n / 10) (omega arith)))
          (digit (n % 10) digit_texts))
      (λ _. digit n digit_texts)

-- `String(n)`
unfoldable pub decimal : ℕ → String
unfolding decimal_acc Acc-below dec_lt
decimal n = decimal_acc n (Acc-below (suc n) n (omega arith))

decimal_example : decimal 1070 ≡ "1070"
unfolding decimal
decimal_example = refl
