-- ===== src/Graphql/Names.antt =====
-- The spellings of names in packages/js/client/src/graphql/query-builder.ts. Names are ASCII.
use Prim.Native.String
use Prim.Native.String.{[], ◌∷◌}
use bfw_engine.Common.{
  String, Char, code, Bool, false, ◌||◌, eqb, if◌then◌else◌, ◌≡◌, refl, translate, lower_letters,
  upper_letters, to_upper_case,
}

abbrev pub in_text : Char → String → Bool
in_text c [] = false
in_text c (a ∷ s) = eqb (code c) (code a) || in_text c s

-- `/[A-Z]/`
abbrev pub is_upper : Char → Bool
is_upper c = in_text c upper_letters

unfoldable pub to_snake_case : String → String
to_snake_case [] = []
to_snake_case (c ∷ s) =
    let rest = to_snake_case s in
    if is_upper c
    then String.◌++◌ "_" (translate upper_letters lower_letters c ∷ rest)
    else c ∷ rest

-- `replace(/[A-Z]/g, (letter) => '_' + letter)`
unfoldable pub underscored : String → String
underscored [] = []
underscored (c ∷ s) =
    let rest = underscored s in if is_upper c then String.◌++◌ "_" (c ∷ rest) else c ∷ rest

unfoldable pub to_screaming_snake_case : String → String
unfolding underscored to_upper_case
to_screaming_snake_case s = to_upper_case (underscored s)

unfoldable pub capitalize_first : String → String
capitalize_first [] = []
capitalize_first (c ∷ s) = translate lower_letters upper_letters c ∷ s

spells_names :
    (to_snake_case "boundaryEventRefs" ≡ "boundary_event_refs")
    × (to_screaming_snake_case "startedAt" ≡ "STARTED_AT")
    × (capitalize_first "processInstances" ≡ "ProcessInstances")
unfolding to_snake_case to_screaming_snake_case capitalize_first
spells_names = (refl, refl, refl)
