-- ===== src/Common/Maps.antt =====
-- JavaScript's `Map`, `Set` and plain records with text keys, as association lists in insertion
-- order: `set` overwrites in place or appends.
use Prim.Native.String.{String}
use mathlib.Core.Path.{◌≡◌, refl}
use mathlib.Core.Bool.{Bool, true, false, ◌||◌, and-eq-true_iff}
use mathlib.Core.Logic.{inl, inr}
use mathlib.Core.Option.{Option, none, some}
use mathlib.Core.List.{List, [], ◌∷◌}
use native.Mathlib.Omega.{arith}
use text.Mathlib.Text.{◌==◌}
use text.Mathlib.TextEquality.{eq_iff}
use bfw_engine.Common.Tests.{if◌then◌else◌, is_some, Bool-cases}
use bfw_engine.Common.Lists.{all}

-- `set.has(x)` on a set that is written out
abbrev pub has : String → List String → Bool
has x [] = false
has x (y ∷ ys) = y == x || has x ys

-- What a table of texts all satisfy holds of each text that it has.
pub test_of_has :
    (p : String → Bool) (table : List String) (x : String)
    → all p table ≡ true
    → has x table ≡ true
    → p x ≡ true
test_of_has p [] x h e = cc
test_of_has p (y ∷ ys) x h e = elim (Bool-cases (y == x)) [
  | inl same ↦ rw (← (eq_iff y x).0 same) ((and-eq-true_iff _ _).0 h).0
  | inr other ↦ test_of_has p ys x ((and-eq-true_iff _ _).0 h).1 (rw other at e)
]

module _ {ℓ} {V : Type ℓ} where
  -- `map.get(key)`, with `none` for `undefined`
  abbrev pub lookup : String → List (String × V) → Option V
  lookup key [] = none
  lookup key ((k, v) ∷ rest) = if k == key then some v else lookup key rest

  -- `map.set(key, value)`
  abbrev pub set : String → V → List (String × V) → List (String × V)
  set key value [] = (key, value) ∷ []
  set key value ((k, v) ∷ rest) =
      let later = set key value rest in if k == key then (key, value) ∷ rest else (k, v) ∷ later

  abbrev pub keys : List (String × V) → List String
  keys [] = []
  keys ((k, v) ∷ rest) = k ∷ keys rest

  abbrev pub values : List (String × V) → List V
  values [] = []
  values ((k, v) ∷ rest) = v ∷ values rest

  pub lookup-set :
      (key other : String) (value : V) (m : List (String × V))
      → lookup other (set key value m) ≡ (if key == other then some value else lookup other m)
  lookup-set key other value [] = refl
  lookup-set key other value ((k, v) ∷ rest) =
      ground
        (arith, eq_iff key other, eq_iff k key, eq_iff k other, lookup-set key other value rest)

  pub is_some-lookup :
      (key : String) (m : List (String × V)) → is_some (lookup key m) ≡ has key (keys m)
  is_some-lookup key [] = refl
  is_some-lookup key ((k, v) ∷ rest) = ground (arith, is_some-lookup key rest)
