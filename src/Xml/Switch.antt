-- ===== src/Xml/Switch.antt =====
-- Loops over the children of an element whose body is a switch over the tag, and what they compute.
use bfw_engine.Common.{
  String, Bool, true, false, List, [], ◌∷◌, ◌++◌, Option, some, ◌==◌, eq_iff, ◌≡◌, refl, ap, ◌∙◌,
  map, append-nil, append_assoc, Bool-cases, inl, inr, if◌then◌else◌,
}
use mathlib.Core.List.{foldl}
use bfw_engine.Xml.{OrderedNode, element, text, has_tag, find_all_elements}

-- The cases of a switch, each with its tag and what it does.
abbrev pub Cases : Type 0 → Type 0
Cases S = List (String × (OrderedNode → S → S))

module _ {S : Type 0} where
  abbrev pub run_case : Cases S → String → OrderedNode → S → S
  run_case [] tag child s = s
  run_case ((t, act) ∷ rest) tag child s =
      if tag == t then act child s else run_case rest tag child s

  -- `switch (elementName(child)) { … }`
  abbrev pub switch : Cases S → OrderedNode → S → S
  switch cases (element tag attributes kids) s = run_case cases tag (element tag attributes kids) s
  switch cases (text t) s = s

  -- `for (const child of kids) { … }`
  unfoldable pub for_each : (OrderedNode → S → S) → List OrderedNode → S → S
  for_each step [] s = s
  for_each step (child ∷ rest) s = for_each step rest (step child s)

-- A part of the state into which one case puts what it reads, and which the others keep.
module _ {S A V : Type 0} (field : S → V) (read : OrderedNode → A) (put : V → A → V)
    (wanted : String) where
  -- What an action does to the part, for every child and state.
  abbrev pub IsKept : (OrderedNode → S → S) → Type 0
  IsKept act = ◌≡◌ {A = OrderedNode → S → V} (λ child s. field (act child s)) (λ child s. field s)

  abbrev pub IsFilled : (OrderedNode → S → S) → Type 0
  IsFilled act =
      ◌≡◌ {A = OrderedNode → S → V} (λ child s. field (act child s))
        (λ child s. put (field s) (read child))

  pub data Keeps : Cases S → Type 0 where
    end : Keeps []
    keep :
        {t : String} {act : OrderedNode → S → S} {rest : Cases S}
        → IsKept act
        → Keeps rest
        → Keeps ((t, act) ∷ rest)

  pub data Fills : Cases S → Type 0 where
    here :
        {act : OrderedNode → S → S} {rest : Cases S}
        → IsFilled act
        → Keeps rest
        → Fills ((wanted, act) ∷ rest)
    skip :
        {t : String} {act : OrderedNode → S → S} {rest : Cases S}
        → (t == wanted) ≡ false
        → IsKept act
        → Fills rest
        → Fills ((t, act) ∷ rest)

  abbrev put_one : Bool → V → A → V
  put_one b v a = if b then put v a else v

  run_case-Keeps :
      {cases : Cases S}
      → Keeps cases
      → (tag : String) (child : OrderedNode) (s : S) → field (run_case cases tag child s) ≡ field s
  run_case-Keeps end tag child s = refl
  run_case-Keeps (keep {t} kept rest) tag child s = elim (Bool-cases (tag == t)) [
    | inl e ↦ rw e (ap (λ (f : OrderedNode → S → V). f child s) kept)
    | inr e ↦ rw e (run_case-Keeps rest tag child s)
  ]

  other : (tag t : String) → (tag == t) ≡ true → (t == wanted) ≡ false → (tag == wanted) ≡ false
  other tag t e f = rw ((eq_iff tag t).0 e) f

  run_case-Fills :
      {cases : Cases S}
      → Fills cases
      → (tag : String) (child : OrderedNode) (s : S)
      → field (run_case cases tag child s) ≡ put_one (tag == wanted) (field s) (read child)
  run_case-Fills (here fills keeps) tag child s = elim (Bool-cases (tag == wanted)) [
    | inl e ↦ rw e (ap (λ (f : OrderedNode → S → V). f child s) fills)
    | inr e ↦ rw e (run_case-Keeps keeps tag child s)
  ]
  run_case-Fills (skip {t} differs keeps fills) tag child s = elim (Bool-cases (tag == t)) [
    | inl e ↦ rw (e, other tag t e differs) (ap (λ (f : OrderedNode → S → V). f child s) keeps)
    | inr e ↦ rw e (run_case-Fills fills tag child s)
  ]

  step-switch :
      {cases : Cases S}
      → Fills cases
      → (child : OrderedNode) (s : S)
      → field (switch cases child s) ≡ put_one (has_tag wanted child) (field s) (read child)
  step-switch fills (element tag attributes kids) s =
      run_case-Fills fills tag (element tag attributes kids) s
  step-switch fills (text t) s = refl

  fold-cons :
      (child : OrderedNode) (rest : List OrderedNode) (v : V)
      → foldl put
          (put_one (has_tag wanted child) v (read child))
          (map read (find_all_elements rest wanted))
        ≡ foldl put v (map read (find_all_elements (child ∷ rest) wanted))
  unfolding find_all_elements
  fold-cons child rest v = elim (Bool-cases (has_tag wanted child)) [ inl e ↦ rw e | inr e ↦ rw e ]

  -- The loop puts in what the elements of the wanted tag give, in document order.
  pub for_each-switch :
      {cases : Cases S}
      → Fills cases
      → (kids : List OrderedNode) (s : S)
      → field (for_each (switch cases) kids s)
        ≡ foldl put (field s) (map read (find_all_elements kids wanted))
  unfolding for_each find_all_elements
  for_each-switch fills [] s = refl
  for_each-switch {cases} fills (child ∷ rest) s =
      for_each-switch fills rest (switch cases child s)
      ∙ (rw (step-switch fills child s) (fold-cons child rest (field s)))

-- `list.push(…)` and `variable = …`
abbrev pub push {ℓ} : {A : Type ℓ} → List A → A → List A
push xs a = xs ++ a ∷ []

abbrev pub assign {ℓ} : {A : Type ℓ} → Option A → A → Option A
assign _ a = some a

pub foldl-push {ℓ} : {A : Type ℓ} (xs ys : List A) → foldl push xs ys ≡ xs ++ ys
foldl-push xs [] = rw append-nil
foldl-push xs (y ∷ ys) = foldl-push (xs ++ y ∷ []) ys ∙ append_assoc xs (y ∷ []) ys

pub ruleset fills = (here, skip, keep, end, refl)

-- A list that is empty before the loop holds what its reader gives for the elements of its tag.
pub for_each-push :
    {S A : Type 0} {tag : String} (cases : Cases S) (field : S → List A) (read : OrderedNode → A)
    → Fills field read push tag cases
    → (kids : List OrderedNode) (s : S) → field s ≡ []
    → field (for_each (switch cases) kids s) ≡ map read (find_all_elements kids tag)
for_each-push {tag} cases field read fills kids s start =
    for_each-switch field read push tag fills kids s
    ∙ (rw start (foldl-push [] (map read (find_all_elements kids tag))))
