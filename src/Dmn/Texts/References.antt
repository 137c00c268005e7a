-- ===== src/Dmn/Texts/References.antt =====
-- References by fragment in packages/js/sdk/src/dmn/parser.ts.
use Prim.Native.String.{◌∷◌}
use bfw_engine.Common.{
  String, Char, false, ◌==◌, eq_iff, Bool-cases, inl, inr, some, trim_end, ◌≡◌, ap,
}
use bfw_engine.Dmn.Texts.{fragment_id_from_href}

cons-eq-nil : (c : Char) (s : String) → (c ∷ s == "") ≡ false
cons-eq-nil c s = elim (Bool-cases (c ∷ s == "")) [
  | inl e ↦ cc ((eq_iff (c ∷ s) "").0 e)
  | inr e ↦ e
]

-- The reference `#id` is read as `id`, if `id` ends in no white space.
pub fragment_id_from_href-hash :
    (id : String) → trim_end id ≡ id → fragment_id_from_href (some ("#" ∷ id)) ≡ some id
unfolding fragment_id_from_href
fragment_id_from_href-hash id trimmed =
    rw (cons-eq-nil "#" id, fragment_id_from_href) (ap some trimmed)
