-- ===== src/Convert/CaseFold.antt =====
-- What the enum conversions make of the case of a text.
use invora_controller.Prelude.{
  ℕ, String, ◌≡◌, refl, Bool, true, false, List, [], ◌∷◌, ◌++◌, ◌&&◌, ◌||◌, codes, leb, arith, none,
  All,
}
use invora_controller.Convert.{same, lookup_codes, to_upper, charge_model_enum}
use invora_controller.Convert.Tables.{charge_model_value}

abbrev pub is_lower : ℕ → Bool
is_lower c = leb b'a' c && leb c b'z'

abbrev pub has_lower : List ℕ → Bool
has_lower [] = false
has_lower (c ∷ s) = is_lower c || has_lower s

same-has_lower : (s t : List ℕ) → has_lower s ≡ false → has_lower t ≡ true → same s t ≡ false
unfolding same
same-has_lower [] [] h k = ground arith
same-has_lower [] (d ∷ t) h k = refl
same-has_lower (c ∷ s) [] h k = refl
same-has_lower (c ∷ s) (d ∷ t) h k = ground (arith, same-has_lower s t)

has_lower-append : (s t : List ℕ) → has_lower t ≡ true → has_lower (s ++ t) ≡ true
has_lower-append [] t h = h
has_lower-append (c ∷ s) t h = ground (arith, has_lower-append s t h)

-- A table of upper-case names has no name with a lower-case letter.
lookup_codes_upper :
    (k : List ℕ) (table : List (String × ℕ))
    → All (λ entry. has_lower (codes entry.0) ≡ false) table
    → has_lower k ≡ true
    → lookup_codes k table ≡ none
unfolding lookup_codes
lookup_codes_upper k [] _ h = refl
lookup_codes_upper k ((name, v) ∷ table) (p, ps) h =
    ground (arith, same-has_lower (codes name) k p h, lookup_codes_upper k table ps h)

charge_models_upper : All (λ entry. has_lower (codes entry.0) ≡ false) charge_model_value
charge_models_upper = ground arith

-- chargeModelEnum does not fold the case of its argument: a charge model with a lower-case letter,
-- such as every one that the CRD allows, becomes the unspecified model 0.
pub charge_model_enum-has_lower :
    (s : String) → has_lower (codes s) ≡ true → charge_model_enum s ≡ 0
unfolding charge_model_enum
charge_model_enum-has_lower s h = ground (
  arith,
  lookup_codes_upper (codes "CHARGE_MODEL_" ++ codes s) charge_model_value charge_models_upper
      (has_lower-append (codes "CHARGE_MODEL_") (codes s) h),
)

to_upper_idem : (c : ℕ) → to_upper (to_upper c) ≡ to_upper c
unfolding to_upper
to_upper_idem c = ground arith
