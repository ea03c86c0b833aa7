-- ===== src/Convert.antt =====
-- internal/convert/enums.go, and chargeModelEnum, strPtr and ptrStr of internal/controller. A
-- `commonpb` enum is its int32 number. Floating-point numbers are a type with the operations that
-- float64ToDecimal uses.
mod Tables
pub mod CaseFold
pub mod Names
pub use Tables.*
use invora_controller.Prelude.{
  ℕ, ◌-◌, String, ◌<>◌, Bool, true, false, Option, none, some, List, [], ◌∷◌, map, ◌==◌, ◌&&◌,
  codes, ◌++◌, leb, eqb, if◌then◌else◌, length,
}
use invora_controller.Go.{ℤ}

-- Equality of two texts by their code points.
unfoldable pub same : List ℕ → List ℕ → Bool
same [] [] = true
same (c ∷ s) (d ∷ t) = eqb c d && same s t
same _ _ = false

-- A lookup in a table whose keys are compared by code points.
unfoldable pub lookup_codes : List ℕ → List (String × ℕ) → Option ℕ
unfolding same
lookup_codes k [] = none
lookup_codes k ((name, v) ∷ table) = if same (codes name) k then some v else lookup_codes k table

-- strings.ToUpper of one character, as far as a key of ASCII letters can tell: besides the ASCII
-- letters only U+0131 and U+017F have an ASCII upper case.
unfoldable pub to_upper : ℕ → ℕ
to_upper c =
    if leb b'a' c && leb c b'z'
    then c - 32
    else if eqb c 0x131
    then b'I'
    else if eqb c 0x17f
    then b'S'
    else c

-- strings.ReplaceAll(s, "-", "_") of one character
unfoldable pub underscore : ℕ → ℕ
underscore c = if eqb c b'-' then b'_' else c

-- A map lookup with the zero enum value on a missing key.
unfoldable pub enum_value : List (String × ℕ) → List ℕ → ℕ
unfolding lookup_codes
enum_value table key = elim (lookup_codes key table) [ some v ↦ v | none ↦ 0 ]

unfoldable pub upper_key : String → List ℕ → List ℕ
unfolding to_upper
upper_key prefix s = codes prefix ++ map to_upper s

unfoldable pub currency : String → ℕ
unfolding enum_value upper_key
currency s = enum_value currency_enum_value (upper_key "CURRENCY_ENUM_" (codes s))

unfoldable pub plan_interval : String → ℕ
unfolding enum_value upper_key
plan_interval s = enum_value plan_interval_value (upper_key "PLAN_INTERVAL_" (codes s))

unfoldable pub billing_enum : List (String × ℕ) → String → String → ℕ
unfolding enum_value upper_key underscore
billing_enum value_map prefix s = enum_value value_map (upper_key prefix (map underscore (codes s)))

unfoldable pub coupon_type : String → ℕ
unfolding billing_enum
coupon_type = billing_enum coupon_type_value "COUPON_TYPE_"

unfoldable pub coupon_expiration : String → ℕ
unfolding billing_enum
coupon_expiration = billing_enum coupon_expiration_value "COUPON_EXPIRATION_"

unfoldable pub coupon_frequency : String → ℕ
unfolding billing_enum
coupon_frequency = billing_enum coupon_frequency_value "COUPON_FREQUENCY_"

unfoldable pub billing_time : String → ℕ
unfolding billing_enum
billing_time = billing_enum billing_time_value "BILLING_TIME_"

unfoldable pub aggregation_type : String → ℕ
unfolding billing_enum
aggregation_type = billing_enum aggregation_type_value "AGGREGATION_TYPE_"

unfoldable pub weighted_interval : String → ℕ
unfolding billing_enum
weighted_interval s =
    if s == "" then 0 else billing_enum weighted_interval_value "WEIGHTED_INTERVAL_" s

unfoldable pub webhook_signature_algo : String → ℕ
unfolding billing_enum
webhook_signature_algo s =
    if s == "" then 0 else billing_enum signature_algo_value "WEBHOOK_ENDPOINT_SIGNATURE_ALGO_" s

-- chargeModelEnum of plan_controller.go: the key is the prefix and the text as it stands.
unfoldable pub charge_model_enum : String → ℕ
unfolding enum_value
charge_model_enum s = enum_value charge_model_value (codes "CHARGE_MODEL_" ++ codes s)

-- strPtr, and the builders' `if s != "" { in.F = &s }`
unfoldable pub str_ptr : String → Option String
str_ptr s = if s == "" then none else some s

unfoldable pub ptr_str : Option String → String
ptr_str none = ""
ptr_str (some s) = s

-- kernel.DecimalValue
pub record DecimalValue : Type 0 where
  pub units : ℤ
  pub nanos : ℤ

-- float64 and strconv.ParseFloat, which returns a value beside its error.
pub record Floats (F : Type 0) : Type 0 where
  pub parse_float : String → F × Bool
  pub to_int64 : F → ℤ
  pub to_int32 : F → ℤ
  pub of_int64 : ℤ → F
  pub sub : F → F → F
  pub times_billion : F → F
  pub round : F → F
  pub zero_float : F

module _ {F : Type 0} (fl : Floats F) where
  unfoldable pub float64_to_decimal : F → DecimalValue
  float64_to_decimal v =
      let units = fl.to_int64 v in
      record {
        units = units;
        nanos = fl.to_int32 (fl.round (fl.times_billion (fl.sub v (fl.of_int64 units))));
      }

  unfoldable pub tax_rate : String → DecimalValue
  unfolding float64_to_decimal
  tax_rate s = float64_to_decimal (fl.parse_float s).0

  unfoldable pub percentage_rate : String → Option DecimalValue
  unfolding float64_to_decimal
  percentage_rate s =
      if s == ""
      then none
      else if (fl.parse_float s).1
      then some (float64_to_decimal (fl.parse_float s).0)
      else none

  -- parseTrialPeriod of plan_controller.go
  unfoldable pub parse_trial_period : String → F
  parse_trial_period s = if s == "" then fl.zero_float else (fl.parse_float s).0
