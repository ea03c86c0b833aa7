-- ===== src/Convert/Names.antt =====
-- CurrencyString and PlanIntervalString of internal/convert/enums.go, which no controller calls, on
-- code points. The generated String method gives the name of a value, and the decimal text of a
-- number that is no value, which is a parameter.
use invora_controller.Prelude.{
  ℕ, ◌+◌, String, List, [], ◌∷◌, map, ◌&&◌, codes, leb, eqb, if◌then◌else◌,
}
use invora_controller.Convert.Tables.{currency_enum_value, plan_interval_value}

abbrev pub name_of : (ℕ → List ℕ) → List (String × ℕ) → ℕ → List ℕ
name_of decimal [] e = decimal e
name_of decimal ((name, v) ∷ table) e = if eqb v e then codes name else name_of decimal table e

-- strings.TrimPrefix, given what to do where the prefix is missing
abbrev trimmed : List ℕ → List ℕ → List ℕ → List ℕ
trimmed whole [] s = s
trimmed whole (c ∷ prefix) [] = whole
trimmed whole (c ∷ prefix) (d ∷ s) =
    let rest = trimmed whole prefix s in if eqb c d then rest else whole

abbrev pub trim_prefix : List ℕ → List ℕ → List ℕ
trim_prefix s prefix = trimmed s prefix s

-- strings.ToLower of an ASCII character
abbrev pub to_lower : ℕ → ℕ
to_lower c = if leb b'A' c && leb c b'Z' then c + 32 else c

unfoldable pub currency_string : (ℕ → List ℕ) → ℕ → List ℕ
currency_string decimal e =
    trim_prefix (name_of decimal currency_enum_value e) (codes "CURRENCY_ENUM_")

unfoldable pub plan_interval_string : (ℕ → List ℕ) → ℕ → List ℕ
plan_interval_string decimal e =
    map to_lower (trim_prefix (name_of decimal plan_interval_value e) (codes "PLAN_INTERVAL_"))
