-- ===== src/Tests/Helpers.antt =====
-- The theorems on the helpers, at concrete values.
use invora_controller.Prelude.{String, ◌≡◌, ◌⊎◌, ◌↔◌, refl, true, ◌∷◌, [], codes, trim_space}
use invora_controller.Go.{Error, err}
use invora_controller.Cluster.{Call, Kind, Log, Env}
use invora_controller.Gateway.{resolve_secret_value}
use invora_controller.Gateway.Secrets.{resolve_secret_value_same_namespace}
use invora_controller.Tenant.{guid_re, org_acting_id}
use invora_controller.Tenant.Guid.{IsGuid, guid_re_iff, org_acting_id-IsGuid}
use invora_controller.Convert.{charge_model_enum}
use invora_controller.Convert.CaseFold.{charge_model_enum-has_lower}
use invora_controller.Convert.{currency}
use invora_controller.Convert.Names.{plan_interval_string, currency_string}
use invora_controller.Tests.World.{text_differs, acme, calm_env}

abbrev no_calls : Log Unit Unit
no_calls = []

abbrev billing : String
billing = "billing"

abbrev env : Env Unit Unit
env = calm_env tt

resolve_secret_value_same_namespace_example :
    (((resolve_secret_value env "token" billing "key" billing no_calls).1 ≡ no_calls)
      × ((e : Error) × ((resolve_secret_value env "token" billing "key" billing no_calls).0
            ≡ err e)))
    ⊎ ((billing ≡ billing)
        × ((resolve_secret_value env "token" billing "key" billing no_calls).1
            ≡ Call.get Kind.secret_kind (record { namespace = billing; name = "token" })
              ∷ no_calls))
resolve_secret_value_same_namespace_example =
    resolve_secret_value_same_namespace env "token" billing "key" billing no_calls
      (text_differs billing "" refl)

guid_re_iff_example :
    (guid_re (codes "0123abcd-0123-4567-89AB-0123456789ab") ≡ true)
    ↔ IsGuid (codes "0123abcd-0123-4567-89AB-0123456789ab")
guid_re_iff_example = guid_re_iff (codes "0123abcd-0123-4567-89AB-0123456789ab")

org_acting_id-IsGuid_example :
    (org_acting_id acme ≡ "")
    ⊎ (IsGuid (codes (org_acting_id acme))
        × (org_acting_id acme ≡ trim_space acme.spec.external_id))
org_acting_id-IsGuid_example = org_acting_id-IsGuid acme

charge_model_enum-has_lower_example : charge_model_enum "standard" ≡ 0
charge_model_enum-has_lower_example = charge_model_enum-has_lower "standard" refl

-- The names of an interval and of a currency.
names_run :
    (plan_interval_string (λ n. []) 3 ≡ codes "semiannual")
    × (currency_string (λ n. []) (currency "sar") ≡ codes "SAR")
unfolding plan_interval_string currency_string currency
names_run = (refl, refl)
