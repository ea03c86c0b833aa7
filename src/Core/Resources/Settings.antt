-- ===== src/Core/Resources/Settings.antt =====
-- internal/controller/invoicing_settings_controller.go and
-- api/invoicing/v1alpha1/settings_types.go.
use invora_controller.Prelude.{ℕ, String, Bool, Option, none, some, List, ◌∷◌, refl}
use invora_controller.Go.{Error, Result, M, ℤ, Outcome}
use invora_controller.Api.{NamespacedName, Condition, ResourceRef, Cr}
use invora_controller.Cluster.{Call, Conn, Headers, Log, Env}
use invora_controller.Core.{
  InvoraInstance, Pushed, push_failed, pushed, CoreResource, reconcile_core,
}
use invora_controller.Core.Connections.{CallsOnce}

pub record InvoicingSettingsSpec : Type 0 where
  pub instance_ref : ResourceRef
  pub default_currency : String
  pub default_language : String
  pub document_number_format : String
  pub auto_calculate : Bool
  pub default_payment_terms_days : Option ℤ

pub record InvoicingSettingsStatus : Type 0 where
  pub conditions : List Condition
  pub observed_generation : ℕ
  pub last_synced_at : Option ℕ

abbrev pub InvoicingSettings : Type 0
InvoicingSettings = Cr InvoicingSettingsSpec InvoicingSettingsStatus

-- The call of SettingsService, with an empty request.
pub data SettingsRpc : Type 0 where
  update_settings : SettingsRpc

abbrev State : Type 0
State = Log InvoicingSettings SettingsRpc

pub record SettingsService : Type 0 where
  pub update : State → Option Error

unfoldable pub push_settings :
    SettingsService → Conn → Headers → InvoicingSettings → M State (Pushed InvoicingSettings)
push_settings svc conn headers settings l =
    let l' : State = Call.rpc (some conn) headers update_settings ∷ l in
    (
      elim (svc.update l') [
        | some e ↦ push_failed "UpdateFailed" e
        | none ↦ pushed settings "invoicing settings synced to gateway"
      ],
      l',
    )

abbrev pub invoicing_settings :
    SettingsService → CoreResource InvoicingSettingsSpec InvoicingSettingsStatus SettingsRpc
invoicing_settings svc = record {
  instance_ref = λ s. s.instance_ref;
  conditions = record { read = λ t. t.conditions; store = λ cs t. record t { conditions = cs } };
  mark_synced = λ generation time t. record t {
    observed_generation = generation;
    last_synced_at = some time;
  };
  push = push_settings svc;
}

unfoldable pub reconcile_settings :
    SettingsService
    → Env InvoicingSettings SettingsRpc
    → (State → NamespacedName → Result InvoraInstance)
    → NamespacedName
    → M State Outcome
unfolding reconcile_core
reconcile_settings svc env instances name =
    reconcile_core (invoicing_settings svc) env instances name

-- A push of the invoicing settings makes one call.
pub invoicing_settings-CallsOnce : (svc : SettingsService) → CallsOnce (invoicing_settings svc)
unfolding push_settings
invoicing_settings-CallsOnce svc = record {
  query = λ settings. update_settings;
  asks = λ conn headers settings l. refl;
}
