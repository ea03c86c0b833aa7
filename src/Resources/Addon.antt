-- ===== src/Resources/Addon.antt =====
-- addon_controller.go and addon_types.go
use invora_controller.Prelude.{ℕ, String, false, Option, List}
use invora_controller.Go.{ℤ, M, Outcome}
use invora_controller.Api.{ResourceRef, Cr, CatalogStatus, NamespacedName}
use invora_controller.Cluster.{Env, Log}
use invora_controller.Catalog.Reconcile.{reconcile}
use invora_controller.Catalog.{
  Catalog, by_id, by_update, never, ignored, wrapped, Service, CatalogRpc,
}
use invora_controller.Convert.{str_ptr, currency}

pub record AddonSpec : Type 0 where
  pub organization_ref : ResourceRef
  pub deletion_policy : String
  pub code : String
  pub name : String
  pub description : String
  pub amount_cents : ℤ
  pub amount_currency : String
  pub tax_codes : List String

abbrev pub Addon : Type 0
Addon = Cr AddonSpec CatalogStatus

pub record AddOnCreateRequest : Type 0 where
  pub code : String
  pub name : String
  pub amount_cents : ℤ
  pub amount_currency : ℕ
  pub tax_codes : List String
  pub description : Option String

pub record AddOnUpdateRequest : Type 0 where
  pub id : String
  pub code : String
  pub name : String
  pub amount_cents : ℤ
  pub amount_currency : ℕ
  pub tax_codes : List String
  pub description : Option String

unfoldable pub build_create_add_on_request : Addon → AddOnCreateRequest
unfolding currency str_ptr
build_create_add_on_request addon = record {
  code = addon.spec.code;
  name = addon.spec.name;
  amount_cents = addon.spec.amount_cents;
  amount_currency = currency addon.spec.amount_currency;
  tax_codes = addon.spec.tax_codes;
  description = str_ptr addon.spec.description;
}

unfoldable pub build_update_add_on_request : Addon → AddOnUpdateRequest
unfolding currency str_ptr
build_update_add_on_request addon = record {
  id = addon.status.external_id;
  code = addon.spec.code;
  name = addon.spec.name;
  amount_cents = addon.spec.amount_cents;
  amount_currency = currency addon.spec.amount_currency;
  tax_codes = addon.spec.tax_codes;
  description = str_ptr addon.spec.description;
}

abbrev pub addon_catalog : Catalog AddonSpec AddOnCreateRequest AddOnUpdateRequest
addon_catalog = record {
  organization_ref = λ s. s.organization_ref;
  deletion_policy = λ s. s.deletion_policy;
  key = λ s. s.code;
  get_key = λ o. by_id o.status.external_id;
  create_request = build_create_add_on_request;
  update_call = λ o. by_update (build_update_add_on_request o);
  strategy = never;
  plural = "add-ons";
  checks_import = false;
  import_status = ignored;
  in_sync_status = ignored;
  adopted_status = ignored;
  created_status = wrapped;
}

-- Reconcile of Addon
abbrev pub reconcile_addon :
    Service Addon AddOnCreateRequest AddOnUpdateRequest
    → Env Addon (CatalogRpc AddOnCreateRequest AddOnUpdateRequest)
    → NamespacedName
    → M (Log Addon (CatalogRpc AddOnCreateRequest AddOnUpdateRequest)) Outcome
reconcile_addon svc env = reconcile addon_catalog svc env
