-- ===== src/Resources/Tax.antt =====
-- tax_controller.go and tax_types.go
use invora_controller.Prelude.{String, false, Option, some}
use invora_controller.Api.{ResourceRef, Cr, CatalogStatus, NamespacedName}
use invora_controller.Go.{M, Outcome}
use invora_controller.Cluster.{Env, Log}
use invora_controller.Catalog.Reconcile.{reconcile}
use invora_controller.Catalog.{
  Catalog, by_id, by_update, by_scan, ignored, wrapped, Service, CatalogRpc,
}
use invora_controller.Convert.{str_ptr, DecimalValue, Floats, tax_rate}

pub record TaxSpec : Type 0 where
  pub organization_ref : ResourceRef
  pub deletion_policy : String
  pub code : String
  pub name : String
  pub rate : String
  pub description : String

abbrev pub Tax : Type 0
Tax = Cr TaxSpec CatalogStatus

pub record TaxCreateRequest : Type 0 where
  pub code : String
  pub name : String
  pub rate : DecimalValue
  pub description : Option String

pub record TaxUpdateRequest : Type 0 where
  pub id : String
  pub code : Option String
  pub name : Option String
  pub rate : DecimalValue
  pub description : Option String

module _ {F : Type 0} (fl : Floats F) where
  unfoldable pub build_tax_create_request : Tax → TaxCreateRequest
  unfolding str_ptr tax_rate
  build_tax_create_request tax = record {
    code = tax.spec.code;
    name = tax.spec.name;
    rate = tax_rate fl tax.spec.rate;
    description = str_ptr tax.spec.description;
  }

  unfoldable pub build_tax_update_request : Tax → TaxUpdateRequest
  unfolding str_ptr tax_rate
  build_tax_update_request tax = record {
    id = tax.status.external_id;
    code = some tax.spec.code;
    name = some tax.spec.name;
    rate = tax_rate fl tax.spec.rate;
    description = str_ptr tax.spec.description;
  }

  abbrev pub tax_catalog : Catalog TaxSpec TaxCreateRequest TaxUpdateRequest
  tax_catalog = record {
    organization_ref = λ s. s.organization_ref;
    deletion_policy = λ s. s.deletion_policy;
    key = λ s. s.code;
    get_key = λ tax. by_id tax.status.external_id;
    create_request = build_tax_create_request;
    update_call = λ tax. by_update (build_tax_update_request tax);
    strategy = by_scan;
    plural = "taxes";
    checks_import = false;
    import_status = ignored;
    in_sync_status = ignored;
    adopted_status = wrapped;
    created_status = wrapped;
  }

  -- Reconcile of Tax
  abbrev pub reconcile_tax :
      Service Tax TaxCreateRequest TaxUpdateRequest
      → Env Tax (CatalogRpc TaxCreateRequest TaxUpdateRequest)
      → NamespacedName
      → M (Log Tax (CatalogRpc TaxCreateRequest TaxUpdateRequest)) Outcome
  reconcile_tax svc env = reconcile tax_catalog svc env
