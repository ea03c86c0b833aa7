-- ===== src/Resources/Customer.antt =====
-- customer_controller.go and customer_types.go. The gateway's Create is an upsert by external id:
-- the controller updates by it, and its Get asks by the external id of the spec.
use invora_controller.Prelude.{ℕ, String, false, Option, none, some, List, ◌==◌, if◌then◌else◌}
use invora_controller.Api.{ResourceRef, Cr, CatalogStatus, NamespacedName}
use invora_controller.Go.{M, Outcome}
use invora_controller.Cluster.{Env, Log}
use invora_controller.Catalog.Reconcile.{reconcile}
use invora_controller.Catalog.{
  Catalog, by_external_id, by_create, never, ignored, wrapped, Service, CatalogRpc,
}
use invora_controller.Convert.{str_ptr, currency}

pub record CustomerSpec : Type 0 where
  pub organization_ref : ResourceRef
  pub deletion_policy : String
  pub external_id : String
  pub name : String
  pub email : String
  pub currency : String
  pub address_line1 : String
  pub address_line2 : String
  pub city : String
  pub country : String
  pub state : String
  pub zipcode : String
  pub legal_name : String
  pub legal_number : String
  pub phone : String
  pub timezone : String
  pub tax_codes : List String

abbrev pub Customer : Type 0
Customer = Cr CustomerSpec CatalogStatus

pub record CustomerCreateRequest : Type 0 where
  pub external_id : String
  pub tax_codes : List String
  pub name : Option String
  pub email : Option String
  pub currency : Option ℕ
  pub address_line1 : Option String
  pub address_line2 : Option String
  pub city : Option String
  pub state : Option String
  pub zipcode : Option String
  pub legal_name : Option String
  pub legal_number : Option String
  pub phone : Option String

unfoldable pub build_create_customer_request : Customer → CustomerCreateRequest
unfolding currency str_ptr
build_create_customer_request customer = record {
  external_id = customer.spec.external_id;
  tax_codes = customer.spec.tax_codes;
  name = str_ptr customer.spec.name;
  email = str_ptr customer.spec.email;
  currency = if customer.spec.currency == "" then none else some (currency customer.spec.currency);
  address_line1 = str_ptr customer.spec.address_line1;
  address_line2 = str_ptr customer.spec.address_line2;
  city = str_ptr customer.spec.city;
  state = str_ptr customer.spec.state;
  zipcode = str_ptr customer.spec.zipcode;
  legal_name = str_ptr customer.spec.legal_name;
  legal_number = str_ptr customer.spec.legal_number;
  phone = str_ptr customer.spec.phone;
}

abbrev pub customer_catalog : Catalog CustomerSpec CustomerCreateRequest ⊥
customer_catalog = record {
  organization_ref = λ s. s.organization_ref;
  deletion_policy = λ s. s.deletion_policy;
  key = λ s. s.external_id;
  get_key = λ o. by_external_id o.spec.external_id;
  create_request = build_create_customer_request;
  update_call = λ o. by_create (build_create_customer_request o);
  strategy = never;
  plural = "customers";
  checks_import = false;
  import_status = ignored;
  in_sync_status = ignored;
  adopted_status = ignored;
  created_status = wrapped;
}

-- Reconcile of Customer
abbrev pub reconcile_customer :
    Service Customer CustomerCreateRequest ⊥
    → Env Customer (CatalogRpc CustomerCreateRequest ⊥)
    → NamespacedName
    → M (Log Customer (CatalogRpc CustomerCreateRequest ⊥)) Outcome
reconcile_customer svc env = reconcile customer_catalog svc env
