-- ===== src/Tests/Stores.antt =====
-- The theorems on the tenant of a catalog resource, its records and its import, at a tax whose
-- status the API server stores.
use invora_controller.Prelude.{
  String, Option, none, some, List, [], ◌∷◌, ap, ◌+◌, ◌≡◌, ◌≢◌, ◌⊎◌, refl, arith, eq_iff,
}
use mathlib.Core.List.{Memᴰ}
use mathlib.Core.List.Memᴰ.{not-nil}
use invora_controller.Go
use invora_controller.Go.{Error, ok}
use invora_controller.Cluster.{Call, Log, Env, open_conns}
use invora_controller.Catalog.{Service, CatalogRpc}
use invora_controller.Catalog.Stored.{held, remove, records, StoresStatus, KeepsRecords}
use invora_controller.Catalog.Once.{reconciles, records-reconciles}
use invora_controller.Resource.Connections.{opened}
use invora_controller.Catalog.Leaks.{open_conns-reconcile}
use invora_controller.Catalog.Imports.{held-reconcile_of_import}
use invora_controller.Catalog.Tenancy.{AllActFor, reconcile-AllActFor}
use invora_controller.Catalog.Reconcile.{reconcile}
use invora_controller.Base.{get_import_id}
use invora_controller.Resources.Tax.{Tax, TaxCreateRequest, TaxUpdateRequest, tax_catalog}
use invora_controller.Tests.Catalogs.{vat, Q, holding, request, no_calls}
use invora_controller.Tests.World.{calm_env, whole, text_differs}

abbrev with_id : String → Tax → Tax
with_id id o = record o { status = record (o.status) { external_id = id } }

-- An API server that stores the external id of an object, and nothing else of its status.
abbrev storing : Tax → Env Tax Q
storing tax = record (calm_env tax) {
  get_own = λ l n. ok (with_id (held "" l) tax);
  update = λ l o. ok (with_id (held "" l) o);
}

storing-StoresStatus : (tax : Tax) → StoresStatus (storing tax) request ""
storing-StoresStatus tax = record {
  reads = λ l o h. ground arith;
  writes = λ l o. (o, refl, refl);
  updates = λ l o o' h. ground arith;
}

-- A gateway that answers NotFound while no record is there.
abbrev not_found_error : Error
not_found_error = record { text = "no tax"; grpc_code = some 5; reason = Go.other }

abbrev answer : List String → Option Error
answer [] = some not_found_error
answer (_ ∷ _) = none

answer_of_some : (id : String) (rs : List String) → Memᴰ id rs → answer rs ≡ none
answer_of_some id [] there = absurd (not-nil there)
answer_of_some id (r ∷ rs) there = refl

abbrev keeping : Service Tax TaxCreateRequest TaxUpdateRequest
keeping = record (holding []) { get = λ q l. answer (records (holding []) l) }

records-keeping : (l : Log Tax Q) → records keeping l ≡ records (holding []) l
records-keeping [] = refl
records-keeping (Call.rpc conn headers (CatalogRpc.create c) ∷ l) = cc (records-keeping l)
records-keeping (Call.rpc conn headers (CatalogRpc.delete_by_id id) ∷ l) =
    ap (λ rs. remove id rs) (records-keeping l)
records-keeping (Call.rpc conn headers (CatalogRpc.get_record q) ∷ l) = records-keeping l
records-keeping (Call.rpc conn headers (CatalogRpc.list_page p) ∷ l) = records-keeping l
records-keeping (Call.rpc conn headers (CatalogRpc.update u) ∷ l) = records-keeping l
records-keeping (Call.get kind name ∷ l) = records-keeping l
records-keeping (Call.list kind namespace ∷ l) = records-keeping l
records-keeping (Call.update o ∷ l) = records-keeping l
records-keeping (Call.update_status o ∷ l) = records-keeping l
records-keeping (Call.new_client target tls ∷ l) = records-keeping l
records-keeping (Call.close conn ∷ l) = records-keeping l

keeping-KeepsRecords : KeepsRecords (tax_catalog whole) keeping
keeping-KeepsRecords = record {
  has_id = λ c l id h. ground (arith, eq_iff id "", text_differs "new-id" "" refl);
  finds = λ o l e there h.
      let kept : Memᴰ o.status.external_id (records (holding []) l) =
        rw (← records-keeping l) there in
      let found = answer_of_some o.status.external_id (records (holding []) l) kept in
      absurd (ground (arith, h, found));
}

abbrev thrice : Log Tax Q
thrice = reconciles (tax_catalog whole) keeping (storing vat) request 3 []

records-reconciles_example :
    (records keeping thrice ≡ [])
    ⊎ ((records keeping thrice ≡ held "" thrice ∷ []) × (held "" thrice ≢ ""))
unfolding get_import_id
records-reconciles_example =
    records-reconciles (tax_catalog whole) keeping (storing vat) (λ o. tt) keeping-KeepsRecords
      request "" (storing-StoresStatus vat) (λ l o h. ground arith) 3

abbrev imported_tax : Tax
imported_tax = record vat {
  meta = record (vat.meta) { annotations = ("billing.invora.app/import-id", "t-9") ∷ [] };
}

held-reconcile_of_import_example :
    held "" (reconcile (tax_catalog whole) (holding []) (storing imported_tax) request no_calls).1
    ≡ ""
unfolding get_import_id
held-reconcile_of_import_example =
    held-reconcile_of_import (tax_catalog whole) (holding []) (storing imported_tax) request ""
      (storing-StoresStatus imported_tax) (λ l o. (with_id (held "" l) o, refl)) no_calls
      (with_id "" imported_tax) refl refl refl

reconcile-AllActFor_example :
    AllActFor
      (tax_catalog whole)
      (holding [])
      (calm_env vat)
      vat
      (reconcile (tax_catalog whole) (holding []) (calm_env vat) request no_calls).1
reconcile-AllActFor_example =
    reconcile-AllActFor (tax_catalog whole) (holding []) (calm_env vat) request no_calls vat refl tt

open_conns-reconcile_example :
    open_conns
        (calm_env vat)
        (reconcile (tax_catalog whole) (holding []) (calm_env vat) request no_calls).1
      + opened (calm_env vat) no_calls
    ≡ open_conns (calm_env vat) no_calls
      + opened
          (calm_env vat)
          (reconcile (tax_catalog whole) (holding []) (calm_env vat) request no_calls).1
open_conns-reconcile_example =
    open_conns-reconcile (tax_catalog whole) (holding []) (calm_env vat) request no_calls
