-- ===== src/Tests/Catalogs.antt =====
-- The theorems on the catalog controllers, at a tax.
use invora_controller.Prelude.{
  String, true, ◌≡◌, refl, ◌≤◌, ◌⊎◌, Option, none, some, List, [], ◌∷◌, arith, id_or_empty,
}
use invora_controller.Go.{Result, ok, err}
use invora_controller.Api.{is_deleted, finalizer_name, NamespacedName}
use invora_controller.Cluster.{Call, Kind, rpcs, updates, Log, Env}
use invora_controller.Base.{OrgContext, get_import_id}
use invora_controller.Resource.{ensure_finalizer, resolve_org_dependencies}
use invora_controller.AdoptByCode.{PaginationInfo, adopt_pagination, scan_pages_for_code}
use invora_controller.Catalog.{Service, CatalogRpc, Item, ListResponse, find_key, probe_page}
use invora_controller.Catalog.Finalizers.{rpcs-reconcile_finalizer}
use invora_controller.Catalog.Paging.{Serves, all_items, scan_pages_for_code-Serves}
use invora_controller.Catalog.Reconcile.{
  reconcile, reconcile_live, reconcile_resolved, delete_record, import_existing, sync_record,
}
use invora_controller.Catalog.Deletes.{IsGone, updates-delete_record}
use invora_controller.Catalog.Creates.{creates, creates-reconcile}
use invora_controller.Catalog.Probed.{IsUnknown, resolution}
use invora_controller.Catalog.Duplicates.{Walked, reconcile-Walked, reconcile-no_duplicate}
use invora_controller.Resources.Tax.{Tax, TaxCreateRequest, TaxUpdateRequest, tax_catalog}
use invora_controller.Tests.World.{text_differs, named, fresh, acme, calm_env, unavailable, whole}

abbrev pub vat : Tax
vat = record {
  meta = named "vat-15";
  spec = record {
    organization_ref = record { name = "acme"; namespace = "" };
    deletion_policy = "Delete";
    code = "vat_15";
    name = "VAT";
    rate = "15";
    description = "";
  };
  status = record { base = fresh; external_id = "" };
}

abbrev pub Q : Type 0
Q = CatalogRpc TaxCreateRequest TaxUpdateRequest

-- A service that holds the given records on one page.
abbrev pub holding : List Item → Service Tax TaxCreateRequest TaxUpdateRequest
holding items = record {
  get = λ g l. none;
  list = λ p l. ok (record { items = items; next_page_cursor = "" });
  create = λ c l. ok "new-id";
  update = λ u l. none;
  delete = λ id l. none;
}

abbrev broken : Service Tax TaxCreateRequest TaxUpdateRequest
broken = record (holding []) { list = λ p l. err unavailable }

abbrev pub request : NamespacedName
request = record { namespace = "billing"; name = "vat-15" }

abbrev tax_env : Env Tax Q
tax_env = calm_env vat

abbrev acting : OrgContext
acting = record { org = acme; conn = none; token = "secret-token"; org_id = "" }

abbrev pub no_calls : Log Tax Q
no_calls = []

creates-reconcile_example :
    creates (reconcile (tax_catalog whole) (holding []) tax_env request no_calls).1 ≤ 1
creates-reconcile_example =
    creates-reconcile (tax_catalog whole) (holding []) tax_env request no_calls

-- A new tax is created, one whose code is taken is adopted, and a failed probe creates nothing.
creates_run :
    (creates (reconcile (tax_catalog whole) (holding []) tax_env request no_calls).1 ≡ 1)
    × (creates
          (reconcile
            (tax_catalog whole)
            (holding (record { id = "t-1"; key = "vat_15" } ∷ []))
            tax_env
            request
            no_calls).1
        ≡ 0)
    × (creates (reconcile (tax_catalog whole) broken tax_env request no_calls).1 ≡ 0)
unfolding reconcile reconcile_live reconcile_resolved delete_record ensure_finalizer
    resolve_org_dependencies get_import_id import_existing sync_record
creates_run = (refl, refl, refl)

-- Two pages, the record on the second.
abbrev first_page : List Item
first_page = record { id = "t-1"; key = "vat_5" } ∷ []

abbrev second_page : List Item
second_page = record { id = "t-2"; key = "vat_15" } ∷ []

abbrev answer : Option PaginationInfo → Result ListResponse
answer none = ok (record { items = []; next_page_cursor = "" })
answer (some p) = elim p.cursor [
  | none ↦ ok (record { items = first_page; next_page_cursor = "next" })
  | some c ↦ ok (record { items = second_page; next_page_cursor = "" })
]

abbrev paged : Service Tax TaxCreateRequest TaxUpdateRequest
paged = record (holding []) { list = λ p l. answer p }

paged-Serves : Serves (tax_catalog whole) paged "" (first_page ∷ second_page ∷ [])
unfolding adopt_pagination
paged-Serves = (
  "next",
  λ l. refl,
  text_differs "next" "" refl,
  text_differs "next" "" refl,
  ground arith,
  λ l. refl,
)

scan_pages_for_code-Serves_example :
    (scan_pages_for_code "vat_15" (probe_page (tax_catalog whole) paged acting "vat_15") no_calls).0
    ≡ ok (id_or_empty (find_key "vat_15" (all_items (first_page ∷ second_page ∷ []))))
scan_pages_for_code-Serves_example =
    scan_pages_for_code-Serves (tax_catalog whole) paged acting "vat_15"
      (first_page ∷ second_page ∷ []) no_calls paged-Serves (omega arith)

reconcile-Walked_example :
    (creates (reconcile (tax_catalog whole) paged tax_env request no_calls).1 ≡ 0)
    ⊎ Walked (tax_catalog whole) paged tax_env refl (λ o. tt) request no_calls
reconcile-Walked_example =
    reconcile-Walked (tax_catalog whole) paged tax_env refl (λ o. tt) request no_calls

abbrev first_read : Log Tax Q
first_read = Call.get Kind.own_kind request ∷ no_calls

reconcile-no_duplicate_example :
    (creates (reconcile (tax_catalog whole) paged tax_env request no_calls).1 ≡ 0)
    ⊎ ((o : Tax) × (orc : OrgContext) × (at : Log Tax Q) × (tax_env.get_own no_calls request ≡ ok o)
        × IsUnknown
            (tax_catalog whole)
            paged
            tax_env
            orc
            (resolution (tax_catalog whole) paged tax_env o first_read).0.1
            o.status.external_id
            (resolution (tax_catalog whole) paged tax_env o first_read).1
            at
        × (id_or_empty (find_key o.spec.code (all_items (first_page ∷ second_page ∷ []))) ≡ ""))
reconcile-no_duplicate_example =
    reconcile-no_duplicate (tax_catalog whole) paged tax_env refl (λ o. tt)
      (first_page ∷ second_page ∷ []) paged-Serves (omega arith) request no_calls

-- A tax that exists remotely and is being deleted.
abbrev going : String → Tax
going policy = record vat {
  meta = record (vat.meta) { deletion_timestamp = some 5 };
  spec = record (vat.spec) { deletion_policy = policy };
  status = record (vat.status) { external_id = "t-2" };
}

updates-delete_record_example :
    (updates (delete_record (tax_catalog whole) paged tax_env (going "Delete") no_calls).1 ≡ [])
    ⊎ IsGone (tax_catalog whole) paged tax_env "t-2"
updates-delete_record_example =
    updates-delete_record (tax_catalog whole) paged tax_env (going "Delete") no_calls refl
      (text_differs "t-2" "" refl)

rpcs-reconcile_finalizer_example :
    (rpcs (reconcile (tax_catalog whole) paged tax_env request no_calls).1 ≡ rpcs no_calls)
    ⊎ ((o : Tax) × (tax_env.get_own no_calls request ≡ ok o)
        × ((is_deleted o.meta ≡ true)
            ⊎ (tax_env.platform.contains_finalizer o.meta finalizer_name ≡ true)))
rpcs-reconcile_finalizer_example =
    rpcs-reconcile_finalizer (tax_catalog whole) paged tax_env request no_calls
