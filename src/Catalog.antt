-- ===== src/Catalog.antt =====
-- The reconcilers of the catalog resources: tax_controller.go, metric_controller.go,
-- plan_controller.go, coupon_controller.go, feature_controller.go, addon_controller.go,
-- customer_controller.go and webhookendpoint_controller.go of internal/controller/. They are one
-- sequence of steps and differ in the requests, in the check of a few status writes, and in how a
-- record that exists already is looked for before Create. `Catalog` lists those differences; a
-- module below Resources gives them for each controller.
pub mod Reconcile
pub mod Creates
pub mod Probed
pub mod Paging
pub mod Deletes
pub mod Finalizers
pub mod Tenancy
pub mod Stored
pub mod Accounts
pub mod Once
pub mod Imports
pub mod Leaks
pub mod Duplicates
use invora_controller.Prelude.{
  ℕ, String, ◌<>◌, Bool, true, false, Option, none, some, List, [], ◌∷◌, ◌==◌, not, if◌then◌else◌,
  length,
}
use invora_controller.Go.{
  Error, wrap, quoted, ignore_not_found, Result, ok, err, M, ◌>>=◌, ◌>>◌, pure, ℤ, seconds, Outcome,
  no_requeue, requeue_now, requeue_after,
}
use invora_controller.Api.{
  ResourceRef, NamespacedName, Cr, CatalogStatus, is_deleted, condition_false, condition_synced,
}
use invora_controller.Cluster.{Conn, Headers, Call, Log, Env, fetch_own, write, write_status}
use invora_controller.Base.{
  OrgContext, grpc_ctx, is_grpc_not_found, get_import_id, clear_import_id, success_result,
}
use invora_controller.Resource.{
  StatusFields, conditions_of, resolved, not_ready, ensure_finalizer, set_object_condition,
  set_success_status, resolve_org_dependencies, handle_grpc_deletion,
}
use invora_controller.AdoptByCode.{PaginationInfo, adopt_pagination, PageProbe, scan_pages_for_code}

-- The selector of a Get request.
pub data GetKey : Type 0 where
  by_id by_external_id : String → GetKey

-- The calls of a catalog service; C and U are its create and update requests.
pub data CatalogRpc (C U : Type 0) : Type 0 where
  get_record : GetKey → CatalogRpc C U
  list_page : Option PaginationInfo → CatalogRpc C U
  create : C → CatalogRpc C U
  update : U → CatalogRpc C U
  delete_by_id : String → CatalogRpc C U

-- A listed record: its id, and the key by which a record is adopted (a code or a URL).
pub record Item : Type 0 where
  pub id : String
  pub key : String

pub record ListResponse : Type 0 where
  pub items : List Item
  pub next_page_cursor : String

-- The answers of a service. The log has the call itself as its newest entry, so an answer may
-- depend on the connection, the metadata and all that was called before.
pub record Service (O C U : Type 0) : Type 0 where
  pub get : GetKey → Log O (CatalogRpc C U) → Option Error
  pub list : Option PaginationInfo → Log O (CatalogRpc C U) → Result ListResponse
  pub create : C → Log O (CatalogRpc C U) → Result String
  pub update : U → Log O (CatalogRpc C U) → Option Error
  pub delete : String → Log O (CatalogRpc C U) → Option Error

-- `return ctrl.Result{}, err`, the same with "updating status: %w", or `_ =`.
pub data StatusCheck : Type 0 where
  ignored returned wrapped : StatusCheck

-- How an existing record is looked for: not at all, by one List whose error is passed over, or by
-- scanPagesForCode.
pub data AdoptStrategy : Type 0 where
  never by_list by_scan : AdoptStrategy

pub data UpdateCall (C U : Type 0) : Type 0 where
  by_update : U → UpdateCall C U
  by_create : C → UpdateCall C U

pub record Catalog (S C U : Type 0) : Type 0 where
  pub organization_ref : S → ResourceRef
  pub deletion_policy : S → String
  pub key : S → String
  pub get_key : Cr S CatalogStatus → GetKey
  pub create_request : Cr S CatalogStatus → C
  pub update_call : Cr S CatalogStatus → UpdateCall C U
  pub strategy : AdoptStrategy
  pub plural : String
  pub checks_import : Bool
  pub import_status : StatusCheck
  pub in_sync_status : StatusCheck
  pub adopted_status : StatusCheck
  pub created_status : StatusCheck

abbrev pub catalog_fields : StatusFields CatalogStatus
catalog_fields = record { base = λ t. t.base; store = λ b t. record t { base = b } }

abbrev pub set_external_id : {S : Type 0} → String → Cr S CatalogStatus → Cr S CatalogStatus
set_external_id id o = record o {
  status = record (o.status) { external_id = id; base = record (o.status.base) { id = id } };
}

abbrev pub forget_external_id : {S : Type 0} → Cr S CatalogStatus → Cr S CatalogStatus
forget_external_id o = record o { status = record (o.status) { external_id = "" } }

abbrev pub checked : StatusCheck → Option Error → Option Error
checked ignored e = none
checked returned e = e
checked wrapped none = none
checked wrapped (some e) = some (wrap "updating status" e)

-- The first record of a page that has the key.
unfoldable pub find_key : String → List Item → Option String
find_key k [] = none
find_key k (i ∷ items) = if i.key == k then some i.id else find_key k items

pub data Adoption : Type 0 where
  adopted : String → Adoption
  absent : Adoption
  inconclusive : Error → Adoption

-- One call of a service through the context of the organization.
abbrev pub call : {O Q A : Type 0} → OrgContext → Q → (Log O Q → A) → M (Log O Q) A
call orc q answer l = let l' = Call.rpc orc.conn (grpc_ctx orc) q ∷ l in (answer l', l')

-- What the probe of scanPagesForCode makes of a page.
unfoldable pub page_probe : String → ListResponse → PageProbe
unfolding find_key
page_probe k resp = elim (find_key k resp.items) [
  | some id ↦ record { match_id = id; next = ""; count = 0 }
  | none ↦ record { match_id = ""; next = resp.next_page_cursor; count = length resp.items }
]

module _ {S C U : Type 0} (k : Catalog S C U) (svc : Service (Cr S CatalogStatus) C U) where
  abbrev State : Type 0
  State = Log (Cr S CatalogStatus) (CatalogRpc C U)

  unfoldable pub probe_page : OrgContext → String → String → M State (Result PageProbe)
  unfolding page_probe adopt_pagination
  probe_page orc key cursor = do
    let page = some (adopt_pagination cursor)
    resp ← call orc (list_page page) (svc.list page)
    elim resp [ err e ↦ pure (err e) | ok resp ↦ pure (ok (page_probe key resp)) ]

  unfoldable pub find_existing : AdoptStrategy → OrgContext → String → M State Adoption
  unfolding find_key probe_page scan_pages_for_code
  find_existing never orc key = pure absent
  find_existing by_list orc key = do
    resp ← call orc (list_page none) (svc.list none)
    elim resp [
      | err _ ↦ pure absent
      | ok resp ↦ elim (find_key key resp.items) [
        | none ↦ pure absent
        | some id ↦ pure (adopted id)
      ]
    ]
  find_existing by_scan orc key = do
    found ← scan_pages_for_code key (probe_page orc key)
    elim found [
      | err e ↦ pure (inconclusive e)
      | ok id ↦ if not (id == "") then pure (adopted id) else pure absent
    ]

  unfoldable pub update_remote : OrgContext → Cr S CatalogStatus → M State (Option Error)
  update_remote orc o = elim (k.update_call o) [
    | by_update u ↦ call orc (CatalogRpc.update u) (svc.update u)
    | by_create c ↦ do
      r ← call orc (CatalogRpc.create c) (svc.create c)
      elim r [ ok _ ↦ pure none | err e ↦ pure (some e) ]
  ]
