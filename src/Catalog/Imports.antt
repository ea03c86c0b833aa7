-- ===== src/Catalog/Imports.antt =====
-- The import-id annotation of a catalog resource, where the API server stores the status apart from
-- the object.
use invora_controller.Prelude.{inl, inr, String, ◌≡◌, false, ◌∷◌, ◌==◌, arith, Bool-cases}
use invora_controller.Go.{ok}
use invora_controller.Api.{NamespacedName, Cr, CatalogStatus, is_deleted, finalizer_name}
use invora_controller.Cluster.{Call, Kind, Log, Env}
use invora_controller.Base.{OrgContext, get_import_id, clear_import_id}
use invora_controller.Resource.{
  conditions_of, resolved, Dependencies-cases, resolve_org_dependencies, ensure_finalizer,
}
use invora_controller.Catalog.{CatalogRpc, Service, Catalog, catalog_fields, set_external_id}
use invora_controller.Catalog.Stored.{held, StoresStatus, held-resolve_org_dependencies}
use invora_controller.Catalog.Reconcile.{
  finish_sync, import_existing, reconcile_resolved, reconcile_live, reconcile,
}

-- The resolution of the organization leaves the metadata of the object.
meta-resolve :
    {S C U : Type 0} (k : Catalog S C U) (env : Env (Cr S CatalogStatus) (CatalogRpc C U))
    (o : Cr S CatalogStatus) (l : Log (Cr S CatalogStatus) (CatalogRpc C U)) (orc : OrgContext)
    → let deps =
        resolve_org_dependencies env
          (k.organization_ref o.spec)
          o
          (conditions_of catalog_fields)
          o.meta.generation
          l in
      deps.0.0 ≡ resolved orc → deps.0.1.meta ≡ o.meta
unfolding resolve_org_dependencies
meta-resolve k env o l orc h = ground arith

module _ {S C U : Type 0} (k : Catalog S C U) (svc : Service (Cr S CatalogStatus) C U)
    (env : Env (Cr S CatalogStatus) (CatalogRpc C U)) (name : NamespacedName) (id0 : String)
    (stores : StoresStatus env name id0)
    (accepts : (l : Log (Cr S CatalogStatus) (CatalogRpc C U)) (o : Cr S CatalogStatus)
      → (o' : Cr S CatalogStatus) × (env.update l o ≡ ok o')) where
  abbrev State : Type 0
  State = Log (Cr S CatalogStatus) (CatalogRpc C U)

  held-import_existing :
      (o : Cr S CatalogStatus) (id : String) (l : State)
      → held id0 (import_existing k svc env o id l).1 ≡ held id0 l
  unfolding import_existing finish_sync
  held-import_existing o id l =
      let sent = set_external_id id (record o { meta = clear_import_id o.meta }) in
      let (o', p) = accepts l sent in ground (arith, p, stores.updates l sent o' p)

  held-reconcile_live :
      (o : Cr S CatalogStatus) (l : State)
      → o.status.external_id ≡ held id0 l
      → (get_import_id o.meta == "") ≡ false
      → held id0 (reconcile_live k svc env o l).1 ≡ held id0 l
  unfolding reconcile_live ensure_finalizer reconcile_resolved
  held-reconcile_live o l same given =
      let deps =
        resolve_org_dependencies env (k.organization_ref o.spec) o (conditions_of catalog_fields)
          o.meta.generation l in
      let resolving =
        held-resolve_org_dependencies env (k.organization_ref o.spec) o o.meta.generation l id0
          same in
      elim (Bool-cases (env.platform.contains_finalizer o.meta finalizer_name)) [
        | inr fresh ↦ ground (arith, fresh)
        | inl carried ↦ elim (Dependencies-cases deps.0.0) [
          | inl (result, p) ↦ ground (arith, carried, p, resolving)
          | inr (orc, p) ↦
              let import_id = get_import_id deps.0.1.meta in
              let same_meta = meta-resolve k env o l orc p in
              let imported : held id0 (reconcile_resolved k svc env orc deps.0.1 deps.1).1
                  ≡ held id0 l =
                ground (
                  arith,
                  same_meta,
                  given,
                  resolving,
                  held-import_existing deps.0.1 import_id deps.1,
                ) in
              rw carried (ground (arith, p, imported))
        ]
      ]

  -- Where the API server stores the status of a resource apart from the object, and accepts every
  -- Update: the reconcile of a resource that carries an import id, and is not being deleted, leaves
  -- the external id that the API server holds as it was, so that the id of the annotation is not
  -- imported.
  pub held-reconcile_of_import :
      (l : State) (o : Cr S CatalogStatus)
      → env.get_own l name ≡ ok o
      → is_deleted o.meta ≡ false
      → (get_import_id o.meta == "") ≡ false
      → held id0 (reconcile k svc env name l).1 ≡ held id0 l
  unfolding reconcile
  held-reconcile_of_import l o got live given =
      rw (got, live)
        (held-reconcile_live o (Call.get Kind.own_kind name ∷ l) (stores.reads l o got) given)
