-- ===== src/Catalog/Once.antt =====
-- The records that a series of reconciles of one catalog resource creates and deletes.
use invora_controller.Prelude.{
  ℕ, zero, suc, inl, inr, String, ◌≡◌, ◌∷◌, [], ◌≢◌, ap, ◌∙◌, ◌⊎◌, refl, arith, Bool-cases,
  Option-cases, true,
}
use invora_controller.Go.{Result-cases, ok}
use invora_controller.Api.{NamespacedName, Cr, CatalogStatus, finalizer_name}
use invora_controller.Cluster.{Call, Kind, Log, Env}
use invora_controller.Base.{OrgContext, get_import_id}
use invora_controller.Resource.{
  conditions_of, resolved, Dependencies, resolve_org_dependencies, Dependencies-cases,
  ensure_finalizer,
}
use invora_controller.Resource.Deletion.{handle_grpc_deletion_keeps}
use invora_controller.Catalog.{CatalogRpc, Service, Catalog, catalog_fields, delete_by_id, call}
use invora_controller.Catalog.Probed.{IsInPlace}
use invora_controller.Catalog.Stored.{
  external_id-resolve_org_dependencies, meta-resolve_org_dependencies,
  held-resolve_org_dependencies, records-resolve_org_dependencies, held, StoresStatus, KeepsRecords,
  records, accounts, accounts-remove, accounts-cases, Fits, Accounted,
}
use invora_controller.Catalog.Reconcile.{
  delete_record, reconcile_resolved, reconcile_live, reconcile,
}
use invora_controller.Catalog.Accounts.{Accounted-finish_deletion, Accounted-reconcile_resolved}

module _ {S C U : Type 0} (k : Catalog S C U) (svc : Service (Cr S CatalogStatus) C U)
    (env : Env (Cr S CatalogStatus) (CatalogRpc C U)) (name : NamespacedName) where
  -- That many reconciles of the resource, one after the other.
  abbrev pub reconciles :
      ℕ → Log (Cr S CatalogStatus) (CatalogRpc C U) → Log (Cr S CatalogStatus) (CatalogRpc C U)
  reconciles zero l = l
  reconciles (suc n) l = (reconcile k svc env name (reconciles n l)).1

module _ {S C U : Type 0} (k : Catalog S C U) (svc : Service (Cr S CatalogStatus) C U)
    (env : Env (Cr S CatalogStatus) (CatalogRpc C U))
    (in_place : (o : Cr S CatalogStatus) → IsInPlace (k.update_call o)) (keeps : KeepsRecords k svc)
    (name : NamespacedName) (id0 : String) (stores : StoresStatus env name id0)
    (no_import : (l : Log (Cr S CatalogStatus) (CatalogRpc C U)) (o : Cr S CatalogStatus)
      → env.get_own l name ≡ ok o
      → get_import_id o.meta ≡ "") where
  abbrev State : Type 0
  State = Log (Cr S CatalogStatus) (CatalogRpc C U)

  -- The resolution of the organization leaves the id as it is, where it is held and in the object
  -- of a caller that goes on.
  module _ (o : Cr S CatalogStatus) (l : State) (same : o.status.external_id ≡ held id0 l)
      (h : Fits svc o l) where
    abbrev deps : (Dependencies × Cr S CatalogStatus) × State
    deps =
        resolve_org_dependencies env (k.organization_ref o.spec) o (conditions_of catalog_fields)
          o.meta.generation l

    Accounted-resolve : Accounted svc id0 deps.1
    Accounted-resolve =
        rw
          (
            records-resolve_org_dependencies env (k.organization_ref o.spec) o o.meta.generation l
                svc,
            held-resolve_org_dependencies env (k.organization_ref o.spec) o o.meta.generation l id0
                same,
            ← same,
          )
          h

    Fits-resolve : (orc : OrgContext) → deps.0.0 ≡ resolved orc → Fits svc deps.0.1 deps.1
    Fits-resolve orc p =
        rw
          (
            records-resolve_org_dependencies env (k.organization_ref o.spec) o o.meta.generation l
                svc,
            external_id-resolve_org_dependencies env (k.organization_ref o.spec) o o.meta.generation
                l orc p,
          )
          h

    accounts-delete :
        (orc : OrgContext) (id : String) (at : State)
        → accounts id (records svc at) ≡ true
        → accounts id (
            records svc
              (call orc (delete_by_id o.status.external_id) (svc.delete o.status.external_id) at).1)
          ≡ true
    accounts-delete orc id at kept =
        let asked =
          (call orc (delete_by_id o.status.external_id) (svc.delete o.status.external_id) at).1 in
        elim (Option-cases (svc.delete o.status.external_id asked)) [
          | inl gone ↦ rw gone (accounts-remove id o.status.external_id (records svc at) kept)
          | inr (e, failed) ↦ rw failed kept
        ]

    Accounted-delete_record : Accounted svc id0 (delete_record k svc env o l).1
    unfolding delete_record
    Accounted-delete_record =
        handle_grpc_deletion_keeps env (Accounted svc id0) (Accounted-finish_deletion svc env id0) o
          (k.organization_ref o.spec) (k.deletion_policy o.spec) o.status.external_id
          (conditions_of catalog_fields) o.meta.generation
          (λ orc. call orc (delete_by_id o.status.external_id) (svc.delete o.status.external_id)) l
          (rw (← same) h) Accounted-resolve
          (λ orc p. accounts-delete orc (held id0 deps.1) deps.1 Accounted-resolve)
          (λ orc p cs. accounts-delete orc deps.0.1.status.external_id deps.1 (Fits-resolve orc p))

    Accounted-reconcile_live :
        get_import_id o.meta ≡ "" → Accounted svc id0 (reconcile_live k svc env o l).1
    unfolding reconcile_live ensure_finalizer
    Accounted-reconcile_live fresh_meta =
        elim (Bool-cases (env.platform.contains_finalizer o.meta finalizer_name)) [
          | inr fresh ↦ ground (arith, fresh)
          | inl carried ↦ elim (Dependencies-cases deps.0.0) [
            | inl (result, p) ↦ ground (arith, carried, p, Accounted-resolve)
            | inr (orc, p) ↦
                let kept : Accounted svc id0 (reconcile_resolved k svc env orc deps.0.1 deps.1).1 =
                  Accounted-reconcile_resolved k svc env in_place keeps name id0 stores orc deps.0.1
                    deps.1 (Fits-resolve orc p)
                    (ap (λ m. get_import_id m)
                        (meta-resolve_org_dependencies env (k.organization_ref o.spec) o
                          o.meta.generation l orc p)
                      ∙ fresh_meta) in
                rw carried (ground (arith, p, kept))
          ]
        ]

  Accounted-reconcile :
      (l : State) → Accounted svc id0 l → Accounted svc id0 (reconcile k svc env name l).1
  unfolding reconcile
  Accounted-reconcile l h = elim (Result-cases (env.get_own l name)) [
    | inl (e, p) ↦ rw p h
    | inr (o, p) ↦
        let same = stores.reads l o p in
        let read = Call.get Kind.own_kind name ∷ l in
        ground (
          arith,
          p,
          same,
          Accounted-delete_record o read same (rw same h),
          Accounted-reconcile_live o read same (rw same h) (no_import l o p),
        )
  ]

  Accounted-reconciles : (n : ℕ) → Accounted svc id0 (reconciles k svc env name n [])
  Accounted-reconciles zero = refl
  Accounted-reconciles (suc n) =
      Accounted-reconcile (reconciles k svc env name n []) (Accounted-reconciles n)

  -- However often a resource without an import id is reconciled, where the API server stores its status, a record is
  -- updated by an Update call, a created record has an id, and a Get for an object with the id of a
  -- record that was created and not deleted is not answered NotFound: of the records that the
  -- reconciles create there is at most one at a time that is not deleted, and it has the external id
  -- that the API server holds.
  pub records-reconciles :
      (n : ℕ)
      → (records svc (reconciles k svc env name n []) ≡ [])
        ⊎ ((records svc (reconciles k svc env name n [])
              ≡ held id0 (reconciles k svc env name n []) ∷ [])
            × (held id0 (reconciles k svc env name n []) ≢ ""))
  records-reconciles n =
      let l = reconciles k svc env name n [] in
      accounts-cases (held id0 l) (records svc l) (Accounted-reconciles n)
