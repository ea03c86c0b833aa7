-- ===== src/Catalog/Deletes.antt =====
-- The deletion path of a catalog resource.
use invora_controller.Prelude.{
  inl, inr, String, ◌≡◌, ◌≢◌, ◌⊎◌, arith, true, false, none, some, Bool-cases, Option-cases, ◌==◌,
  eq_iff, ◌∷◌,
}
use invora_controller.Go.{Error, ok}
use invora_controller.Api.{
  NamespacedName, is_deleted, Cr, CatalogStatus, deletion_policy_delete, deletion_policy_orphan,
}
use invora_controller.Cluster.{Call, Kind, Log, Env, rpcs, updates}
use invora_controller.Base.{OrgContext, grpc_ctx, is_grpc_not_found}
use invora_controller.Resource.{
  conditions_of, Dependencies-cases, set_object_condition, resolve_org_dependencies,
  finish_deletion, handle_grpc_deletion,
}
use invora_controller.Resource.Quiet.{updates-resolve_org_dependencies, rpcs-finish_deletion}
use invora_controller.Catalog.{CatalogRpc, Service, Catalog, catalog_fields, delete_by_id}
use invora_controller.Catalog.Reconcile.{delete_record, reconcile}

module _ {S C U : Type 0} (k : Catalog S C U) (svc : Service (Cr S CatalogStatus) C U)
    (env : Env (Cr S CatalogStatus) (CatalogRpc C U)) where
  -- The service has answered the Delete of the id, and the record is gone: the answer was no error
  -- or NotFound.
  abbrev pub IsGone : String → Type 0
  IsGone id =
      (orc : OrgContext) × (before : Log (Cr S CatalogStatus) (CatalogRpc C U)) × ((svc.delete id
            (Call.rpc orc.conn (grpc_ctx orc) (delete_by_id id) ∷ before)
          ≡ none)
        ⊎ ((e : Error) × (svc.delete id
                (Call.rpc orc.conn (grpc_ctx orc) (delete_by_id id) ∷ before)
              ≡ some e)
            × (is_grpc_not_found e ≡ true)))

  -- The deletion of a resource with the policy Delete and an external id updates the object, which
  -- is how its finalizer is removed, only after the service has answered the Delete of that id with
  -- no error or NotFound.
  pub updates-delete_record :
      (o : Cr S CatalogStatus) (l : Log (Cr S CatalogStatus) (CatalogRpc C U))
      → k.deletion_policy o.spec ≡ deletion_policy_delete
      → o.status.external_id ≢ ""
      → (updates (delete_record k svc env o l).1 ≡ updates l) ⊎ IsGone o.status.external_id
  unfolding delete_record handle_grpc_deletion set_object_condition finish_deletion
  updates-delete_record o l policy known =
      let deps =
        resolve_org_dependencies env (k.organization_ref o.spec) o (conditions_of catalog_fields)
          o.meta.generation l in
      let quiet : updates deps.1 ≡ updates l =
        updates-resolve_org_dependencies env (k.organization_ref o.spec) o
          (conditions_of catalog_fields) o.meta.generation l in
      let id = o.status.external_id in
      let has_id : (id == "") ≡ false = ground (arith, eq_iff id "") in
      elim (Dependencies-cases deps.0.0) [
        | inl (result, p) ↦ inl (rw (policy, has_id) (ground (arith, quiet, p)))
        | inr (orc, p) ↦
            elim (Option-cases
              (svc.delete id (Call.rpc orc.conn (grpc_ctx orc) (delete_by_id id) ∷ deps.1))) [
                | inl gone ↦ inr (orc, deps.1, inl gone)
                | inr (e, failed) ↦ elim (Bool-cases (is_grpc_not_found e)) [
                  | inl missing ↦ inr (orc, deps.1, inr (e, failed, missing))
                  | inr other ↦ inl (rw (policy, has_id) (ground (arith, quiet, p, failed, other)))
                ]
              ]
      ]

  rpcs-delete_record :
      (o : Cr S CatalogStatus) (l : Log (Cr S CatalogStatus) (CatalogRpc C U))
      → k.deletion_policy o.spec ≡ deletion_policy_orphan
      → rpcs (delete_record k svc env o l).1 ≡ rpcs l
  unfolding delete_record handle_grpc_deletion
  rpcs-delete_record o l policy = rw policy (rpcs-finish_deletion env o l)

  -- The reconcile of a resource that is being deleted, with the policy Orphan, calls no gateway
  -- service.
  pub rpcs-reconcile_of_orphan :
      (name : NamespacedName) (l : Log (Cr S CatalogStatus) (CatalogRpc C U))
      (o : Cr S CatalogStatus)
      → env.get_own l name ≡ ok o
      → is_deleted o.meta ≡ true
      → k.deletion_policy o.spec ≡ deletion_policy_orphan
      → rpcs (reconcile k svc env name l).1 ≡ rpcs l
  unfolding reconcile
  rpcs-reconcile_of_orphan name l o got deleted policy =
      rw (got, deleted) (rpcs-delete_record o (Call.get Kind.own_kind name ∷ l) policy)
