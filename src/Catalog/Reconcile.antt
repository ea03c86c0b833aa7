-- ===== src/Catalog/Reconcile.antt =====
-- Reconcile of a catalog resource, branch by branch in the order of the source.
use invora_controller.Prelude.{String, ◌<>◌, true, false, none, some, ◌==◌, not, if◌then◌else◌}
use invora_controller.Go.{
  wrap, quoted, ignore_not_found, ok, err, M, ◌>>=◌, pure, ℤ, seconds, Outcome, no_requeue,
  requeue_now, requeue_after,
}
use invora_controller.Api.{
  NamespacedName, Cr, CatalogStatus, is_deleted, condition_false, condition_synced,
}
use invora_controller.Cluster.{Log, Env, fetch_own, write, write_status}
use invora_controller.Base.{
  OrgContext, is_grpc_not_found, get_import_id, clear_import_id, success_result,
}
use invora_controller.Resource.{
  conditions_of, resolved, not_ready, ensure_finalizer, set_object_condition, set_success_status,
  resolve_org_dependencies, handle_grpc_deletion,
}
use invora_controller.Catalog.{
  CatalogRpc, Service, Catalog, StatusCheck, checked, catalog_fields, set_external_id,
  forget_external_id, adopted, absent, inconclusive, call, find_existing, update_remote,
}

module _ {S C U : Type 0} (k : Catalog S C U) (svc : Service (Cr S CatalogStatus) C U)
    (env : Env (Cr S CatalogStatus) (CatalogRpc C U)) where
  abbrev State : Type 0
  State = Log (Cr S CatalogStatus) (CatalogRpc C U)

  -- Synced=False is written, its error passed over, and the request is queued again.
  unfoldable pub fail_synced : Cr S CatalogStatus → String → String → ℤ → M State Outcome
  unfolding set_object_condition
  fail_synced o reason message delay = do
    o ←
        set_object_condition env (conditions_of catalog_fields) o condition_synced condition_false
          reason message o.meta.generation
    (_, o) ← write_status env o
    pure (requeue_after delay, none)

  unfoldable pub finish_sync : StatusCheck → Cr S CatalogStatus → String → M State Outcome
  unfolding set_success_status success_result
  finish_sync check o reason = do
    o ← set_success_status env catalog_fields o o.meta.generation reason
    (e, o) ← write_status env o
    elim (checked check e) [
      | some e ↦ pure (no_requeue, some e)
      | none ↦ pure (success_result env o.meta, none)
    ]

  unfoldable pub import_existing : Cr S CatalogStatus → String → M State Outcome
  unfolding finish_sync
  import_existing o import_id = do
    let o = set_external_id import_id (record o { meta = clear_import_id o.meta })
    (e, o) ← write env o
    elim (if k.checks_import then e else none) [
      | some e ↦ pure (no_requeue, some (wrap "clearing import-id" e))
      | none ↦ finish_sync k.import_status o "Imported"
    ]

  unfoldable pub create_record : OrgContext → Cr S CatalogStatus → M State Outcome
  unfolding fail_synced finish_sync
  create_record orc o = do
    let c = k.create_request o
    created ← call orc (CatalogRpc.create c) (svc.create c)
    elim created [
      | err e ↦ fail_synced o "CreateFailed" e.text (seconds 30)
      | ok id ↦ finish_sync k.created_status (set_external_id id o) "Created"
    ]

  unfoldable pub adopt_or_create : OrgContext → Cr S CatalogStatus → M State Outcome
  unfolding find_existing fail_synced finish_sync create_record
  adopt_or_create orc o = do
    found ← find_existing k svc k.strategy orc (k.key o.spec)
    elim found [
      | inconclusive e ↦
          fail_synced o "AdoptProbeFailed"
            ("listing existing "
              <> k.plural
              <> " to adopt code "
              <> quoted (k.key o.spec)
              <> " failed; refusing to Create to avoid a duplicate: "
              <> e.text)
            (seconds 30)
      | adopted id ↦ finish_sync k.adopted_status (set_external_id id o) "Adopted"
      | absent ↦ create_record orc o
    ]

  unfoldable pub sync_existing : OrgContext → Cr S CatalogStatus → M State Outcome
  unfolding update_remote fail_synced finish_sync
  sync_existing orc o = do
    updated ← update_remote k svc orc o
    elim updated [
      | some e ↦ fail_synced o "UpdateFailed" e.text (seconds 30)
      | none ↦ finish_sync k.in_sync_status o "InSync"
    ]

  unfoldable pub sync_record : OrgContext → Cr S CatalogStatus → M State Outcome
  unfolding sync_existing adopt_or_create fail_synced is_grpc_not_found
  sync_record orc o =
      if not (o.status.external_id == "")
      then (do
        let q = k.get_key o
        got ← call orc (CatalogRpc.get_record q) (svc.get q)
        elim got [
          | none ↦ sync_existing orc o
          | some e ↦
              if is_grpc_not_found e
              then adopt_or_create orc (forget_external_id o)
              else fail_synced o "GetFailed" e.text (seconds 10)
        ])
      else adopt_or_create orc o

  unfoldable pub delete_record : Cr S CatalogStatus → M State Outcome
  unfolding handle_grpc_deletion
  delete_record o =
      handle_grpc_deletion env o (k.organization_ref o.spec) (k.deletion_policy o.spec)
        o.status.external_id (conditions_of catalog_fields) o.meta.generation
        λ orc.
          call orc (CatalogRpc.delete_by_id o.status.external_id) (svc.delete o.status.external_id)

  unfoldable pub reconcile_resolved : OrgContext → Cr S CatalogStatus → M State Outcome
  reconcile_resolved orc o =
      let import_id = get_import_id o.meta in
      if not (import_id == "") then import_existing o import_id else sync_record orc o

  unfoldable pub reconcile_live : Cr S CatalogStatus → M State Outcome
  reconcile_live o = do
    (added, o) ← ensure_finalizer env o
    elim added [
      | err e ↦ pure (no_requeue, some e)
      | ok true ↦ pure (requeue_now, none)
      | ok false ↦ do
        (deps, o) ←
            resolve_org_dependencies env (k.organization_ref o.spec) o
              (conditions_of catalog_fields) o.meta.generation
        elim deps [
          | not_ready result ↦ pure (result, none)
          | resolved orc ↦ reconcile_resolved orc o
        ]
    ]

  unfoldable pub reconcile : NamespacedName → M State Outcome
  reconcile name = do
    got ← fetch_own env name
    elim got [
      | err e ↦ pure (no_requeue, ignore_not_found e)
      | ok o ↦ if is_deleted o.meta then delete_record o else reconcile_live o
    ]
