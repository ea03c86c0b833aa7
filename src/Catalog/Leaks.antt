-- ===== src/Catalog/Leaks.antt =====
-- The connections that a reconcile of a catalog resource opens.
use invora_controller.Prelude.{◌+◌, inl, inr, String, ◌≡◌, refl, ◌∷◌, arith, Bool-cases}
use invora_controller.Go.{Result-cases}
use invora_controller.Api.{NamespacedName, Cr, CatalogStatus, finalizer_name}
use invora_controller.Cluster.{Call, Kind, Log, Env, open_conns}
use invora_controller.Base.{OrgContext, grpc_ctx}
use invora_controller.AdoptByCode.Walk.{scan_keeps}
use invora_controller.Resource.{
  conditions_of, resolve_org_dependencies, Dependencies-cases, ensure_finalizer, finish_deletion,
}
use invora_controller.Resource.Deletion.{handle_grpc_deletion_keeps}
use invora_controller.Catalog.{
  CatalogRpc, Service, Catalog, AdoptStrategy, never, by_list, by_scan, probe_page, find_existing,
  update_remote, catalog_fields, forget_external_id, get_record, delete_by_id, call,
}
use invora_controller.Catalog.Reconcile.{
  fail_synced, finish_sync, import_existing, create_record, adopt_or_create, sync_existing,
  sync_record, delete_record, reconcile_resolved, reconcile_live, reconcile,
}
use invora_controller.Resource.Connections.{opened, LeavesOpen-resolve_org_dependencies}

module _ {S C U : Type 0} (k : Catalog S C U) (svc : Service (Cr S CatalogStatus) C U)
    (env : Env (Cr S CatalogStatus) (CatalogRpc C U))
    (start : Log (Cr S CatalogStatus) (CatalogRpc C U)) where
  abbrev State : Type 0
  State = Log (Cr S CatalogStatus) (CatalogRpc C U)

  -- Since the start, as many connections are open more as were opened.
  abbrev AllOpen : State → Type 0
  AllOpen l = open_conns env l + opened env start ≡ open_conns env start + opened env l

  AllOpen-probe_page :
      (orc : OrgContext) (key cursor : String) (l : State)
      → AllOpen l
      → AllOpen (probe_page k svc orc key cursor l).1
  unfolding probe_page
  AllOpen-probe_page orc key cursor l h = ground arith

  AllOpen-find_existing :
      (s : AdoptStrategy) (orc : OrgContext) (key : String) (l : State)
      → AllOpen l
      → AllOpen (find_existing k svc s orc key l).1
  unfolding find_existing
  AllOpen-find_existing never orc key l h = h
  AllOpen-find_existing by_list orc key l h = ground arith
  AllOpen-find_existing by_scan orc key l h =
      ground
        (arith, scan_keeps key (probe_page k svc orc key) AllOpen (AllOpen-probe_page orc key) l h)

  AllOpen-adopt_or_create :
      (orc : OrgContext) (o : Cr S CatalogStatus) (l : State)
      → AllOpen l
      → AllOpen (adopt_or_create k svc env orc o l).1
  unfolding adopt_or_create fail_synced finish_sync create_record
  AllOpen-adopt_or_create orc o l h =
      ground (arith, AllOpen-find_existing k.strategy orc (k.key o.spec) l h)

  AllOpen-sync_existing :
      (orc : OrgContext) (o : Cr S CatalogStatus) (l : State)
      → AllOpen l
      → AllOpen (sync_existing k svc env orc o l).1
  unfolding sync_existing update_remote fail_synced finish_sync
  AllOpen-sync_existing orc o l h = ground arith

  AllOpen-sync_record :
      (orc : OrgContext) (o : Cr S CatalogStatus) (l : State)
      → AllOpen l
      → AllOpen (sync_record k svc env orc o l).1
  unfolding sync_record fail_synced
  AllOpen-sync_record orc o l h =
      let asked = Call.rpc orc.conn (grpc_ctx orc) (get_record (k.get_key o)) ∷ l in
      ground (
        arith,
        AllOpen-sync_existing orc o asked h,
        AllOpen-adopt_or_create orc o l h,
        AllOpen-adopt_or_create orc (forget_external_id o) asked h,
      )

  AllOpen-reconcile_resolved :
      (orc : OrgContext) (o : Cr S CatalogStatus) (l : State)
      → AllOpen l
      → AllOpen (reconcile_resolved k svc env orc o l).1
  unfolding reconcile_resolved import_existing finish_sync
  AllOpen-reconcile_resolved orc o l h = ground (arith, AllOpen-sync_record orc o l h)

  AllOpen-resolve_org_dependencies :
      (o : Cr S CatalogStatus) (l : State)
      → AllOpen l
      → AllOpen
          (resolve_org_dependencies env
            (k.organization_ref o.spec)
            o
            (conditions_of catalog_fields)
            o.meta.generation
            l).1
  AllOpen-resolve_org_dependencies o l h = omega (
    arith,
    LeavesOpen-resolve_org_dependencies env (k.organization_ref o.spec) o
        (conditions_of catalog_fields) o.meta.generation l,
    h,
  )

  AllOpen-finish_deletion :
      (o : Cr S CatalogStatus) (l : State) → AllOpen l → AllOpen (finish_deletion env o l).1
  unfolding finish_deletion
  AllOpen-finish_deletion o l h = ground arith

  AllOpen-delete_record :
      (o : Cr S CatalogStatus) (l : State) → AllOpen l → AllOpen (delete_record k svc env o l).1
  unfolding delete_record
  AllOpen-delete_record o l h =
      let resolving = AllOpen-resolve_org_dependencies o l h in
      handle_grpc_deletion_keeps env AllOpen AllOpen-finish_deletion o (k.organization_ref o.spec)
        (k.deletion_policy o.spec) o.status.external_id (conditions_of catalog_fields)
        o.meta.generation
        (λ orc. call orc (delete_by_id o.status.external_id) (svc.delete o.status.external_id)) l h
        resolving (λ orc p. resolving) (λ orc p cs. resolving)

  AllOpen-reconcile_live :
      (o : Cr S CatalogStatus) (l : State) → AllOpen l → AllOpen (reconcile_live k svc env o l).1
  unfolding reconcile_live ensure_finalizer
  AllOpen-reconcile_live o l h =
      let deps =
        resolve_org_dependencies env (k.organization_ref o.spec) o (conditions_of catalog_fields)
          o.meta.generation l in
      let resolving = AllOpen-resolve_org_dependencies o l h in
      elim (Bool-cases (env.platform.contains_finalizer o.meta finalizer_name)) [
        | inr fresh ↦ ground (arith, fresh, h)
        | inl carried ↦ elim (Dependencies-cases deps.0.0) [
          | inl (result, p) ↦ ground (arith, carried, p, resolving)
          | inr (orc, p) ↦
              let kept : AllOpen (reconcile_resolved k svc env orc deps.0.1 deps.1).1 =
                AllOpen-reconcile_resolved orc deps.0.1 deps.1 resolving in
              rw carried (ground (arith, p, kept))
        ]
      ]

  AllOpen-reconcile :
      (name : NamespacedName) (l : State) → AllOpen l → AllOpen (reconcile k svc env name l).1
  unfolding reconcile
  AllOpen-reconcile name l h = elim (Result-cases (env.get_own l name)) [
    | inl (e, p) ↦ rw p h
    | inr (o, p) ↦ ground (
      arith,
      p,
      AllOpen-reconcile_live o (Call.get Kind.own_kind name ∷ l) h,
      AllOpen-delete_record o (Call.get Kind.own_kind name ∷ l) h,
    )
  ]

module _ {S C U : Type 0} (k : Catalog S C U) (svc : Service (Cr S CatalogStatus) C U)
    (env : Env (Cr S CatalogStatus) (CatalogRpc C U)) where
  -- A reconcile of a catalog resource leaves open every connection that it opens: the number of open
  -- connections grows by the number of those that grpc.NewClient answers in it.
  pub open_conns-reconcile :
      (name : NamespacedName) (l : Log (Cr S CatalogStatus) (CatalogRpc C U))
      → open_conns env (reconcile k svc env name l).1 + opened env l
        ≡ open_conns env l + opened env (reconcile k svc env name l).1
  open_conns-reconcile name l = AllOpen-reconcile k svc env l name l refl
