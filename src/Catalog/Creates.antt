-- ===== src/Catalog/Creates.antt =====
-- How often a reconcile of a catalog resource calls Create.
use invora_controller.Prelude.{
  ℕ, suc, inl, inr, ◌≤◌, String, ◌≡◌, refl, ◌∙◌, Bool, true, false, Option, ◌∷◌, arith, count_if,
}
use invora_controller.Go.{ℤ, Result-cases}
use invora_controller.Api.{NamespacedName, Cr, CatalogStatus}
use invora_controller.Cluster.{Conn, Kind, Headers, Call, Log, Env, rpcs}
use invora_controller.Base.{OrgContext, grpc_ctx}
use invora_controller.AdoptByCode.Walk.{scan_keeps}
use invora_controller.Base.{is_grpc_not_found, get_import_id}
use invora_controller.Resource.{
  conditions_of, set_object_condition, handle_grpc_deletion, finish_deletion, ensure_finalizer,
}
use invora_controller.Resource.Quiet.{rpcs-resolve_org_dependencies, rpcs-ensure_finalizer}
use invora_controller.Catalog.{
  CatalogRpc, Service, Catalog, StatusCheck, AdoptStrategy, never, by_list, by_scan, probe_page,
  find_existing, forget_external_id, get_record, catalog_fields,
}
use invora_controller.Catalog.Reconcile.{
  fail_synced, finish_sync, import_existing, create_record, adopt_or_create, sync_existing,
  sync_record, delete_record, reconcile_resolved, reconcile_live, reconcile,
}

-- Whether an RPC call asks the gateway to create a record.
abbrev pub is_create : {C U : Type 0} → Option Conn × Headers × CatalogRpc C U → Bool
is_create (_, _, CatalogRpc.create _) = true
is_create _ = false

abbrev pub creates : {O C U : Type 0} → Log O (CatalogRpc C U) → ℕ
creates l = count_if is_create (rpcs l)

module _ {S C U : Type 0} (k : Catalog S C U) (svc : Service (Cr S CatalogStatus) C U)
    (env : Env (Cr S CatalogStatus) (CatalogRpc C U)) where
  creates-fail_synced :
      (o : Cr S CatalogStatus) (reason message : String) (d : ℤ)
      (l : Log (Cr S CatalogStatus) (CatalogRpc C U))
      → creates (fail_synced k svc env o reason message d l).1 ≡ creates l
  unfolding fail_synced
  creates-fail_synced o reason message d l = ground arith

  creates-finish_sync :
      (check : StatusCheck) (o : Cr S CatalogStatus) (reason : String)
      (l : Log (Cr S CatalogStatus) (CatalogRpc C U))
      → creates (finish_sync k svc env check o reason l).1 ≡ creates l
  unfolding finish_sync
  creates-finish_sync check o reason l = ground arith

  creates-create_record :
      (orc : OrgContext) (o : Cr S CatalogStatus) (l : Log (Cr S CatalogStatus) (CatalogRpc C U))
      → creates (create_record k svc env orc o l).1 ≡ suc (creates l)
  unfolding create_record
  creates-create_record orc o l = ground arith

  creates-probe_page :
      (orc : OrgContext) (key cursor : String) (l : Log (Cr S CatalogStatus) (CatalogRpc C U))
      → creates (probe_page k svc orc key cursor l).1 ≡ creates l
  unfolding probe_page
  creates-probe_page orc key cursor l = ground arith

  pub creates-find_existing :
      (s : AdoptStrategy) (orc : OrgContext) (key : String)
      (l : Log (Cr S CatalogStatus) (CatalogRpc C U))
      → creates (find_existing k svc s orc key l).1 ≡ creates l
  unfolding find_existing
  creates-find_existing never orc key l = refl
  creates-find_existing by_list orc key l = ground arith
  creates-find_existing by_scan orc key l = ground (
    arith,
    scan_keeps key (probe_page k svc orc key) (λ l'. creates l' ≡ creates l)
        (λ c l' e. creates-probe_page orc key c l' ∙ e) l refl,
  )

  pub creates-adopt_or_create :
      (orc : OrgContext) (o : Cr S CatalogStatus) (l : Log (Cr S CatalogStatus) (CatalogRpc C U))
      → creates (adopt_or_create k svc env orc o l).1 ≤ suc (creates l)
  unfolding adopt_or_create fail_synced finish_sync create_record
  creates-adopt_or_create orc o l =
      ground (arith, creates-find_existing k.strategy orc (k.key o.spec) l)

  creates-sync_existing :
      (orc : OrgContext) (o : Cr S CatalogStatus) (l : Log (Cr S CatalogStatus) (CatalogRpc C U))
      → creates (sync_existing k svc env orc o l).1 ≤ suc (creates l)
  unfolding sync_existing fail_synced finish_sync
  creates-sync_existing orc o l = ground arith

  creates-sync_record :
      (orc : OrgContext) (o : Cr S CatalogStatus) (l : Log (Cr S CatalogStatus) (CatalogRpc C U))
      → creates (sync_record k svc env orc o l).1 ≤ suc (creates l)
  unfolding sync_record fail_synced
  creates-sync_record orc o l = ground (
    arith,
    creates-sync_existing orc o (Call.rpc orc.conn (grpc_ctx orc) (get_record (k.get_key o)) ∷ l),
    creates-adopt_or_create orc o l,
    creates-adopt_or_create orc (forget_external_id o)
        (Call.rpc orc.conn (grpc_ctx orc) (get_record (k.get_key o)) ∷ l),
  )

  pub creates-import_existing :
      (o : Cr S CatalogStatus) (id : String) (l : Log (Cr S CatalogStatus) (CatalogRpc C U))
      → creates (import_existing k svc env o id l).1 ≡ creates l
  unfolding import_existing
  creates-import_existing o id l = ground arith

  pub creates-delete_record :
      (o : Cr S CatalogStatus) (l : Log (Cr S CatalogStatus) (CatalogRpc C U))
      → creates (delete_record k svc env o l).1 ≡ creates l
  unfolding delete_record set_object_condition is_grpc_not_found handle_grpc_deletion
      finish_deletion
  creates-delete_record o l = ground (
    arith,
    rpcs-resolve_org_dependencies env (k.organization_ref o.spec) o (conditions_of catalog_fields)
        o.meta.generation l,
  )

  creates-reconcile_resolved :
      (orc : OrgContext) (o : Cr S CatalogStatus) (l : Log (Cr S CatalogStatus) (CatalogRpc C U))
      → creates (reconcile_resolved k svc env orc o l).1 ≤ suc (creates l)
  unfolding reconcile_resolved
  creates-reconcile_resolved orc o l =
      ground
        (arith, creates-import_existing o (get_import_id o.meta) l, creates-sync_record orc o l)

  creates-reconcile_live :
      (o : Cr S CatalogStatus) (l : Log (Cr S CatalogStatus) (CatalogRpc C U))
      → creates (reconcile_live k svc env o l).1 ≤ suc (creates l)
  unfolding reconcile_live
  creates-reconcile_live o l =
      let added = ensure_finalizer env o l in
      let o' = added.0.1 in
      grind (
        arith,
        rpcs-ensure_finalizer env o l,
        rpcs-resolve_org_dependencies env (k.organization_ref o'.spec) o'
            (conditions_of catalog_fields) o'.meta.generation added.1,
        creates-reconcile_resolved,
      )

  -- One reconcile calls Create at most once, whatever the API server and the gateway answer.
  pub creates-reconcile :
      (name : NamespacedName) (l : Log (Cr S CatalogStatus) (CatalogRpc C U))
      → creates (reconcile k svc env name l).1 ≤ suc (creates l)
  unfolding reconcile
  creates-reconcile name l = elim (Result-cases (env.get_own l name)) [
    | inl (e, p) ↦ rw p (ground arith)
    | inr (o, p) ↦ ground (
      arith,
      creates-reconcile_live o (Call.get Kind.own_kind name ∷ l),
      creates-delete_record o (Call.get Kind.own_kind name ∷ l),
    )
  ]
