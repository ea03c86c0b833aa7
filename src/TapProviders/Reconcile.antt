-- ===== src/TapProviders/Reconcile.antt =====
-- Reconcile and cleanupPlatformTwin of tapprovider_controller.go.
use invora_controller.Prelude.{
  String, true, false, none, some, ◌==◌, ◌||◌, not, if◌then◌else◌, id_or_empty,
}
use invora_controller.Go.{
  wrap, ignore_not_found, ok, err, M, ◌>>=◌, pure, ℤ, seconds, Outcome, no_requeue, requeue_now,
  requeue_after,
}
use invora_controller.Api.{
  NamespacedName, is_deleted, condition_false, condition_synced, condition_dependency_ready,
}
use invora_controller.Cluster.{Env, fetch_own, write, write_status}
use invora_controller.Gateway.{resolve_secret_value}
use invora_controller.Base.{
  OrgContext, dependency_requeue_interval, is_grpc_not_found, get_import_id, clear_import_id,
  or_namespace, success_result,
}
use invora_controller.Resource.{
  conditions_of, resolved, not_ready, ensure_finalizer, finish_deletion, set_object_condition,
  set_success_status, resolve_org_dependencies,
}
use invora_controller.Catalog.{call}
use invora_controller.TapProviders.{
  TapProvider, TapRpc, State, TapService, tap_fields, set_provider, home_call, choose_provider,
  update_tap_request, create_tap_request,
}

module _ (svc : TapService) (env : Env TapProvider TapRpc) where
  -- The delete of a twin, whose error is only logged.
  unfoldable pub delete_twin : OrgContext → String → String → M State (Unit {0})
  delete_twin orc acting_provider_id twin_id =
      if twin_id == "" || twin_id == acting_provider_id
      then pure tt
      else (do _ ← home_call orc (TapRpc.delete_provider twin_id) (svc.delete twin_id); pure tt)

  unfoldable pub cleanup_platform_twin : OrgContext → String → String → M State (Unit {0})
  cleanup_platform_twin orc code acting_provider_id =
      if orc.org_id == "" || acting_provider_id == "" then pure tt else (do
        got ← home_call orc (TapRpc.get_provider code) (svc.get code)
        elim got [
          | err _ ↦ pure tt
          | ok none ↦ pure tt
          | ok (some twin_id) ↦ delete_twin orc acting_provider_id twin_id
        ])

  unfoldable pub fail_tap : TapProvider → String → String → String → ℤ → M State Outcome
  unfolding set_object_condition
  fail_tap tap type_name reason message delay = do
    tap ←
        set_object_condition env (conditions_of tap_fields) tap type_name condition_false reason
          message tap.meta.generation
    (_, tap) ← write_status env tap
    pure (requeue_after delay, none)

  -- The status write, and the clean-up that follows it.
  unfoldable pub store_and_clean : OrgContext → String → TapProvider → M State Outcome
  unfolding success_result
  store_and_clean orc code tap = do
    (failed, tap) ← write_status env tap
    elim failed [
      | some e ↦ pure (no_requeue, some (wrap "updating status" e))
      | none ↦ do
        _ ← cleanup_platform_twin orc code tap.status.provider_id
        pure (success_result env tap.meta, none)
    ]

  unfoldable pub finish_tap : OrgContext → TapProvider → String → M State Outcome
  unfolding set_success_status
  finish_tap orc tap reason = do
    let code = tap.spec.code
    tap ← set_success_status env tap_fields tap tap.meta.generation reason
    store_and_clean orc code tap

  unfoldable pub update_provider : OrgContext → String → TapProvider → M State Outcome
  update_provider orc id tap = do
    let q = update_tap_request id tap
    updated ← call orc (TapRpc.update_tap q) (svc.update q)
    elim updated [
      | err e ↦ fail_tap tap condition_synced "UpdateFailed" e.text (seconds 30)
      | ok w ↦ finish_tap orc (set_provider w tap) "InSync"
    ]

  unfoldable pub create_provider : OrgContext → String → TapProvider → M State Outcome
  create_provider orc api_key tap = do
    let q = create_tap_request api_key tap
    created ← call orc (TapRpc.create_tap q) (svc.create q)
    elim created [
      | err e ↦ fail_tap tap condition_synced "CreateFailed" e.text (seconds 30)
      | ok w ↦ finish_tap orc (set_provider w tap) "Created"
    ]

  -- The write to the acting organization, from the id that the code finds in it.
  unfoldable pub write_provider : OrgContext → String → String → TapProvider → M State Outcome
  write_provider orc api_key found tap =
      let id = choose_provider found tap.status.provider_id in
      if not (id == "") then update_provider orc id tap else create_provider orc api_key tap

  unfoldable pub sync_provider : OrgContext → String → TapProvider → M State Outcome
  sync_provider orc api_key tap = do
    got ← call orc (TapRpc.get_provider tap.spec.code) (svc.get tap.spec.code)
    elim got [
      | ok found ↦ write_provider orc api_key (id_or_empty found) tap
      | err e ↦
          if is_grpc_not_found e
          then write_provider orc api_key "" tap
          else fail_tap tap condition_synced "LookupFailed" e.text (seconds 30)
    ]

  unfoldable pub import_provider : TapProvider → String → M State Outcome
  unfolding set_success_status success_result
  import_provider tap import_id = do
    let tap : TapProvider =
        set_provider (record { id = import_id; code = tap.spec.code })
          (record tap { meta = clear_import_id tap.meta })
    (_, tap) ← write env tap
    tap ← set_success_status env tap_fields tap tap.meta.generation "Imported"
    (_, tap) ← write_status env tap
    pure (success_result env tap.meta, none)

  unfoldable pub import_or_sync : OrgContext → String → TapProvider → M State Outcome
  import_or_sync orc api_key tap =
      let import_id = get_import_id tap.meta in
      if not (import_id == "") then import_provider tap import_id else sync_provider orc api_key tap

  unfoldable pub reconcile_with_key : OrgContext → TapProvider → M State Outcome
  reconcile_with_key orc tap = do
    let ref = tap.spec.tap_api_key_ref
    key ←
        resolve_secret_value env ref.name (or_namespace ref.namespace tap.meta.namespace) ref.key
          tap.meta.namespace
    elim key [
      | err e ↦
          fail_tap tap condition_dependency_ready "TapApiKeyResolveFailed" e.text
            dependency_requeue_interval
      | ok api_key ↦ import_or_sync orc api_key tap
    ]

  unfoldable pub reconcile_live_tap : TapProvider → M State Outcome
  reconcile_live_tap tap = do
    (added, tap) ← ensure_finalizer env tap
    elim added [
      | err e ↦ pure (no_requeue, some e)
      | ok true ↦ pure (requeue_now, none)
      | ok false ↦ do
        (deps, tap) ←
            resolve_org_dependencies env tap.spec.organization_ref tap (conditions_of tap_fields)
              tap.meta.generation
        elim deps [
          | not_ready result ↦ pure (result, none)
          | resolved orc ↦ reconcile_with_key orc tap
        ]
    ]

  unfoldable pub reconcile_tap : NamespacedName → M State Outcome
  reconcile_tap name = do
    got ← fetch_own env name
    elim got [
      | err e ↦ pure (no_requeue, ignore_not_found e)
      | ok tap ↦ if is_deleted tap.meta then finish_deletion env tap else reconcile_live_tap tap
    ]
