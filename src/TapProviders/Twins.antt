-- ===== src/TapProviders/Twins.antt =====
-- The Delete calls of tapprovider_controller.go, which clean up a twin in the home organization.
use invora_controller.Prelude.{
  inl, inr, String, ◌≡◌, refl, ◌⊎◌, arith, Bool-cases, ◌==◌, id_or_empty, ◌∷◌,
}
use invora_controller.Go.{Result-cases, ok, seconds}
use invora_controller.Api.{
  NamespacedName, condition_synced, condition_dependency_ready, is_deleted, finalizer_name,
  Organization,
}
use invora_controller.Cluster.{Call, Kind, Env, rpcs}
use invora_controller.Base.{
  OrgContext, grpc_ctx, dependency_requeue_interval, or_namespace, get_import_id, is_grpc_not_found,
}
use invora_controller.Resource.Quiet.{
  rpcs-resolve_secret_value, rpcs-resolve_org_dependencies, rpcs-finish_deletion,
}
use invora_controller.Resource.{
  Dependencies, resolved, Dependencies-cases, conditions_of, ensure_finalizer,
  resolve_org_dependencies,
}
use invora_controller.Tenant.{org_acting_id}
use invora_controller.Catalog.Tenancy.{Refers, resolve_org_dependencies-Refers}
use invora_controller.Gateway.{resolve_secret_value}
use invora_controller.TapProviders.{
  TapProvider, TapRpc, TapService, State, tap_fields, set_provider, choose_provider,
  update_tap_request, create_tap_request,
}
use invora_controller.TapProviders.Reconcile.{
  fail_tap, finish_tap, update_provider, create_provider, write_provider, sync_provider,
  import_provider, import_or_sync, reconcile_with_key, reconcile_live_tap, reconcile_tap,
}
use invora_controller.TapProviders.Cleanup.{
  deletes, DeletesTwin, Kept, Kept-from, deletes-fail_tap, deletes-finish_tap,
}

module _ (svc : TapService) (env : Env TapProvider TapRpc) where
  deletes-update_provider :
      (orc : OrgContext) (id : String) (tap : TapProvider) (l : State)
      → Kept svc env orc l (update_provider svc env orc id tap l).1
  unfolding update_provider
  deletes-update_provider orc id tap l =
      let q = update_tap_request id tap in
      let l' : State = Call.rpc orc.conn (grpc_ctx orc) (TapRpc.update_tap q) ∷ l in
      elim (Result-cases (svc.update q l')) [
        | inl (e, failed) ↦ inl (
            rw failed
              (deletes-fail_tap svc env tap condition_synced "UpdateFailed" e.text (seconds 30) l'))
        | inr (w, done_) ↦
            let same : (update_provider svc env orc id tap l).1
                ≡ (finish_tap svc env orc (set_provider w tap) "InSync" l').1 =
              rw done_ refl in
            rw same (deletes-finish_tap svc env orc (set_provider w tap) "InSync" l')
      ]

  deletes-create_provider :
      (orc : OrgContext) (api_key : String) (tap : TapProvider) (l : State)
      → Kept svc env orc l (create_provider svc env orc api_key tap l).1
  unfolding create_provider
  deletes-create_provider orc api_key tap l =
      let q = create_tap_request api_key tap in
      let l' : State = Call.rpc orc.conn (grpc_ctx orc) (TapRpc.create_tap q) ∷ l in
      elim (Result-cases (svc.create q l')) [
        | inl (e, failed) ↦ inl (
            rw failed
              (deletes-fail_tap svc env tap condition_synced "CreateFailed" e.text (seconds 30) l'))
        | inr (w, done_) ↦
            let same : (create_provider svc env orc api_key tap l).1
                ≡ (finish_tap svc env orc (set_provider w tap) "Created" l').1 =
              rw done_ refl in
            rw same (deletes-finish_tap svc env orc (set_provider w tap) "Created" l')
      ]

  deletes-write_provider :
      (orc : OrgContext) (api_key found : String) (tap : TapProvider) (l : State)
      → Kept svc env orc l (write_provider svc env orc api_key found tap l).1
  unfolding write_provider
  deletes-write_provider orc api_key found tap l =
      let id = choose_provider found tap.status.provider_id in
      elim (Bool-cases (id == "")) [
        | inl missing ↦ rw missing (deletes-create_provider orc api_key tap l)
        | inr known ↦ rw known (deletes-update_provider orc id tap l)
      ]

  deletes-sync_provider :
      (orc : OrgContext) (api_key : String) (tap : TapProvider) (l : State)
      → Kept svc env orc l (sync_provider svc env orc api_key tap l).1
  unfolding sync_provider
  deletes-sync_provider orc api_key tap l =
      let code = tap.spec.code in
      let l' : State = Call.rpc orc.conn (grpc_ctx orc) (TapRpc.get_provider code) ∷ l in
      elim (Result-cases (svc.get code l')) [
        | inr (found, answered) ↦
            rw answered (deletes-write_provider orc api_key (id_or_empty found) tap l')
        | inl (e, failed) ↦ elim (Bool-cases (is_grpc_not_found e)) [
          | inl missing ↦ rw (failed, missing) (deletes-write_provider orc api_key "" tap l')
          | inr other ↦ inl (
              rw (failed, other)
                (deletes-fail_tap svc env tap condition_synced "LookupFailed" e.text (seconds 30)
                  l'))
        ]
      ]

  deletes-import_or_sync :
      (orc : OrgContext) (api_key : String) (tap : TapProvider) (l : State)
      → Kept svc env orc l (import_or_sync svc env orc api_key tap l).1
  unfolding import_or_sync import_provider
  deletes-import_or_sync orc api_key tap l = elim (Bool-cases (get_import_id tap.meta == "")) [
    | inl absent ↦ rw absent (deletes-sync_provider orc api_key tap l)
    | inr named ↦ inl (rw named refl)
  ]

  deletes-reconcile_with_key :
      (orc : OrgContext) (tap : TapProvider) (l : State)
      → Kept svc env orc l (reconcile_with_key svc env orc tap l).1
  unfolding reconcile_with_key
  deletes-reconcile_with_key orc tap l =
      let ref = tap.spec.tap_api_key_ref in
      let key =
        resolve_secret_value env ref.name (or_namespace ref.namespace tap.meta.namespace) ref.key
          tap.meta.namespace l in
      let quiet : rpcs key.1 ≡ rpcs l =
        rpcs-resolve_secret_value env ref.name (or_namespace ref.namespace tap.meta.namespace)
          ref.key tap.meta.namespace l in
      elim (Result-cases key.0) [
        | inl (e, failed) ↦
            let same : (reconcile_with_key svc env orc tap l).1
                ≡ (fail_tap svc env tap condition_dependency_ready "TapApiKeyResolveFailed" e.text
                    dependency_requeue_interval key.1).1 =
              ground (arith, failed) in
            inl (
              rw
                (
                  same,
                  deletes-fail_tap svc env tap condition_dependency_ready "TapApiKeyResolveFailed"
                      e.text dependency_requeue_interval key.1,
                  quiet,
                )
                refl)
        | inr (api_key, read) ↦
            let same : (reconcile_with_key svc env orc tap l).1
                ≡ (import_or_sync svc env orc api_key tap key.1).1 =
              ground (arith, read) in
            Kept-from svc env orc l key.1 (reconcile_with_key svc env orc tap l).1 quiet
              (rw same (deletes-import_or_sync orc api_key tap key.1))
      ]

  abbrev pub resolution : TapProvider → State → (Dependencies × TapProvider) × State
  resolution tap l =
      resolve_org_dependencies env tap.spec.organization_ref tap (conditions_of tap_fields)
        tap.meta.generation l

  -- No Delete is called, or one for the organization that a Tap provider's reference resolves to: it
  -- is an organization that the API server has answered, ready, for the reference.
  abbrev KeptFor : TapProvider → State → State → State → Type 0
  KeptFor tap at before l =
      (deletes l ≡ deletes before)
      ⊎ ((orc : OrgContext) × (org : Organization) × ((resolution tap at).0.0 ≡ resolved orc)
          × Refers env tap.spec.organization_ref tap.meta.namespace org
          × (orc.org_id ≡ org_acting_id org)
          × DeletesTwin svc env orc before l)

  KeptFor-resolved :
      (tap : TapProvider) (at l r : State) (orc : OrgContext)
      → (resolution tap at).0.0 ≡ resolved orc
      → Kept svc env orc l r
      → KeptFor tap at l r
  KeptFor-resolved tap at l r orc p (inl kept) = inl kept
  KeptFor-resolved tap at l r orc p (inr twin) =
      let (org, refers, acts) =
        resolve_org_dependencies-Refers env tap.spec.organization_ref tap (conditions_of tap_fields)
          tap.meta.generation at orc p in
      inr (orc, org, p, refers, acts, twin)

  deletes-reconcile_live_tap :
      (tap : TapProvider) (l : State) → KeptFor tap l l (reconcile_live_tap svc env tap l).1
  unfolding reconcile_live_tap ensure_finalizer
  deletes-reconcile_live_tap tap l =
      let deps = resolution tap l in
      let quiet : rpcs deps.1 ≡ rpcs l =
        rpcs-resolve_org_dependencies env tap.spec.organization_ref tap (conditions_of tap_fields)
          tap.meta.generation l in
      elim (Bool-cases (env.platform.contains_finalizer tap.meta finalizer_name)) [
        | inr fresh ↦ inl (ground (arith, fresh))
        | inl there ↦ elim (Dependencies-cases deps.0.0) [
          | inl (result, p) ↦
              let same : (reconcile_live_tap svc env tap l).1 ≡ deps.1 = ground (arith, there, p) in
              inl (rw (same, quiet) refl)
          | inr (orc, p) ↦
              let same : (reconcile_live_tap svc env tap l).1
                  ≡ (reconcile_with_key svc env orc deps.0.1 deps.1).1 =
                ground (arith, there, p) in
              KeptFor-resolved tap l l (reconcile_live_tap svc env tap l).1 orc p (
                Kept-from svc env orc l deps.1 (reconcile_live_tap svc env tap l).1 quiet
                  (rw same (deletes-reconcile_with_key orc deps.0.1 deps.1)))
        ]
      ]

  -- A reconcile of a Tap provider either calls no Delete, or it calls one last Delete: for the
  -- organization that the reference of the provider that was read resolves to, which is a tenant,
  -- through its connection and with the metadata of the home organization, of an id that is neither
  -- empty nor the nonempty provider id in a status that the API server has stored.
  pub deletes-reconcile_tap :
      (name : NamespacedName) (l : State)
      → (deletes (reconcile_tap svc env name l).1 ≡ deletes l)
        ⊎ ((tap : TapProvider) × (orc : OrgContext) × (org : Organization) × (env.get_own l name
              ≡ ok tap)
            × ((resolution tap (Call.get Kind.own_kind name ∷ l)).0.0 ≡ resolved orc)
            × Refers env tap.spec.organization_ref tap.meta.namespace org
            × (orc.org_id ≡ org_acting_id org)
            × DeletesTwin svc env orc l (reconcile_tap svc env name l).1)
  unfolding reconcile_tap
  deletes-reconcile_tap name l =
      let l' : State = Call.get Kind.own_kind name ∷ l in
      elim (Result-cases (env.get_own l name)) [
        | inl (e, failed) ↦ inl (rw failed refl)
        | inr (tap, got) ↦ elim (Bool-cases (is_deleted tap.meta)) [
          | inl deleted ↦ inl (rw (got, deleted, rpcs-finish_deletion env tap l') refl)
          | inr live ↦
              rw (got, live)
                (elim (deletes-reconcile_live_tap tap l') [
                  | inl kept ↦ inl kept
                  | inr (orc, org, p, refers, acts, twin) ↦
                      inr (tap, orc, org, refl, p, refers, acts, twin)
                ])
        ]
      ]
