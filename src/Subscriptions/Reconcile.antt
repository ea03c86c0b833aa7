-- ===== src/Subscriptions/Reconcile.antt =====
-- Reconcile of subscription_controller.go.
use invora_controller.Prelude.{String, true, false, Option, none, some, ◌==◌, not, if◌then◌else◌}
use invora_controller.Go.{
  Error, wrap, ignore_not_found, ok, err, M, ◌>>=◌, pure, ℤ, seconds, Outcome, no_requeue,
  requeue_now, requeue_after,
}
use invora_controller.Api.{
  NamespacedName, is_deleted, condition_false, condition_synced, condition_dependency_ready,
}
use invora_controller.Cluster.{Env, fetch_own, write, write_status}
use invora_controller.Base.{
  OrgContext, dependency_requeue_interval, is_grpc_not_found, get_import_id, clear_import_id,
  success_result,
}
use invora_controller.Resource.{
  StatusFields, conditions_of, resolved, not_ready, ensure_finalizer, set_object_condition,
  set_success_status, resolve_org_dependencies, handle_grpc_deletion,
}
use invora_controller.Catalog.{GetKey, by_id, by_external_id, call}
use invora_controller.Convert.{billing_time, str_ptr}
use invora_controller.Subscriptions.{
  Subscription, SubscriptionStatus, SubscriptionRpc, SubscriptionCreateRequest, SubscriptionService,
  Readers, State, resolve_customer_external_id, resolve_plan_id,
}
use invora_controller.Subscriptions.Features.{resolve_billing_customer_id, reconcile_entitlements}

abbrev pub subscription_fields : StatusFields SubscriptionStatus
subscription_fields = record { base = λ t. t.base; store = λ b t. record t { base = b } }

abbrev pub set_subscription_id : String → Subscription → Subscription
set_subscription_id id sub = record sub {
  status = record (sub.status) { external_id = id; base = record (sub.status.base) { id = id } };
}

abbrev pub forget_subscription_id : Subscription → Subscription
forget_subscription_id sub = record sub { status = record (sub.status) { external_id = "" } }

abbrev pub set_subscription_status : String → Subscription → Subscription
set_subscription_status s sub = record sub {
  status = record (sub.status) { subscription_status = s };
}

abbrev pub set_resolved : String → String → Subscription → Subscription
set_resolved customer plan_code sub = record sub {
  status = record (sub.status) {
    resolved_customer_external_id = customer;
    resolved_plan_code = plan_code;
  };
}

-- What a subscription is created for: the ids of the customer and of the plan.
pub record Target : Type 0 where
  pub customer_id : String
  pub plan_id : String

unfoldable pub subscription_create_request : Target → Subscription → SubscriptionCreateRequest
unfolding billing_time str_ptr
subscription_create_request t sub = record {
  customer_id = t.customer_id;
  plan_id = t.plan_id;
  billing_time = billing_time sub.spec.billing_time;
  external_id = str_ptr sub.spec.external_id;
  name = str_ptr sub.spec.name;
}

-- The selector of the Get request.
unfoldable pub subscription_key : Subscription → GetKey
subscription_key sub =
    if not (sub.spec.external_id == "")
    then by_external_id sub.spec.external_id
    else by_id sub.status.external_id

module _ (readers : Readers) (svc : SubscriptionService)
    (env : Env Subscription SubscriptionRpc) where
  -- A condition is set to False and written, its error passed over.
  unfoldable pub fail_subscription : Subscription → String → String → String → ℤ → M State Outcome
  unfolding set_object_condition
  fail_subscription sub type_name reason message delay = do
    sub ←
        set_object_condition env (conditions_of subscription_fields) sub type_name condition_false
          reason message sub.meta.generation
    (_, sub) ← write_status env sub
    pure (requeue_after delay, none)

  unfoldable pub succeed_subscription :
      Subscription → String → M State (Option Error × Subscription)
  unfolding set_success_status
  succeed_subscription sub reason = do
    sub ← set_success_status env subscription_fields sub sub.meta.generation reason
    write_status env sub

  -- The entitlements of a subscription that was written, and its success status.
  unfoldable pub finish_update : OrgContext → Subscription → M State Outcome
  unfolding success_result
  finish_update orc sub = do
    (failed, sub) ← reconcile_entitlements svc orc sub
    elim failed [
      | some e ↦ fail_subscription sub condition_synced "EntitlementSyncFailed" e.text (seconds 30)
      | none ↦ do
        (_, sub) ← succeed_subscription sub "InSync"
        pure (success_result env sub.meta, none)
    ]

  unfoldable pub finish_create : OrgContext → Subscription → M State Outcome
  unfolding success_result
  finish_create orc sub = do
    (failed, sub) ← reconcile_entitlements svc orc sub
    elim failed [
      | some e ↦ fail_subscription sub condition_synced "EntitlementSyncFailed" e.text (seconds 30)
      | none ↦ do
        (failed, sub) ← succeed_subscription sub "Created"
        elim failed [
          | some e ↦ pure (no_requeue, some (wrap "updating status" e))
          | none ↦ pure (success_result env sub.meta, none)
        ]
    ]

  unfoldable pub update_existing_subscription : OrgContext → Subscription → M State Outcome
  update_existing_subscription orc sub = do
    let id = sub.status.external_id
    failed ←
        call orc (SubscriptionRpc.update_subscription id sub.spec.name)
          (svc.update id sub.spec.name)
    elim failed [
      | some e ↦ fail_subscription sub condition_synced "UpdateFailed" e.text (seconds 30)
      | none ↦ finish_update orc sub
    ]

  unfoldable pub create_new_subscription : OrgContext → Target → Subscription → M State Outcome
  create_new_subscription orc t sub = do
    let q = subscription_create_request t sub
    created ← call orc (SubscriptionRpc.create_subscription q) (svc.create q)
    elim created [
      | err e ↦ fail_subscription sub condition_synced "CreateFailed" e.text (seconds 30)
      | ok remote ↦
          finish_create orc
            (set_subscription_status remote.status (set_subscription_id remote.id sub))
    ]

  -- A subscription with an id is read first; one that the answer leaves out is created.
  unfoldable pub sync_subscription : OrgContext → Target → Subscription → M State Outcome
  sync_subscription orc t sub =
      if sub.status.external_id == "" then create_new_subscription orc t sub else (do
        let q = subscription_key sub
        got ← call orc (SubscriptionRpc.get_subscription q) (svc.get q)
        elim got [
          | err e ↦
              if is_grpc_not_found e
              then create_new_subscription orc t (forget_subscription_id sub)
              else fail_subscription sub condition_synced "GetFailed" e.text (seconds 10)
          | ok none ↦ create_new_subscription orc t sub
          | ok (some remote) ↦
              update_existing_subscription orc (set_subscription_status remote.status sub)
        ])

  unfoldable pub import_subscription : Subscription → String → M State Outcome
  unfolding success_result
  import_subscription sub import_id = do
    let sub : Subscription =
        set_subscription_id import_id (record sub { meta = clear_import_id sub.meta })
    (_, sub) ← write env sub
    (_, sub) ← succeed_subscription sub "Imported"
    pure (success_result env sub.meta, none)

  unfoldable pub sync_for_customer : OrgContext → String → String → Subscription → M State Outcome
  sync_for_customer orc customer_external_id plan_id sub = do
    found ← resolve_billing_customer_id svc orc customer_external_id
    elim found [
      | err e ↦
          fail_subscription sub condition_dependency_ready "CustomerResolveFailed" e.text
            dependency_requeue_interval
      | ok customer_id ↦
          sync_subscription orc (record { customer_id = customer_id; plan_id = plan_id }) sub
    ]

  unfoldable pub reconcile_resolved_subscription :
      OrgContext → String → String → Subscription → M State Outcome
  reconcile_resolved_subscription orc customer_external_id plan_id sub =
      let import_id = get_import_id sub.meta in
      if not (import_id == "")
      then import_subscription sub import_id
      else sync_for_customer orc customer_external_id plan_id sub

  -- The references, once the organization is resolved.
  unfoldable pub reconcile_references : OrgContext → Subscription → M State Outcome
  reconcile_references orc sub = do
    customer ← resolve_customer_external_id readers sub
    elim customer [
      | err e ↦
          fail_subscription sub condition_dependency_ready "CustomerNotReady" e.text
            dependency_requeue_interval
      | ok customer_external_id ↦ do
        plan ← resolve_plan_id readers sub
        elim plan [
          | err e ↦
              fail_subscription sub condition_dependency_ready "PlanNotReady" e.text
                dependency_requeue_interval
          | ok (plan_id, plan_code) ↦ do
            let sub : Subscription = set_resolved customer_external_id plan_code sub
            reconcile_resolved_subscription orc customer_external_id plan_id sub
        ]
    ]

  unfoldable pub delete_subscription : Subscription → M State Outcome
  delete_subscription sub =
      handle_grpc_deletion env sub sub.spec.organization_ref sub.spec.deletion_policy
        sub.status.external_id (conditions_of subscription_fields) sub.meta.generation
        λ orc.
          call orc (SubscriptionRpc.terminate_subscription sub.status.external_id)
            (svc.terminate sub.status.external_id)

  unfoldable pub reconcile_live_subscription : Subscription → M State Outcome
  reconcile_live_subscription sub = do
    (added, sub) ← ensure_finalizer env sub
    elim added [
      | err e ↦ pure (no_requeue, some e)
      | ok true ↦ pure (requeue_now, none)
      | ok false ↦ do
        (deps, sub) ←
            resolve_org_dependencies env sub.spec.organization_ref sub
              (conditions_of subscription_fields) sub.meta.generation
        elim deps [
          | not_ready result ↦ pure (result, none)
          | resolved orc ↦ reconcile_references orc sub
        ]
    ]

  unfoldable pub reconcile_subscription : NamespacedName → M State Outcome
  reconcile_subscription name = do
    got ← fetch_own env name
    elim got [
      | err e ↦ pure (no_requeue, ignore_not_found e)
      | ok sub ↦
          if is_deleted sub.meta then delete_subscription sub else reconcile_live_subscription sub
    ]
