-- ===== src/Subscriptions/Missing.antt =====
-- For which subscriptions a reconcile of subscription_controller.go calls Create.
use invora_controller.Prelude.{
  inl, inr, String, ◌≡◌, refl, ap, ◌∙◌, ◌⊎◌, arith, Bool-cases, ◌==◌, ◌∷◌,
}
use invora_controller.Go.{Result-cases, ok}
use invora_controller.Api.{NamespacedName, condition_dependency_ready, is_deleted, finalizer_name}
use invora_controller.Cluster.{Call, Kind, Env}
use invora_controller.Base.{OrgContext, get_import_id, dependency_requeue_interval}
use invora_controller.Resource.{
  Dependencies, resolved, Dependencies-cases, conditions_of, ensure_finalizer, finish_deletion,
  resolve_org_dependencies, handle_grpc_deletion, set_object_condition,
}
use invora_controller.Resource.Quiet.{rpcs-resolve_org_dependencies}
use invora_controller.Subscriptions.{
  Subscription, SubscriptionRpc, SubscriptionService, Readers, State, resolve_customer_external_id,
  resolve_plan_id,
}
use invora_controller.Subscriptions.Features.{resolve_billing_customer_id}
use invora_controller.Subscriptions.Creates.{
  IsMissing, CreatesMissing-same, created, created_of, CreatesMissing, created-fail_subscription,
  sync_subscription-CreatesMissing,
}
use invora_controller.Subscriptions.Reconcile.{
  Target, subscription_key, subscription_create_request, subscription_fields, set_resolved,
  fail_subscription, succeed_subscription, sync_subscription, import_subscription,
  sync_for_customer, reconcile_resolved_subscription, reconcile_references, delete_subscription,
  reconcile_live_subscription, reconcile_subscription,
}

module _ (readers : Readers) (svc : SubscriptionService)
    (env : Env Subscription SubscriptionRpc) where
  created-from :
      (sub : Subscription) (l m r : State)
      → created m ≡ created l
      → CreatesMissing readers svc env sub m r
      → CreatesMissing readers svc env sub l r
  created-from sub l m r same (inl kept) = inl (kept ∙ same)
  created-from sub l m r same (inr (t, missing, one)) =
      inr (t, missing, one ∙ ap (λ qs. subscription_create_request t sub ∷ qs) same)

  failing :
      (sub : Subscription) (reason message : String) (l m r : State)
      → created m ≡ created l
      → r
        ≡ (fail_subscription readers svc env sub condition_dependency_ready reason message
            dependency_requeue_interval m).1
      → CreatesMissing readers svc env sub l r
  failing sub reason message l m r kept same = inl (
      rw
        (
          same,
          created-fail_subscription readers svc env sub condition_dependency_ready reason message
              dependency_requeue_interval m,
        )
        kept)

  created-resolve_billing_customer_id :
      (orc : OrgContext) (id : String) (l : State)
      → created (resolve_billing_customer_id svc orc id l).1 ≡ created l
  unfolding resolve_billing_customer_id
  created-resolve_billing_customer_id orc id l = ground arith

  created-resolve_customer :
      (sub : Subscription) (l : State)
      → created (resolve_customer_external_id readers sub l).1 ≡ created l
  unfolding resolve_customer_external_id
  created-resolve_customer sub l = ground arith

  created-resolve_plan_id :
      (sub : Subscription) (l : State) → created (resolve_plan_id readers sub l).1 ≡ created l
  unfolding resolve_plan_id
  created-resolve_plan_id sub l = ground arith

  created-import_subscription :
      (sub : Subscription) (import_id : String) (l : State)
      → created (import_subscription readers svc env sub import_id l).1 ≡ created l
  unfolding import_subscription succeed_subscription
  created-import_subscription sub import_id l = ground arith

  sync_for_customer-CreatesMissing :
      (orc : OrgContext) (customer plan_id : String) (sub : Subscription) (l : State)
      → CreatesMissing readers svc env sub l
          (sync_for_customer readers svc env orc customer plan_id sub l).1
  unfolding sync_for_customer
  sync_for_customer-CreatesMissing orc customer plan_id sub l =
      let r = resolve_billing_customer_id svc orc customer l in
      let kept : created r.1 ≡ created l = created-resolve_billing_customer_id orc customer l in
      let final = (sync_for_customer readers svc env orc customer plan_id sub l).1 in
      elim (Result-cases r.0) [
        | inl (e, failed) ↦
            let same : final
                ≡ (fail_subscription readers svc env sub condition_dependency_ready
                    "CustomerResolveFailed" e.text dependency_requeue_interval r.1).1 =
              ground (arith, failed) in
            failing sub "CustomerResolveFailed" e.text l r.1 final kept same
        | inr (id, found) ↦
            let same : final
                ≡ (sync_subscription readers svc env orc
                    (record { customer_id = id; plan_id = plan_id }) sub r.1).1 =
              ground (arith, found) in
            created-from sub l r.1 final kept (
              rw same (
                sync_subscription-CreatesMissing readers svc env orc
                  (record { customer_id = id; plan_id = plan_id }) sub r.1))
      ]

  reconcile_resolved-CreatesMissing :
      (orc : OrgContext) (customer plan_id : String) (sub : Subscription) (l : State)
      → CreatesMissing readers svc env sub l
          (reconcile_resolved_subscription readers svc env orc customer plan_id sub l).1
  unfolding reconcile_resolved_subscription
  reconcile_resolved-CreatesMissing orc customer plan_id sub l =
      let id = get_import_id sub.meta in
      elim (Bool-cases (id == "")) [
        | inl blank ↦ rw blank (sync_for_customer-CreatesMissing orc customer plan_id sub l)
        | inr given ↦ inl (rw given (created-import_subscription sub id l))
      ]

  reconcile_references-CreatesMissing :
      (orc : OrgContext) (sub : Subscription) (l : State)
      → CreatesMissing readers svc env sub l (reconcile_references readers svc env orc sub l).1
  unfolding reconcile_references
  reconcile_references-CreatesMissing orc sub l =
      let c = resolve_customer_external_id readers sub l in
      let p = resolve_plan_id readers sub c.1 in
      let final = (reconcile_references readers svc env orc sub l).1 in
      let kept : created c.1 ≡ created l = created-resolve_customer sub l in
      let kept' : created p.1 ≡ created l = created-resolve_plan_id sub c.1 ∙ kept in
      elim (Result-cases c.0) [
        | inl (e, failed) ↦
            failing sub "CustomerNotReady" e.text l c.1 final kept (ground (arith, failed))
        | inr (customer, found) ↦ elim (Result-cases p.0) [
          | inl (e, failed) ↦
              failing sub "PlanNotReady" e.text l p.1 final kept' (ground (arith, found, failed))
          | inr ((plan_id, plan_code), planned) ↦
              let sub' = set_resolved customer plan_code sub in
              let same : final
                  ≡ (reconcile_resolved_subscription readers svc env orc customer plan_id sub'
                      p.1).1 =
                ground (arith, found, planned) in
              created-from sub l p.1 final kept' (
                rw same (
                  CreatesMissing-same readers svc env sub' sub p.1
                    (reconcile_resolved_subscription readers svc env orc customer plan_id sub'
                      p.1).1
                    refl refl (reconcile_resolved-CreatesMissing orc customer plan_id sub' p.1)))
        ]
      ]

  module _ (sub : Subscription) (l : State) where
    abbrev deps : (Dependencies × Subscription) × State
    deps =
        resolve_org_dependencies env sub.spec.organization_ref sub
          (conditions_of subscription_fields) sub.meta.generation l

    spec-deps : (orc : OrgContext) → deps.0.0 ≡ resolved orc → deps.0.1.spec ≡ sub.spec
    unfolding resolve_org_dependencies
    spec-deps orc p = ground arith

    external_id-deps :
        (orc : OrgContext)
        → deps.0.0 ≡ resolved orc
        → deps.0.1.status.external_id ≡ sub.status.external_id
    unfolding resolve_org_dependencies
    external_id-deps orc p = ground arith

    reconcile_live-CreatesMissing :
        CreatesMissing readers svc env sub l (reconcile_live_subscription readers svc env sub l).1
    unfolding reconcile_live_subscription ensure_finalizer
    reconcile_live-CreatesMissing =
        let final = (reconcile_live_subscription readers svc env sub l).1 in
        let kept : created deps.1 ≡ created l = ap created_of (
          rpcs-resolve_org_dependencies env sub.spec.organization_ref sub
            (conditions_of subscription_fields) sub.meta.generation l) in
        elim (Bool-cases (env.platform.contains_finalizer sub.meta finalizer_name)) [
          | inr fresh ↦ inl (ground (arith, fresh))
          | inl there ↦ elim (Dependencies-cases deps.0.0) [
            | inl (result, p) ↦
                let same : final ≡ deps.1 = ground (arith, there, p) in inl (rw same kept)
            | inr (orc, p) ↦
                let last = (reconcile_references readers svc env orc deps.0.1 deps.1).1 in
                let same : final ≡ last = ground (arith, there, p) in
                created-from sub l deps.1 final kept (
                  rw same (
                    CreatesMissing-same readers svc env deps.0.1 sub deps.1 last (spec-deps orc p)
                      (external_id-deps orc p)
                      (reconcile_references-CreatesMissing orc deps.0.1 deps.1)))
          ]
        ]

  created-delete_subscription :
      (sub : Subscription) (l : State)
      → created (delete_subscription readers svc env sub l).1 ≡ created l
  unfolding delete_subscription handle_grpc_deletion finish_deletion set_object_condition
  created-delete_subscription sub l = ground (
    arith,
    rpcs-resolve_org_dependencies env sub.spec.organization_ref sub
        (conditions_of subscription_fields) sub.meta.generation l,
  )

  -- Whatever the API server and the gateway answer, a reconcile of a subscription calls Create not
  -- at all, or once, with a request for the subscription that it has read, which has no id or of
  -- which the gateway has answered a Get with NotFound or with no subscription.
  pub reconcile_subscription-CreatesMissing :
      (name : NamespacedName) (l : State)
      → (created (reconcile_subscription readers svc env name l).1 ≡ created l)
        ⊎ ((sub : Subscription) × (t : Target) × (env.get_own l name ≡ ok sub)
            × IsMissing readers svc env sub.status.external_id (subscription_key sub)
            × (created (reconcile_subscription readers svc env name l).1
                ≡ subscription_create_request t sub ∷ created l))
  unfolding reconcile_subscription
  reconcile_subscription-CreatesMissing name l =
      let l' : State = Call.get Kind.own_kind name ∷ l in
      elim (Result-cases (env.get_own l name)) [
        | inl (e, failed) ↦ inl (rw failed refl)
        | inr (sub, got) ↦ elim (Bool-cases (is_deleted sub.meta)) [
          | inl deleted ↦ inl (rw (got, deleted) (created-delete_subscription sub l'))
          | inr live ↦
              rw (got, live)
                (elim (reconcile_live-CreatesMissing sub l') [
                  | inl kept ↦ inl kept
                  | inr (t, missing, one) ↦ inr (sub, t, refl, missing, one)
                ])
        ]
      ]
