-- ===== src/Subscriptions/Creates.antt =====
-- The Create calls of subscription_controller.go.
use invora_controller.Prelude.{
  inl, inr, String, ◌≡◌, refl, ap, ◌∙◌, not, if◌then◌else◌, ◌⊎◌, arith, true, Option, none, some,
  Bool-cases, Option-cases, ◌==◌, eq_iff, List, [], ◌∷◌,
}
use invora_controller.Go.{Error, ok, err, Result-cases, ℤ, seconds}
use invora_controller.Api.{condition_synced}
use invora_controller.Cluster.{Call, Conn, Headers, Env, rpcs}
use invora_controller.Base.{OrgContext, grpc_ctx, is_grpc_not_found}
use invora_controller.Subscriptions.{
  Subscription, SubscriptionSpec, SubscriptionEntitlement, SubscriptionCreateRequest,
  SubscriptionRpc, SubscriptionService, Readers, State,
}
use invora_controller.Subscriptions.Features.{
  feature_codes, upsert_entitlements, prune_entitlements, prune_dropped, reconcile_entitlements,
}
use invora_controller.Catalog.{GetKey, by_id, by_external_id}
use invora_controller.Subscriptions.Entitlements.{listing, prune_dropped-cases}
use invora_controller.Subscriptions.Reconcile.{
  Target, subscription_create_request, subscription_key, set_subscription_id,
  forget_subscription_id, set_subscription_status, fail_subscription, succeed_subscription,
  finish_update, finish_create, update_existing_subscription, create_new_subscription,
  sync_subscription,
}

-- The subscriptions that a log creates, newest first.
abbrev pub created_of :
    List (Option Conn × Headers × SubscriptionRpc) → List SubscriptionCreateRequest
created_of [] = []
created_of ((_, _, SubscriptionRpc.create_subscription q) ∷ calls) = q ∷ created_of calls
created_of (_ ∷ calls) = created_of calls

abbrev pub created : State → List SubscriptionCreateRequest
created l = created_of (rpcs l)

module _ (readers : Readers) (svc : SubscriptionService)
    (env : Env Subscription SubscriptionRpc) where
  created-upsert_entitlements :
      (orc : OrgContext) (id : String) (entitlements : List SubscriptionEntitlement) (l : State)
      → created (upsert_entitlements svc orc id entitlements l).1 ≡ created l
  unfolding upsert_entitlements
  created-upsert_entitlements orc id [] l = refl
  created-upsert_entitlements orc id (e ∷ entitlements) l =
      let l1 : State =
        Call.rpc orc.conn (grpc_ctx orc) (SubscriptionRpc.upsert_entitlement id e) ∷ l in
      ground (arith, created-upsert_entitlements orc id entitlements l1)

  created-prune_entitlements :
      (orc : OrgContext) (id : String) (desired managed remote : List String) (l : State)
      → created (prune_entitlements svc orc id desired managed remote l).1 ≡ created l
  unfolding prune_entitlements
  created-prune_entitlements orc id desired managed [] l = refl
  created-prune_entitlements orc id desired managed (code ∷ remote) l =
      let l1 : State =
        Call.rpc orc.conn (grpc_ctx orc) (SubscriptionRpc.remove_entitlement id code) ∷ l in
      ground (
        arith,
        created-prune_entitlements orc id desired managed remote l,
        created-prune_entitlements orc id desired managed remote l1,
      )

  created-prune_dropped :
      (orc : OrgContext) (sub : Subscription) (l : State)
      → created (prune_dropped svc orc sub l).1 ≡ created l
  created-prune_dropped orc sub l = elim (prune_dropped-cases svc orc sub l) [
    | inl same ↦ rw same refl
    | inr (inl (e, same)) ↦ rw same refl
    | inr (inr (remote, same)) ↦ rw same (
        created-prune_entitlements orc sub.status.external_id (feature_codes sub.spec.entitlements)
          sub.status.managed_entitlement_codes remote (listing orc sub l))
  ]

  created-reconcile_entitlements :
      (orc : OrgContext) (sub : Subscription) (l : State)
      → created (reconcile_entitlements svc orc sub l).1 ≡ created l
  unfolding reconcile_entitlements
  created-reconcile_entitlements orc sub l =
      let r = upsert_entitlements svc orc sub.status.external_id sub.spec.entitlements l in
      let applied : created r.1 ≡ created l =
        created-upsert_entitlements orc sub.status.external_id sub.spec.entitlements l in
      elim (Option-cases r.0) [
        | inr (e, failed) ↦
            let same : (reconcile_entitlements svc orc sub l).1 ≡ r.1 = ground (arith, failed) in
            rw (same, applied) refl
        | inl fine ↦
            let same : (reconcile_entitlements svc orc sub l).1
                ≡ (prune_dropped svc orc sub r.1).1 =
              ground (arith, fine) in
            rw (same, created-prune_dropped orc sub r.1, applied) refl
      ]

  pub created-fail_subscription :
      (sub : Subscription) (type_name reason message : String) (delay : ℤ) (l : State)
      → created (fail_subscription readers svc env sub type_name reason message delay l).1
        ≡ created l
  unfolding fail_subscription
  created-fail_subscription sub type_name reason message delay l = refl

  created-finish_update :
      (orc : OrgContext) (sub : Subscription) (l : State)
      → created (finish_update readers svc env orc sub l).1 ≡ created l
  unfolding finish_update fail_subscription succeed_subscription
  created-finish_update orc sub l = ground (arith, created-reconcile_entitlements orc sub l)

  created-finish_create :
      (orc : OrgContext) (sub : Subscription) (l : State)
      → created (finish_create readers svc env orc sub l).1 ≡ created l
  unfolding finish_create fail_subscription succeed_subscription
  created-finish_create orc sub l = ground (arith, created-reconcile_entitlements orc sub l)

  created-update_existing :
      (orc : OrgContext) (sub : Subscription) (l : State)
      → created (update_existing_subscription readers svc env orc sub l).1 ≡ created l
  unfolding update_existing_subscription fail_subscription
  created-update_existing orc sub l =
      let id = sub.status.external_id in
      let l1 : State =
        Call.rpc orc.conn (grpc_ctx orc) (SubscriptionRpc.update_subscription id sub.spec.name)
        ∷ l in
      ground (arith, created-finish_update orc sub l1)

  created-create_new :
      (orc : OrgContext) (t : Target) (sub : Subscription) (l : State)
      → created (create_new_subscription readers svc env orc t sub l).1
        ≡ subscription_create_request t sub ∷ created l
  unfolding create_new_subscription
  created-create_new orc t sub l =
      let q = subscription_create_request t sub in
      let l1 : State =
        Call.rpc orc.conn (grpc_ctx orc) (SubscriptionRpc.create_subscription q) ∷ l in
      elim (Result-cases (svc.create q l1)) [
        | inl (e, failed) ↦
            rw failed
              (created-fail_subscription sub condition_synced "CreateFailed" e.text (seconds 30) l1)
        | inr (remote, answered) ↦ rw answered (
            created-finish_create orc
              (set_subscription_status remote.status (set_subscription_id remote.id sub)) l1)
      ]

  -- An id is empty, or the gateway has answered a Get with a key, the last call of a log, with
  -- NotFound or with no subscription.
  abbrev pub IsMissing : String → GetKey → Type 0
  IsMissing id key =
      (id ≡ "")
      ⊎ ((orc : OrgContext) × (l : State) × (at : State) × (at
            ≡ Call.rpc orc.conn (grpc_ctx orc) (SubscriptionRpc.get_subscription key) ∷ l)
          × (((e : Error) × (svc.get key at ≡ err e) × (is_grpc_not_found e ≡ true))
              ⊎ (svc.get key at ≡ ok none)))

  IsMissing-same :
      (id id' : String) (key key' : GetKey)
      → id ≡ id'
      → key ≡ key'
      → IsMissing id key
      → IsMissing id' key'
  IsMissing-same id id' key key' same same' h = rw (← same, ← same') h

  -- A log with no Create more than another, or with one, for a subscription that is missing.
  abbrev pub CreatesMissing : Subscription → State → State → Type 0
  CreatesMissing sub before l =
      (created l ≡ created before)
      ⊎ ((t : Target) × IsMissing sub.status.external_id (subscription_key sub)
          × (created l ≡ subscription_create_request t sub ∷ created before))

  subscription_key-same :
      (sub sub' : Subscription)
      → sub.spec ≡ sub'.spec
      → sub.status.external_id ≡ sub'.status.external_id
      → subscription_key sub ≡ subscription_key sub'
  unfolding subscription_key
  subscription_key-same sub sub' same same' =
      ap
        (λ (s : SubscriptionSpec).
          if not (s.external_id == "")
          then by_external_id s.external_id
          else by_id sub.status.external_id)
        same
      ∙ ap
          (λ i.
            if not (sub'.spec.external_id == "")
            then by_external_id sub'.spec.external_id
            else by_id i)
          same'

  create_request-same :
      (t : Target) (sub sub' : Subscription)
      → sub.spec ≡ sub'.spec
      → subscription_create_request t sub ≡ subscription_create_request t sub'
  unfolding subscription_create_request
  create_request-same t sub sub' same =
      ap (λ (s : SubscriptionSpec). subscription_create_request t (record sub { spec = s })) same

  -- It depends on the specification and on the external id of the subscription.
  pub CreatesMissing-same :
      (sub sub' : Subscription) (before l : State)
      → sub.spec ≡ sub'.spec
      → sub.status.external_id ≡ sub'.status.external_id
      → CreatesMissing sub before l
      → CreatesMissing sub' before l
  CreatesMissing-same sub sub' before l same same' (inl kept) = inl kept
  CreatesMissing-same sub sub' before l same same' (inr (t, missing, one)) = inr (
    t,
    IsMissing-same sub.status.external_id sub'.status.external_id (subscription_key sub)
        (subscription_key sub') same' (subscription_key-same sub sub' same same') missing,
    one ∙ ap (λ q. q ∷ created before) (create_request-same t sub sub' same),
  )

  pub sync_subscription-CreatesMissing :
      (orc : OrgContext) (t : Target) (sub : Subscription) (l : State)
      → CreatesMissing sub l (sync_subscription readers svc env orc t sub l).1
  unfolding sync_subscription subscription_create_request
  sync_subscription-CreatesMissing orc t sub l =
      let q = subscription_key sub in
      let l1 : State = Call.rpc orc.conn (grpc_ctx orc) (SubscriptionRpc.get_subscription q) ∷ l in
      elim (Bool-cases (sub.status.external_id == "")) [
        | inl fresh ↦ inr (
          t,
          inl ((eq_iff sub.status.external_id "").0 fresh),
          rw fresh (created-create_new orc t sub l),
        )
        | inr known ↦ elim (Result-cases (svc.get q l1)) [
          | inr (some remote, got) ↦ inl (
              rw (known, got)
                (created-update_existing orc (set_subscription_status remote.status sub) l1))
          | inr (none, got) ↦ inr (
            t,
            inr (orc, l, l1, refl, inr got),
            rw (known, got) (created-create_new orc t sub l1),
          )
          | inl (e, failed) ↦ elim (Bool-cases (is_grpc_not_found e)) [
            | inl missing ↦ inr (
              t,
              inr (orc, l, l1, refl, inl (e, failed, missing)),
              rw (known, failed, missing)
                  (created-create_new orc t (forget_subscription_id sub) l1),
            )
            | inr other ↦ inl (
                rw (known, failed, other)
                  (created-fail_subscription sub condition_synced "GetFailed" e.text (seconds 10)
                    l1))
          ]
        ]
      ]
