-- ===== src/Subscriptions/Features.antt =====
-- reconcileEntitlements and resolveBillingCustomerID of subscription_controller.go.
use invora_controller.Prelude.{
  String, ◌<>◌, true, false, Option, none, some, List, [], ◌∷◌, map, ◌==◌, if◌then◌else◌, contains,
  codes, codes_before,
}
use invora_controller.Go.{Error, errorf, wrap, quoted, Result, ok, err, M, ◌>>=◌, pure}
use invora_controller.Base.{OrgContext, is_grpc_not_found}
use invora_controller.Catalog.{call}
use invora_controller.Subscriptions.{
  SubscriptionEntitlement, Subscription, SubscriptionRpc, State, SubscriptionService,
}

abbrev pub feature_codes : List SubscriptionEntitlement → List String
feature_codes entitlements = map (λ e. e.feature_code) entitlements

-- A text put into a sorted list of distinct ones.
unfoldable pub insert_code : String → List String → List String
insert_code c [] = c ∷ []
insert_code c (d ∷ ds) =
    let rest = insert_code c ds in
    if c == d then d ∷ ds else if codes_before (codes c) (codes d) then c ∷ d ∷ ds else d ∷ rest

-- The keys of a map of these codes, by sort.Strings.
unfoldable pub managed_codes : List String → List String
unfolding insert_code
managed_codes [] = []
managed_codes (c ∷ cs) = insert_code c (managed_codes cs)

abbrev pub set_managed_codes : Subscription → Subscription
set_managed_codes sub = record sub {
  status = record (sub.status) {
    managed_entitlement_codes = managed_codes (feature_codes sub.spec.entitlements);
  };
}

module _ (svc : SubscriptionService) where
  unfoldable pub resolve_billing_customer_id : OrgContext → String → M State (Result String)
  resolve_billing_customer_id orc external_id = do
    got ← call orc (SubscriptionRpc.get_customer external_id) (svc.get_customer external_id)
    elim got [
      | err e ↦ pure (err (wrap ("getting customer " <> quoted external_id) e))
      | ok id ↦
          if id == ""
          then pure (err (errorf ("customer " <> quoted external_id <> " has no billing id")))
          else pure (ok id)
    ]

  -- The loop that applies every declared entitlement.
  unfoldable pub upsert_entitlements :
      OrgContext → String → List SubscriptionEntitlement → M State (Option Error)
  upsert_entitlements orc id [] = pure none
  upsert_entitlements orc id (e ∷ entitlements) = do
    failed ← call orc (SubscriptionRpc.upsert_entitlement id e) (svc.upsert_entitlement id e)
    elim failed [
      | some failed ↦ pure (some (wrap ("upserting entitlement " <> quoted e.feature_code) failed))
      | none ↦ upsert_entitlements orc id entitlements
    ]

  -- The loop over the remote entitlements: one that was managed and is no longer desired is removed.
  unfoldable pub prune_entitlements :
      OrgContext → String → List String → List String → List String → M State (Option Error)
  prune_entitlements orc id desired managed [] = pure none
  prune_entitlements orc id desired managed (code ∷ remote) = elim (contains desired code) [
    | true ↦ prune_entitlements orc id desired managed remote
    | false ↦ elim (contains managed code) [
      | false ↦ prune_entitlements orc id desired managed remote
      | true ↦ do
        failed ←
            call orc (SubscriptionRpc.remove_entitlement id code) (svc.remove_entitlement id code)
        elim failed [
          | none ↦ prune_entitlements orc id desired managed remote
          | some e ↦ elim (is_grpc_not_found e) [
            | true ↦ prune_entitlements orc id desired managed remote
            | false ↦ pure (some (wrap ("removing entitlement " <> quoted code) e))
          ]
        ]
    ]
  ]

  -- The prune, which lists only when something was managed.
  unfoldable pub prune_dropped : OrgContext → Subscription → M State (Option Error)
  prune_dropped orc sub = elim sub.status.managed_entitlement_codes [
    | [] ↦ pure none
    | c ∷ cs ↦ do
      let id = sub.status.external_id
      listed ← call orc (SubscriptionRpc.list_entitlements id) (svc.list_entitlements id)
      elim listed [
        | err e ↦ pure (some (wrap "listing entitlements" e))
        | ok remote ↦
            prune_entitlements orc id (feature_codes sub.spec.entitlements) (c ∷ cs) remote
      ]
  ]

  unfoldable pub reconcile_entitlements :
      OrgContext → Subscription → M State (Option Error × Subscription)
  reconcile_entitlements orc sub = do
    failed ← upsert_entitlements orc sub.status.external_id sub.spec.entitlements
    elim failed [
      | some e ↦ pure (some e, sub)
      | none ↦ do
        failed ← prune_dropped orc sub
        elim failed [ some e ↦ pure (some e, sub) | none ↦ pure (none, set_managed_codes sub) ]
    ]
