-- ===== src/Subscriptions/Entitlements.antt =====
-- Which entitlements the reconciler applies and removes.
use invora_controller.Prelude.{
  String, ◌≡◌, refl, ◌⊎◌, inl, inr, true, false, Option, none, some, List, [], ◌∷◌, arith, All,
  Bool-cases, Option-cases, contains,
}
use invora_controller.Go.{Error, wrap, Result-cases}
use invora_controller.Cluster.{Call, Conn, Headers, rpcs}
use invora_controller.Base.{OrgContext, grpc_ctx, is_grpc_not_found}
use invora_controller.Subscriptions.{
  Subscription, SubscriptionRpc, SubscriptionService, SubscriptionEntitlement, State,
  upsert_entitlement, remove_entitlement, list_entitlements,
}
use invora_controller.Subscriptions.Features.{
  feature_codes, upsert_entitlements, prune_entitlements, prune_dropped, reconcile_entitlements,
}

-- The features that were removed, newest first.
abbrev pub removed : List (Option Conn × Headers × SubscriptionRpc) → List String
removed [] = []
removed ((_, _, remove_entitlement _ code) ∷ calls) = code ∷ removed calls
removed (_ ∷ calls) = removed calls

-- The features that were applied, newest first.
abbrev pub applied : List (Option Conn × Headers × SubscriptionRpc) → List String
applied [] = []
applied ((_, _, upsert_entitlement _ e) ∷ calls) = e.feature_code ∷ applied calls
applied (_ ∷ calls) = applied calls

-- A feature that the resource applied before, and no longer declares.
abbrev pub IsDropped : Subscription → String → Type 0
IsDropped sub code =
    (contains sub.status.managed_entitlement_codes code ≡ true)
    × (contains (feature_codes sub.spec.entitlements) code ≡ false)

-- The log with the List call of the prune.
abbrev pub listing : OrgContext → Subscription → State → State
listing orc sub l = Call.rpc orc.conn (grpc_ctx orc) (list_entitlements sub.status.external_id) ∷ l

module _ (svc : SubscriptionService) where
  removed-upsert_entitlements :
      (orc : OrgContext) (id : String) (entitlements : List SubscriptionEntitlement) (l : State)
      → removed (rpcs (upsert_entitlements svc orc id entitlements l).1) ≡ removed (rpcs l)
  unfolding upsert_entitlements
  removed-upsert_entitlements orc id [] l = refl
  removed-upsert_entitlements orc id (e ∷ es) l =
      let l1 : State = Call.rpc orc.conn (grpc_ctx orc) (upsert_entitlement id e) ∷ l in
      ground (arith, removed-upsert_entitlements orc id es l1)

  removed-prune_entitlements :
      (orc : OrgContext) (id : String) (desired managed remote : List String) (l : State)
      → (P : String → Type 0)
      → ((code : String) → contains managed code ≡ true → contains desired code ≡ false → P code)
      → All P (removed (rpcs l))
      → All P (removed (rpcs (prune_entitlements svc orc id desired managed remote l).1))
  unfolding prune_entitlements
  removed-prune_entitlements orc id desired managed [] l P allowed h = h
  removed-prune_entitlements orc id desired managed (code ∷ remote) l P allowed h =
      let l1 : State = Call.rpc orc.conn (grpc_ctx orc) (remove_entitlement id code) ∷ l in
      let on = λ (at : State) (h' : All P (removed (rpcs at))).
        removed-prune_entitlements orc id desired managed remote at P allowed h' in
      elim (Bool-cases (contains desired code)) [
        | inl wanted ↦ rw (prune_entitlements, wanted) (on l h)
        | inr dropped ↦ elim (Bool-cases (contains managed code)) [
          | inr foreign ↦ rw (prune_entitlements, dropped, foreign) (on l h)
          | inl ours ↦
              let h1 : All P (removed (rpcs l1)) = (allowed code ours dropped, h) in
              elim (Option-cases (svc.remove_entitlement id code l1)) [
                | inl fine ↦
                    let same : prune_entitlements svc orc id desired managed (code ∷ remote) l
                        ≡ prune_entitlements svc orc id desired managed remote l1 =
                      ground (arith, dropped, ours, fine) in
                    rw same (on l1 h1)
                | inr (e, failed) ↦ elim (Bool-cases (is_grpc_not_found e)) [
                  | inl missing ↦
                      let same : prune_entitlements svc orc id desired managed (code ∷ remote) l
                          ≡ prune_entitlements svc orc id desired managed remote l1 =
                        ground (arith, dropped, ours, failed, missing) in
                      rw same (on l1 h1)
                  | inr other ↦
                      let same : (prune_entitlements svc orc id desired managed (code ∷ remote) l).1
                          ≡ l1 =
                        ground (arith, dropped, ours, failed, other) in
                      rw same h1
                ]
              ]
        ]
      ]

  -- The prune does nothing, or fails to list, or goes through what it listed.
  pub prune_dropped-cases :
      (orc : OrgContext) (sub : Subscription) (l : State)
      → (prune_dropped svc orc sub l ≡ (none, l))
        ⊎ (((e : Error) × (prune_dropped svc orc sub l
                ≡ (some (wrap "listing entitlements" e), listing orc sub l)))
            ⊎ ((remote : List String) × (prune_dropped svc orc sub l
                  ≡ prune_entitlements svc orc sub.status.external_id
                      (feature_codes sub.spec.entitlements)
                      sub.status.managed_entitlement_codes
                      remote
                      (listing orc sub l))))
  unfolding prune_dropped
  prune_dropped-cases orc sub l = go sub.status.managed_entitlement_codes refl
    where
      go :
          (managed : List String)
          → sub.status.managed_entitlement_codes ≡ managed
          → (prune_dropped svc orc sub l ≡ (none, l))
            ⊎ (((e : Error) × (prune_dropped svc orc sub l
                    ≡ (some (wrap "listing entitlements" e), listing orc sub l)))
                ⊎ ((remote : List String) × (prune_dropped svc orc sub l
                      ≡ prune_entitlements svc orc sub.status.external_id
                          (feature_codes sub.spec.entitlements)
                          sub.status.managed_entitlement_codes
                          remote
                          (listing orc sub l))))
      go [] nothing = inl (ground (arith, nothing))
      go (c ∷ cs) something =
          elim (Result-cases (svc.list_entitlements sub.status.external_id (listing orc sub l))) [
            | inl (e, p) ↦ inr (inl (e, ground (arith, something, p)))
            | inr (remote, p) ↦ inr (inr (remote, ground (arith, something, p)))
          ]

  removed-prune_dropped :
      (orc : OrgContext) (sub : Subscription) (l : State)
      → All (IsDropped sub) (removed (rpcs l))
      → All (IsDropped sub) (removed (rpcs (prune_dropped svc orc sub l).1))
  removed-prune_dropped orc sub l h = elim (prune_dropped-cases orc sub l) [
    | inl same ↦ rw same h
    | inr (inl (e, same)) ↦ rw same h
    | inr (inr (remote, same)) ↦ rw same (
        removed-prune_entitlements orc sub.status.external_id (feature_codes sub.spec.entitlements)
          sub.status.managed_entitlement_codes remote (listing orc sub l) (IsDropped sub)
          (λ code ours dropped. (ours, dropped)) h)
  ]

  -- From a log whose removals are all of features that the resource applied before and no longer
  -- declares, a pass over the entitlements ends with such a log: one that was granted by others is
  -- never removed.
  pub reconcile_entitlements-IsDropped :
      (orc : OrgContext) (sub : Subscription) (l : State)
      → All (IsDropped sub) (removed (rpcs l))
      → All (IsDropped sub) (removed (rpcs (reconcile_entitlements svc orc sub l).1))
  unfolding reconcile_entitlements
  reconcile_entitlements-IsDropped orc sub l h =
      let r = upsert_entitlements svc orc sub.status.external_id sub.spec.entitlements l in
      let h1 : All (IsDropped sub) (removed (rpcs r.1)) =
        rw (removed-upsert_entitlements orc sub.status.external_id sub.spec.entitlements l) h in
      let p = prune_dropped svc orc sub r.1 in
      elim (Option-cases r.0) [
        | inr (e, failed) ↦
            let same : (reconcile_entitlements svc orc sub l).1 ≡ r.1 = ground (arith, failed) in
            rw same h1
        | inl fine ↦
            let same : (reconcile_entitlements svc orc sub l).1 ≡ p.1 = ground (arith, fine) in
            rw same (removed-prune_dropped orc sub r.1 h1)
      ]
