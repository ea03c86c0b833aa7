-- ===== src/Tests/Subscriptions.antt =====
-- The theorems on subscriptions, at one that stops granting a feature.
use invora_controller.Prelude.{String, ◌≡◌, ◌⊎◌, refl, none, List, [], ◌∷◌, All, contains}
use invora_controller.Go
use invora_controller.Go.{Error, ok, err}
use invora_controller.Api.{NamespacedName}
use invora_controller.Cluster.{Env}
use invora_controller.Cluster.{rpcs}
use invora_controller.Base.{OrgContext}
use invora_controller.Subscriptions.{
  Subscription, SubscriptionEntitlement, SubscriptionService, State,
}
use invora_controller.Subscriptions.Features.{
  reconcile_entitlements, upsert_entitlements, prune_dropped, prune_entitlements, feature_codes,
}
use invora_controller.Subscriptions.Entitlements.{
  IsDropped, removed, applied, reconcile_entitlements-IsDropped,
}
use invora_controller.Subscriptions.Managed.{
  IsSorted, IsSettled, reverse_onto, reconcile_entitlements-success, prune_entitlements-IsSettled,
}
use invora_controller.Tests.World.{named, ready, acme, calm_env}
use invora_controller.Subscriptions.{SubscriptionRpc, Readers}
use invora_controller.Subscriptions.Creates.{created, IsMissing}
use invora_controller.Subscriptions.Missing.{reconcile_subscription-CreatesMissing}
use invora_controller.Subscriptions.Reconcile.{
  Target, subscription_key, subscription_create_request, reconcile_subscription,
}

abbrev grant : String → SubscriptionEntitlement
grant code = record { feature_code = code; privileges = [] }

-- It granted "sms" and "export", and now declares "seats" and "export".
abbrev gold : Subscription
gold = record {
  meta = named "gold";
  spec = record {
    organization_ref = record { name = "acme"; namespace = "" };
    deletion_policy = "Delete";
    external_id = "gold-1";
    external_customer_id = "customer-1";
    customer_ref = none;
    plan_code = "gold";
    plan_ref = none;
    name = "Gold";
    billing_time = "";
    entitlements = grant "seats" ∷ grant "export" ∷ [];
  };
  status = record {
    base = ready;
    external_id = "sub-1";
    resolved_customer_external_id = "";
    resolved_plan_code = "";
    subscription_status = "";
    managed_entitlement_codes = "export" ∷ "sms" ∷ [];
  };
}

abbrev on_server : List String
on_server = "export" ∷ "sms" ∷ "by_hand" ∷ []

abbrev granting : SubscriptionService
granting = record {
  get_customer = λ e l. ok "c-1";
  get = λ q l. ok none;
  create = λ q l. ok (record { id = "sub-1"; status = "active" });
  update = λ i n l. none;
  terminate = λ i l. none;
  upsert_entitlement = λ i e l. none;
  list_entitlements = λ i l. ok on_server;
  remove_entitlement = λ i c l. none;
}

abbrev context : OrgContext
context = record { org = acme; conn = none; token = "t"; org_id = "tenant-1" }

abbrev start : State
start = []

reconcile_entitlements-IsDropped_example :
    All (IsDropped gold) (removed (rpcs (reconcile_entitlements granting context gold start).1))
reconcile_entitlements-IsDropped_example =
    reconcile_entitlements-IsDropped granting context gold start tt

reconcile_entitlements-success_example :
    (applied (rpcs (reconcile_entitlements granting context gold start).1)
      ≡ reverse_onto (feature_codes gold.spec.entitlements) (applied (rpcs start)))
    × IsSorted
        (reconcile_entitlements granting context gold start).0.1.status.managed_entitlement_codes
    × ((code : String)
        → contains
            (reconcile_entitlements granting context gold
              start).0.1.status.managed_entitlement_codes
            code
          ≡ contains (feature_codes gold.spec.entitlements) code)
unfolding reconcile_entitlements upsert_entitlements prune_dropped prune_entitlements
reconcile_entitlements-success_example =
    reconcile_entitlements-success granting context gold start refl

prune_entitlements-IsSettled_example :
    All
      (IsSettled ("seats" ∷ "export" ∷ []) ("export" ∷ "sms" ∷ []) (
        removed (
          rpcs
            (prune_entitlements granting context "sub-1"
              ("seats" ∷ "export" ∷ [])
              ("export" ∷ "sms" ∷ [])
              on_server
              start).1)))
      on_server
unfolding prune_entitlements
prune_entitlements-IsSettled_example =
    prune_entitlements-IsSettled granting context "sub-1" ("seats" ∷ "export" ∷ [])
      ("export" ∷ "sms" ∷ []) on_server start refl

abbrev gold_env : Env Subscription SubscriptionRpc
gold_env = calm_env gold

abbrev missing : Error
missing = record { text = "not found"; grpc_code = none; reason = Go.not_found }

abbrev no_readers : Readers
no_readers = record {
  get_customer = λ l n. err missing;
  get_plan = λ l n. err missing;
  list_plans = λ l n. ok [];
}

abbrev gold_name : NamespacedName
gold_name = record { namespace = "billing"; name = "gold" }

reconcile_subscription-CreatesMissing_example :
    (created (reconcile_subscription no_readers granting gold_env gold_name start).1 ≡ [])
    ⊎ ((sub : Subscription) × (t : Target) × (gold_env.get_own start gold_name ≡ ok sub)
        × IsMissing no_readers granting gold_env sub.status.external_id (subscription_key sub)
        × (created (reconcile_subscription no_readers granting gold_env gold_name start).1
            ≡ subscription_create_request t sub ∷ []))
reconcile_subscription-CreatesMissing_example =
    reconcile_subscription-CreatesMissing no_readers granting gold_env gold_name start
