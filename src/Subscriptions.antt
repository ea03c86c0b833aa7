-- ===== src/Subscriptions.antt =====
-- internal/controller/subscription_controller.go and api/v1alpha1/subscription_types.go: the types
-- and the references that a subscription resolves. The status of a remote
-- subscription is the text that the generated String method gives.
pub mod Features
pub mod Entitlements
pub mod Managed
pub mod Reconcile
pub mod Creates
pub mod Missing
use invora_controller.Prelude.{
  ℕ, String, ◌<>◌, Bool, true, false, Option, none, some, List, [], ◌∷◌, map, ◌==◌, ◌&&◌, not,
  if◌then◌else◌, contains, codes, codes_before,
}
use invora_controller.Go.{Error, errorf, wrap, quoted, Result, ok, err, M, ◌>>=◌, ◌>>◌, pure}
use invora_controller.Api.{NamespacedName, ResourceRef, BillingResourceStatus, Cr}
use invora_controller.Cluster.{Call, Kind, Log}
use invora_controller.Base.{OrgContext, is_grpc_not_found, or_namespace}
use invora_controller.Catalog.{GetKey, call}
use invora_controller.Resources.Customer.{Customer}
use invora_controller.Resources.Plan.{Plan}

pub record EntitlementPrivilege : Type 0 where
  pub privilege_code : String
  pub value : String

-- Also the request's EntitlementInput, which has the same two fields.
pub record SubscriptionEntitlement : Type 0 where
  pub feature_code : String
  pub privileges : List EntitlementPrivilege

pub record SubscriptionSpec : Type 0 where
  pub organization_ref : ResourceRef
  pub deletion_policy : String
  pub external_id : String
  pub external_customer_id : String
  pub customer_ref : Option ResourceRef
  pub plan_code : String
  pub plan_ref : Option ResourceRef
  pub name : String
  pub billing_time : String
  pub entitlements : List SubscriptionEntitlement

pub record SubscriptionStatus : Type 0 where
  pub base : BillingResourceStatus
  pub external_id : String
  pub resolved_customer_external_id : String
  pub resolved_plan_code : String
  pub subscription_status : String
  pub managed_entitlement_codes : List String

abbrev pub Subscription : Type 0
Subscription = Cr SubscriptionSpec SubscriptionStatus

pub record SubscriptionCreateRequest : Type 0 where
  pub customer_id : String
  pub plan_id : String
  pub billing_time : ℕ
  pub external_id : Option String
  pub name : Option String

-- The calls of SubscriptionsService, and the Get of CustomersService.
pub data SubscriptionRpc : Type 0 where
  get_customer : String → SubscriptionRpc
  get_subscription : GetKey → SubscriptionRpc
  create_subscription : SubscriptionCreateRequest → SubscriptionRpc
  update_subscription : String → String → SubscriptionRpc
  terminate_subscription : String → SubscriptionRpc
  upsert_entitlement : String → SubscriptionEntitlement → SubscriptionRpc
  list_entitlements : String → SubscriptionRpc
  remove_entitlement : String → String → SubscriptionRpc

abbrev pub State : Type 0
State = Log Subscription SubscriptionRpc

-- A subscription in an answer.
pub record Remote : Type 0 where
  pub id : String
  pub status : String

-- A customer that is missing in the answer has the id "".
pub record SubscriptionService : Type 0 where
  pub get_customer : String → State → Result String
  pub get : GetKey → State → Result (Option Remote)
  pub create : SubscriptionCreateRequest → State → Result Remote
  pub update : String → String → State → Option Error
  pub terminate : String → State → Option Error
  pub upsert_entitlement : String → SubscriptionEntitlement → State → Option Error
  pub list_entitlements : String → State → Result (List String)
  pub remove_entitlement : String → String → State → Option Error

-- The answers of the API server on other kinds.
pub record Readers : Type 0 where
  pub get_customer : State → NamespacedName → Result Customer
  pub get_plan : State → NamespacedName → Result Plan
  pub list_plans : State → String → Result (List Plan)

module _ (readers : Readers) where
  unfoldable pub resolve_customer_external_id : Subscription → M State (Result String)
  resolve_customer_external_id sub =
      if not (sub.spec.external_customer_id == "")
      then pure (ok sub.spec.external_customer_id)
      else elim sub.spec.customer_ref [
        | none ↦ pure (err (errorf "either externalCustomerId or customerRef must be set"))
        | some ref ↦ λ l.
            let ns = or_namespace ref.namespace sub.meta.namespace in
            let name : NamespacedName = record { namespace = ns; name = ref.name } in
            (
              elim (readers.get_customer l name) [
                | err e ↦ err (wrap ("getting InvoraBillingCustomer " <> ns <> "/" <> ref.name) e)
                | ok customer ↦ ok customer.spec.external_id
              ],
              Call.get Kind.customer_kind name ∷ l,
            )
      ]

  -- The first plan of a list with the code, and with an id.
  unfoldable pub find_synced_plan : String → List Plan → Option (String × String)
  find_synced_plan code [] = none
  find_synced_plan code (p ∷ plans) =
      if p.spec.code == code && not (p.status.external_id == "")
      then some (p.status.external_id, p.spec.code)
      else find_synced_plan code plans

  -- The plan's id and code.
  unfoldable pub resolve_plan_id : Subscription → M State (Result (String × String))
  unfolding find_synced_plan
  resolve_plan_id sub = elim sub.spec.plan_ref [
    | some ref ↦ λ l.
        let ns = or_namespace ref.namespace sub.meta.namespace in
        let name : NamespacedName = record { namespace = ns; name = ref.name } in
        (
          elim (readers.get_plan l name) [
            | err e ↦ err (wrap ("getting InvoraBillingPlan " <> ns <> "/" <> ref.name) e)
            | ok plan ↦
                if plan.status.external_id == ""
                then err (
                    errorf (
                      "InvoraBillingPlan " <> ns <> "/" <> ref.name
                      <> " has no billing plan id yet"))
                else ok (plan.status.external_id, plan.spec.code)
          ],
          Call.get Kind.plan_kind name ∷ l,
        )
    | none ↦
        if not (sub.spec.plan_code == "")
        then (λ l. (
          elim (readers.list_plans l sub.meta.namespace) [
            | err e ↦ err (wrap ("listing InvoraBillingPlan in " <> sub.meta.namespace) e)
            | ok plans ↦ elim (find_synced_plan sub.spec.plan_code plans) [
              | some found ↦ ok found
              | none ↦ err (
                  errorf (
                    "no synced InvoraBillingPlan with code "
                    <> quoted sub.spec.plan_code
                    <> " in namespace "
                    <> sub.meta.namespace))
            ]
          ],
          Call.list Kind.plan_kind sub.meta.namespace ∷ l,
        ))
        else pure (err (errorf "either planCode or planRef must be set"))
  ]
