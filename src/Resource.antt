-- ===== src/Resource.antt =====
-- internal/controller/reconciler.go and orgresource_helpers.go, the part that works on an object:
-- finalizers, status writes, the resolution of the organization, and deletion.
pub mod Quiet
pub mod Connections
pub mod Deletion
pub mod Maps
use invora_controller.Prelude.{
  ℕ, String, ◌≡◌, refl, ◌⊎◌, inl, inr, Bool, true, false, Option, none, some, List, ◌==◌, ◌&&◌,
  ◌||◌, not, if◌then◌else◌,
}
use invora_controller.Go.{
  Error, wrap, Result, ok, err, M, ◌>>=◌, ◌>>◌, pure, ℤ, seconds, CtrlResult, Outcome, no_requeue,
  requeue_after,
}
use invora_controller.Api.{
  ObjectMeta, Condition, ConditionStatus, condition_true, condition_false, ResourceRef,
  BillingResourceStatus, Cr, Organization, Instance, deletion_policy_delete, deletion_policy_orphan,
  condition_ready, condition_synced, condition_dependency_ready, condition_deletion_blocked,
  finalizer_name,
}
use invora_controller.Cluster.{Conn, Log, Env, fetch_instance, write, write_status, clock}
use invora_controller.Gateway.{dial, resolve_secret_value}
use invora_controller.Tenant.{org_acting_id}
use invora_controller.Base.{
  dependency_requeue_interval, Conditions, OrgContext, is_grpc_not_found, or_namespace,
  set_condition, get_ready_billing_organization, success_result,
}

-- What resolveOrgDependencies returns: a context, or the result to return at once.
pub data Dependencies : Type 0 where
  resolved : OrgContext → Dependencies
  not_ready : CtrlResult → Dependencies

pub Dependencies-cases :
    (d : Dependencies)
    → ((result : CtrlResult) × (d ≡ not_ready result)) ⊎ ((orc : OrgContext) × (d ≡ resolved orc))
Dependencies-cases (not_ready result) = inl (result, refl)
Dependencies-cases (resolved orc) = inr (orc, refl)

-- A pointer to the BillingResourceStatus inside a status.
pub record StatusFields (T : Type 0) : Type 0 where
  pub base : T → BillingResourceStatus
  pub store : BillingResourceStatus → T → T

abbrev pub conditions_of : {T : Type 0} → StatusFields T → Conditions T
conditions_of f = record {
  read = λ t. (f.base t).conditions;
  store = λ cs t. f.store (record (f.base t) { conditions = cs }) t;
}

module _ {S T Q : Type 0} (env : Env (Cr S T) Q) where
  -- Whether it was added; on an error the caller returns.
  unfoldable pub ensure_finalizer : Cr S T → M (Log (Cr S T) Q) (Result Bool × Cr S T)
  ensure_finalizer o =
      if not (env.platform.contains_finalizer o.meta finalizer_name)
      then (do
        (e, o') ← write env (record o { meta = env.platform.add_finalizer o.meta finalizer_name })
        elim e [ some e ↦ pure (err (wrap "adding finalizer" e), o') | none ↦ pure (ok true, o') ])
      else pure (ok false, o)

  unfoldable pub remove_finalizer : Cr S T → M (Log (Cr S T) Q) (Option Error × Cr S T)
  remove_finalizer o =
      write env (record o { meta = env.platform.remove_finalizer o.meta finalizer_name })

  -- SetCondition through a pointer into the object
  unfoldable pub set_object_condition :
      Conditions T
      → Cr S T
      → String
      → ConditionStatus
      → String
      → String
      → ℕ
      → M (Log (Cr S T) Q) (Cr S T)
  unfolding set_condition
  set_object_condition conditions o type_name status reason message generation = do
    cs ← set_condition env (conditions.read o.status) type_name status reason message generation
    pure (record o { status = conditions.store cs o.status })

  unfoldable pub set_success_status :
      StatusFields T → Cr S T → ℕ → String → M (Log (Cr S T) Q) (Cr S T)
  unfolding set_object_condition
  set_success_status fields o generation reason = do
    let conditions = conditions_of fields
    o ←
        set_object_condition conditions o condition_synced condition_true reason
          "Resource reconciled successfully" generation
    o ←
        set_object_condition conditions o condition_ready condition_true "Ready"
          "Resource reconciled successfully" generation
    t ← clock env
    pure (record o {
      status =
          fields.store
            (record (fields.base o.status) {
              last_synced_at = some t;
              observed_generation = generation;
            })
            o.status;
    })

  unfoldable pub resolve_org_dependencies :
      ResourceRef → Cr S T → Conditions T → ℕ → M (Log (Cr S T) Q) (Dependencies × Cr S T)
  unfolding set_object_condition get_ready_billing_organization resolve_secret_value dial
  resolve_org_dependencies org_ref o conditions generation = do
    found ← get_ready_billing_organization env org_ref o.meta.namespace
    elim found [
      | err e ↦ do
        o ←
            set_object_condition conditions o condition_dependency_ready condition_false
              "OrganizationNotReady" e.text generation
        (_, o) ← write_status env o
        pure (not_ready (requeue_after dependency_requeue_interval), o)
      | ok org ↦ do
        o ←
            set_object_condition conditions o condition_dependency_ready condition_true
              "DependenciesReady" "All referenced resources are available" generation
        let inst_ref = org.spec.instance_ref
        let inst_ns = or_namespace inst_ref.namespace o.meta.namespace
        got ← fetch_instance env (record { namespace = inst_ns; name = inst_ref.name })
        elim got [
          | err _ ↦ pure (
            resolved (record { org = org; conn = none; token = ""; org_id = org_acting_id org }),
            o,
          )
          | ok instance ↦ do
            let ref = instance.spec.token_ref
            secret ←
                resolve_secret_value env ref.name (or_namespace ref.namespace inst_ns) ref.key
                  instance.meta.namespace
            let token : String = elim secret [ ok v ↦ v | err _ ↦ "" ]
            dialled ← dial env instance.spec.gateway_url
            let conn : Option Conn = elim dialled [ ok c ↦ some c | err _ ↦ none ]
            pure (
              resolved
                  (record { org = org; conn = conn; token = token; org_id = org_acting_id org }),
              o,
            )
        ]
    ]

  -- The end of handleGrpcDeletion, and of the deletions that have no remote side.
  unfoldable pub finish_deletion : Cr S T → M (Log (Cr S T) Q) Outcome
  unfolding remove_finalizer
  finish_deletion o = do
    (e, _) ← remove_finalizer o
    elim e [
      | some e ↦ pure (no_requeue, some (wrap "removing finalizer" e))
      | none ↦ pure (no_requeue, none)
    ]

  unfoldable pub handle_grpc_deletion :
      Cr S T
      → ResourceRef
      → String
      → String
      → Conditions T
      → ℕ
      → (OrgContext → M (Log (Cr S T) Q) (Option Error))
      → M (Log (Cr S T) Q) Outcome
  unfolding resolve_org_dependencies set_object_condition finish_deletion is_grpc_not_found
  handle_grpc_deletion o org_ref deletion_policy resource_id conditions generation delete_fn =
      if deletion_policy == deletion_policy_orphan
      then finish_deletion o
      else if (deletion_policy == deletion_policy_delete || deletion_policy == "")
          && not (resource_id == "")
      then (do
        (deps, o) ← resolve_org_dependencies org_ref o conditions generation
        elim deps [
          | not_ready result ↦ pure (result, none)
          | resolved orc ↦ do
            e ← delete_fn orc
            elim e [
              | none ↦ finish_deletion o
              | some e ↦
                  if not (is_grpc_not_found e)
                  then (do
                    o ←
                        set_object_condition conditions o condition_deletion_blocked condition_true
                          "DeleteFailed" e.text generation
                    (_, o) ← write_status env o
                    pure (requeue_after (seconds 15), none))
                  else finish_deletion o
            ]
        ])
      else finish_deletion o
