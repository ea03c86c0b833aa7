-- ===== src/Organizations/Status.antt =====
-- updateOrgStatusSuccess of organization_controller.go, and the other status writes of its Reconcile.
use invora_controller.Prelude.{String, none, some}
use invora_controller.Go.{wrap, M, ◌>>=◌, pure, Outcome, no_requeue}
use invora_controller.Api.{
  Organization, ConditionStatus, condition_true, condition_false, condition_synced, condition_ready,
}
use invora_controller.Cluster.{Log, Env, write_status, clock}
use invora_controller.Base.{success_result}
use invora_controller.Resource.{conditions_of, set_object_condition}
use invora_controller.Organizations.{
  OrgRpc, OrgService, organization_fields, reconcile_parent_dual_write,
}

module _ (svc : OrgService) (env : Env Organization OrgRpc) where
  abbrev State : Type 0
  State = Log Organization OrgRpc

  unfoldable pub set_org_condition :
      Organization → String → ConditionStatus → String → String → M State Organization
  unfolding set_object_condition
  set_org_condition org type_name status reason message =
      set_object_condition env (conditions_of organization_fields) org type_name status reason
        message org.meta.generation

  -- `now`, and the generation, as the last synced ones
  unfoldable stamp : Organization → M State Organization
  stamp org = do
    t ← clock env
    pure (record org {
      status = record (org.status) {
        base = record (org.status.base) {
          last_synced_at = some t;
          observed_generation = org.meta.generation;
        };
      };
    })

  -- A condition is written, its error passed over.
  unfoldable pub report :
      Organization → String → ConditionStatus → String → String → Outcome → M State Outcome
  unfolding set_org_condition
  report org type_name status reason message outcome = do
    org ← set_org_condition org type_name status reason message
    (_, org) ← write_status env org
    pure outcome

  unfoldable pub update_org_status_success : Organization → String → M State Outcome
  unfolding set_org_condition stamp report success_result
  update_org_status_success org reason = do
    (e, org) ← reconcile_parent_dual_write svc env org
    elim e [
      | some e ↦
          report org condition_synced condition_false "ParentDualWriteFailed" e.text
            (no_requeue, some (wrap "reconciling parent dual-write" e))
      | none ↦ do
        org ←
            set_org_condition org condition_synced condition_true reason
              "Organization reconciled successfully"
        org ←
            set_org_condition org condition_ready condition_true "Ready"
              "Organization reconciled successfully"
        org ← stamp org
        let org : Organization = record org {
          status = record (org.status) {
            base = record (org.status.base) { id = org.status.organization_id };
          };
        }
        (e, org) ← write_status env org
        elim e [
          | some e ↦ pure (no_requeue, some (wrap "updating status" e))
          | none ↦ pure (success_result env org.meta, none)
        ]
    ]

  -- An organization with no tenant GUID is not provisioned.
  unfoldable pub skip_organization : Organization → M State Outcome
  unfolding set_org_condition stamp
  skip_organization org = do
    org ←
        set_org_condition org condition_synced condition_true "SkippedNoTenantGuid"
          "Organization has no billing tenant GUID (spec.externalId is not a GUID); not a billing tenant, skipping provisioning"
    org ←
        set_org_condition org condition_ready condition_true "Skipped"
          "Not a billing tenant; nothing to provision"
    org ← stamp org
    (e, org) ← write_status env org
    elim e [
      | some e ↦ pure (no_requeue, some (wrap "updating skipped status" e))
      | none ↦ pure (no_requeue, none)
    ]
