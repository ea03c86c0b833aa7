-- ===== src/Organizations/Reconcile.antt =====
-- Reconcile and handleDeletion of organization_controller.go.
use invora_controller.Prelude.{
  String, Bool, true, false, Option, none, some, ◌==◌, ◌&&◌, ◌||◌, not, if◌then◌else◌, eqb,
}
use invora_controller.Go.{
  Error, wrap, ignore_not_found, status_code, code_not_found, code_already_exists, ok, err, M,
  ◌>>=◌, pure, seconds, Outcome, no_requeue, requeue_now, requeue_after,
}
use invora_controller.Api.{
  NamespacedName, Organization, condition_true, condition_false, is_deleted, condition_synced,
  condition_dependency_ready, condition_deletion_blocked, deletion_policy_delete,
}
use invora_controller.Cluster.{Log, Env, fetch_own, write}
use invora_controller.Tenant.{resolve_tenant_id, org_external_id}
use invora_controller.Base.{
  InstanceContext, dependency_requeue_interval, is_grpc_not_found, get_import_id, clear_import_id,
  resolve_instance_admin,
}
use invora_controller.Resource.{ensure_finalizer, finish_deletion}
use invora_controller.Organizations.{
  OrgRpc, OrgService, forget_parent, admin_call, delete_parent_customer,
}
use invora_controller.Organizations.Status.{
  set_org_condition, report, update_org_status_success, skip_organization,
}

-- The two results of resolveTenantID.
abbrev pub has_tenant : Option String → Bool
has_tenant none = false
has_tenant (some _) = true

abbrev pub tenant_text : Option String → String
tenant_text none = ""
tenant_text (some id) = id

abbrev pub set_organization_id : String → Organization → Organization
set_organization_id id org = record org { status = record (org.status) { organization_id = id } }

module _ (svc : OrgService) (env : Env Organization OrgRpc) where
  abbrev State : Type 0
  State = Log Organization OrgRpc

  unfoldable pub import_organization : Organization → String → M State Outcome
  import_organization org import_id = do
    (e, org) ←
        write env (record (set_organization_id import_id org) { meta = clear_import_id org.meta })
    elim e [
      | some e ↦ pure (no_requeue, some (wrap "clearing import-id annotation" e))
      | none ↦ update_org_status_success svc env org "Imported"
    ]

  -- A ProvisionOrg that failed is reported and returned.
  unfoldable pub create_failed : Organization → Error → M State Outcome
  unfolding report
  create_failed org e =
      report svc env org condition_synced condition_false "CreateFailed" e.text
        (no_requeue, some (wrap "provisioning billing org" e))

  unfoldable pub provision_organization : InstanceContext → String → Organization → M State Outcome
  provision_organization inst tenant_id org = do
    provisioned ←
        admin_call inst (OrgRpc.provision_org tenant_id org.spec.name)
          (svc.provision_org tenant_id org.spec.name)
    elim provisioned [
      | ok id ↦ update_org_status_success svc env (set_organization_id id org) "Created"
      | err e ↦
          if eqb (status_code e) code_already_exists
          then (do
            adopt ← admin_call inst (OrgRpc.get_org_status tenant_id) (svc.get_org_status tenant_id)
            elim adopt [
              | ok id ↦ update_org_status_success svc env (set_organization_id id org) "Adopted"
              | err _ ↦ create_failed org e
            ])
          else create_failed org e
    ]

  unfoldable pub adopt_or_provision : InstanceContext → String → Organization → M State Outcome
  unfolding report
  adopt_or_provision inst tenant_id org = do
    found ← admin_call inst (OrgRpc.get_org_status tenant_id) (svc.get_org_status tenant_id)
    elim found [
      | ok id ↦ update_org_status_success svc env (set_organization_id id org) "Adopted"
      | err e ↦
          if eqb (status_code e) code_not_found
          then provision_organization inst tenant_id org
          else report svc env org condition_synced condition_false "SearchFailed" e.text
              (no_requeue, some (wrap "checking existing billing org" e))
    ]

  -- The part after the instance is resolved.
  unfoldable pub sync_organization : InstanceContext → String → Organization → M State Outcome
  sync_organization inst tenant_id org =
      let import_id = get_import_id org.meta in
      if not (import_id == "")
      then import_organization org import_id
      else if not (org.status.organization_id == "")
      then update_org_status_success svc env org "InSync"
      else adopt_or_provision inst tenant_id org

  -- An organization that is a tenant, or has an id.
  unfoldable pub reconcile_tenant : Organization → M State Outcome
  unfolding set_org_condition report
  reconcile_tenant org = do
    resolved ← resolve_instance_admin env org.spec.instance_ref org.meta.namespace
    elim resolved [
      | err e ↦
          report svc env org condition_dependency_ready condition_false "InstanceNotReady" e.text
            (requeue_after dependency_requeue_interval, none)
      | ok inst ↦ do
        org' ←
            set_org_condition svc env org condition_dependency_ready condition_true "InstanceReady"
              "InvoraBillingInstance is available"
        sync_organization inst (tenant_text (resolve_tenant_id org)) org'
    ]

  unfoldable pub reconcile_present : Organization → M State Outcome
  reconcile_present org =
      if not (has_tenant (resolve_tenant_id org))
        && org.status.organization_id == ""
        && get_import_id org.meta == ""
      then skip_organization svc env org
      else reconcile_tenant org

  -- DeprovisionOrg of a tenant id
  unfoldable pub deprovision_tenant : String → Organization → M State Outcome
  unfolding report
  deprovision_tenant tenant_id org = do
    resolved ← resolve_instance_admin env org.spec.instance_ref org.meta.namespace
    elim resolved [
      | err e ↦
          report svc env org condition_deletion_blocked condition_true "InstanceUnavailable" e.text
            (requeue_after (seconds 15), none)
      | ok inst ↦ do
        e ← admin_call inst (OrgRpc.deprovision_org tenant_id) (svc.deprovision_org tenant_id)
        elim e [
          | none ↦ finish_deletion env org
          | some e ↦
              if is_grpc_not_found e
              then finish_deletion env org
              else report svc env org condition_deletion_blocked condition_true "DeleteFailed"
                  e.text (requeue_after (seconds 15), none)
        ]
    ]

  unfoldable pub deprovision_organization : Organization → M State Outcome
  deprovision_organization org =
      if (org.spec.deletion_policy == deletion_policy_delete || org.spec.deletion_policy == "")
        && not (org.status.organization_id == "")
        && has_tenant (resolve_tenant_id org)
      then deprovision_tenant (tenant_text (resolve_tenant_id org)) org
      else finish_deletion env org

  unfoldable pub handle_deletion : Organization → M State Outcome
  unfolding report
  handle_deletion org = elim org.status.parent_org_ref [
    | none ↦ deprovision_organization org
    | some parent_ref ↦ do
      e ← delete_parent_customer svc env parent_ref org.meta.namespace (org_external_id org)
      elim e [
        | some e ↦
            report svc env org condition_deletion_blocked condition_true
              "ParentCustomerDeleteFailed" e.text (requeue_after (seconds 15), none)
        | none ↦ deprovision_organization (forget_parent org)
      ]
  ]

  unfoldable pub reconcile_live_organization : Organization → M State Outcome
  reconcile_live_organization org = do
    (added, org) ← ensure_finalizer env org
    elim added [
      | err e ↦ pure (no_requeue, some e)
      | ok true ↦ pure (requeue_now, none)
      | ok false ↦ reconcile_present org
    ]

  unfoldable pub reconcile_organization : NamespacedName → M State Outcome
  reconcile_organization name = do
    got ← fetch_own env name
    elim got [
      | err e ↦ pure (no_requeue, ignore_not_found e)
      | ok org ↦
          if is_deleted org.meta then handle_deletion org else reconcile_live_organization org
    ]
