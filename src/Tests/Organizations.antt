-- ===== src/Tests/Organizations.antt =====
-- The theorems on the organization reconciler, at an organization with a GUID.
use invora_controller.Prelude.{◌≡◌, ◌⊎◌, refl, none, some, [], ◌∷◌}
use invora_controller.Go
use invora_controller.Go.{Error, Result, ok, err, requeue_after, seconds}
use invora_controller.Api.{ResourceRef, NamespacedName, Organization, is_deleted}
use invora_controller.Cluster.{Log, Env, updates}
use invora_controller.Tenant.{
  org_external_id, resolve_tenant_id, guid_re, hex_run, hyphen, at_end, parent_dual_write_enabled,
}
use invora_controller.Gateway.{resolve_secret_value, dial}
use invora_controller.Base.{resolve_instance_admin, get_import_id}
use invora_controller.Resource.{ensure_finalizer}
use invora_controller.Organizations.{
  OrgRpc, OrgService, reconcile_parent_dual_write, leave_previous_parent,
}
use invora_controller.Organizations.Reconcile.{
  reconcile_organization, reconcile_live_organization, reconcile_present, reconcile_tenant,
  sync_organization, adopt_or_provision, provision_organization,
}
use invora_controller.Organizations.Status.{update_org_status_success}
use invora_controller.Organizations.Quiet.{tenants, GuidsOnly}
use invora_controller.Organizations.Guids.{reconcile_organization-GuidsOnly}
use invora_controller.Organizations.Parents.{IsCustomerGone, updates-reconcile_of_child}
use invora_controller.Tests.World.{acme, calm_env, unavailable}

-- No organization exists, and no customer can be deleted.
abbrev service : OrgService
service = record {
  get_org_status = λ id l. err (record { text = "none"; grpc_code = some 5; reason = Go.other });
  provision_org = λ id name l. ok "org-1";
  deprovision_org = λ id l. none;
  create_customer = λ id name l. ok "customer-1";
  delete_customer = λ id l. some unavailable;
}

abbrev parent : ResourceRef
parent = record { name = "acme"; namespace = "billing" }

-- An organization that is new, and one with a parent.
abbrev new_org : Organization
new_org = record acme { status = record (acme.status) { organization_id = "" } }

abbrev child : Organization
child = record acme { status = record (acme.status) { parent_org_ref = some parent } }

abbrev env : Env Organization OrgRpc
env = calm_env new_org

abbrev no_calls : Log Organization OrgRpc
no_calls = []

abbrev name : NamespacedName
name = record { namespace = "billing"; name = "acme" }

reconcile_organization-GuidsOnly_example :
    GuidsOnly (reconcile_organization service env name no_calls).1
reconcile_organization-GuidsOnly_example =
    reconcile_organization-GuidsOnly service env name no_calls tt

abbrev leaving : Organization
leaving = record child { meta = record (child.meta) { deletion_timestamp = some 5 } }

updates-reconcile_of_child_example :
    (updates (reconcile_organization service (calm_env leaving) name no_calls).1 ≡ [])
    ⊎ IsCustomerGone service (calm_env leaving) (org_external_id leaving)
unfolding is_deleted
updates-reconcile_of_child_example =
    updates-reconcile_of_child service (calm_env leaving) name no_calls leaving parent refl refl
      refl

-- A new organization is provisioned with its GUID, after a GetOrgStatus with it.
tenants_run :
    tenants (reconcile_organization service env name no_calls).1
    ≡ "0123abcd-0123-4567-89AB-0123456789ab" ∷ "0123abcd-0123-4567-89AB-0123456789ab" ∷ []
unfolding reconcile_organization reconcile_live_organization reconcile_present reconcile_tenant
    sync_organization ensure_finalizer resolve_instance_admin resolve_tenant_id guid_re
    adopt_or_provision provision_organization hex_run hyphen at_end resolve_secret_value dial
    get_import_id update_org_status_success reconcile_parent_dual_write leave_previous_parent
    parent_dual_write_enabled
tenants_run = refl
