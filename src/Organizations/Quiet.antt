-- ===== src/Organizations/Quiet.antt =====
-- The tenant ids in a log, and the parts of organization_controller.go that send none.
use invora_controller.Prelude.{
  String, ◌≡◌, inl, inr, Option, List, [], ◌∷◌, arith, All, Option-cases, codes,
}
use invora_controller.Api.{ResourceRef, Organization}
use invora_controller.Cluster.{Conn, Headers, Log, Env, rpcs}
use invora_controller.Tenant.{org_external_id}
use invora_controller.Tenant.Guid.{IsGuid}
use invora_controller.Base.{resolve_instance_admin, or_namespace}
use invora_controller.Resource.{conditions_of}
use invora_controller.Resource.Quiet.{
  rpcs-resolve_org_dependencies, rpcs-dial, rpcs-resolve_secret_value,
}
use invora_controller.Organizations.{
  OrgRpc, OrgService, get_org_status, provision_org, deprovision_org, create_customer,
  delete_customer, delete_parent_customer, leave_previous_parent, upsert_parent_customer,
  reconcile_parent_dual_write, organization_fields, dummy_organization, local_conditions,
}
use invora_controller.Organizations.Status.{report, update_org_status_success}

-- The tenant ids of the calls of BillingOrgAdminService.
abbrev pub tenant_ids : List (Option Conn × Headers × OrgRpc) → List String
tenant_ids [] = []
tenant_ids ((_, _, get_org_status id) ∷ calls) = id ∷ tenant_ids calls
tenant_ids ((_, _, provision_org id _) ∷ calls) = id ∷ tenant_ids calls
tenant_ids ((_, _, deprovision_org id) ∷ calls) = id ∷ tenant_ids calls
tenant_ids ((_, _, create_customer _ _) ∷ calls) = tenant_ids calls
tenant_ids ((_, _, delete_customer _) ∷ calls) = tenant_ids calls

abbrev pub tenants : Log Organization OrgRpc → List String
tenants l = tenant_ids (rpcs l)

-- Every tenant id of the log is a GUID.
abbrev pub GuidsOnly : Log Organization OrgRpc → Type 0
GuidsOnly l = All (λ id. IsGuid (codes id)) (tenants l)

module _ (svc : OrgService) (env : Env Organization OrgRpc) where
  pub rpcs-resolve_instance_admin :
      (ref : ResourceRef) (namespace : String) (l : Log Organization OrgRpc)
      → rpcs (resolve_instance_admin env ref namespace l).1 ≡ rpcs l
  unfolding resolve_instance_admin
  rpcs-resolve_instance_admin ref namespace l =
      grind (arith, rpcs-dial env, rpcs-resolve_secret_value env)

  pub tenants-delete_parent_customer :
      (ref : ResourceRef) (namespace id : String) (l : Log Organization OrgRpc)
      → tenants (delete_parent_customer svc env ref namespace id l).1 ≡ tenants l
  unfolding delete_parent_customer
  tenants-delete_parent_customer ref namespace id l =
      let ns = or_namespace ref.namespace namespace in
      ground (
        arith,
        rpcs-resolve_org_dependencies env ref (dummy_organization ns ref.name) local_conditions 0 l,
      )

  tenants-upsert_parent_customer :
      (ref : ResourceRef) (org : Organization) (l : Log Organization OrgRpc)
      → tenants (upsert_parent_customer svc env ref org l).1 ≡ tenants l
  unfolding upsert_parent_customer
  tenants-upsert_parent_customer ref org l = ground (
    arith,
    rpcs-resolve_org_dependencies env ref org (conditions_of organization_fields)
        org.meta.generation l,
  )

  tenants-leave_previous_parent :
      (org : Organization) (l : Log Organization OrgRpc)
      → tenants (leave_previous_parent svc env org l).1 ≡ tenants l
  unfolding leave_previous_parent
  tenants-leave_previous_parent org l = elim (Option-cases org.status.parent_org_ref) [
    | inl nowhere ↦ ground (arith, nowhere)
    | inr (previous, p) ↦ ground (
      arith,
      p,
      tenants-delete_parent_customer previous org.meta.namespace (org_external_id org) l,
    )
  ]

  tenants-reconcile_parent_dual_write :
      (org : Organization) (l : Log Organization OrgRpc)
      → tenants (reconcile_parent_dual_write svc env org l).1 ≡ tenants l
  unfolding reconcile_parent_dual_write
  tenants-reconcile_parent_dual_write org l =
      let left = leave_previous_parent svc env org l in
      elim (Option-cases left.0.1.spec.parent_org_ref) [
        | inl nowhere ↦ ground (arith, nowhere, tenants-leave_previous_parent org l)
        | inr (parent_ref, p) ↦ ground (
          arith,
          p,
          tenants-leave_previous_parent org l,
          tenants-upsert_parent_customer parent_ref left.0.1 left.1,
        )
      ]

  pub tenants-update_org_status_success :
      (org : Organization) (reason : String) (l : Log Organization OrgRpc)
      → tenants (update_org_status_success svc env org reason l).1 ≡ tenants l
  unfolding update_org_status_success report
  tenants-update_org_status_success org reason l =
      ground (arith, tenants-reconcile_parent_dual_write org l)
