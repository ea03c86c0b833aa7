-- ===== src/Organizations/Tenants.antt =====
-- The tenant ids that the organization reconciler sends.
use invora_controller.Prelude.{
  String, ◌≡◌, refl, ◌⊎◌, inl, inr, true, some, ◌∷◌, arith, Bool-cases, eqb, ◌==◌, codes,
  trim_space,
}
use invora_controller.Go.{
  Error, Result-cases, Outcome, status_code, code_not_found, code_already_exists,
}
use invora_controller.Api.{Organization, ConditionStatus}
use invora_controller.Cluster.{Call, Log, Env, rpcs}
use invora_controller.Tenant.{guid_re, resolve_tenant_id}
use invora_controller.Tenant.Guid.{IsGuid, guid_re_iff}
use invora_controller.Base.{InstanceContext, get_import_id, clear_import_id, admin_grpc_ctx}
use invora_controller.Organizations.{OrgRpc, OrgService, get_org_status, provision_org}
use invora_controller.Organizations.Reconcile.{
  has_tenant, tenant_text, set_organization_id, import_organization, create_failed,
  provision_organization, adopt_or_provision, sync_organization,
}
use invora_controller.Organizations.Status.{report, skip_organization}
use invora_controller.Organizations.Quiet.{tenants, GuidsOnly, tenants-update_org_status_success}

pub resolve_tenant_id-IsGuid :
    (org : Organization)
    → has_tenant (resolve_tenant_id org) ≡ true
    → IsGuid (codes (tenant_text (resolve_tenant_id org)))
unfolding resolve_tenant_id
resolve_tenant_id-IsGuid org h =
    elim (Bool-cases (guid_re (codes (trim_space org.spec.external_id)))) [
      | inl guid ↦ rw guid ((guid_re_iff _).0 guid)
      | inr other ↦ absurd (ground (arith, h, other))
    ]

module _ (svc : OrgService) (env : Env Organization OrgRpc) where
  tenants-import_organization :
      (org : Organization) (id : String) (l : Log Organization OrgRpc)
      → tenants (import_organization svc env org id l).1 ≡ tenants l
  unfolding import_organization
  tenants-import_organization org id l =
      let org' = record (set_organization_id id org) { meta = clear_import_id org.meta } in
      elim (Result-cases (env.update l org')) [
        | inl (e, p) ↦ ground (arith, p)
        | inr (written, p) ↦ ground (
          arith,
          p,
          tenants-update_org_status_success svc env written "Imported" (Call.update org' ∷ l),
        )
      ]

  pub tenants-skip_organization :
      (org : Organization) (l : Log Organization OrgRpc)
      → tenants (skip_organization svc env org l).1 ≡ tenants l
  unfolding skip_organization
  tenants-skip_organization org l = ground arith

  pub rpcs-report :
      (org : Organization) (name : String) (status : ConditionStatus) (reason message : String)
      (outcome : Outcome) (l : Log Organization OrgRpc)
      → rpcs (report svc env org name status reason message outcome l).1 ≡ rpcs l
  unfolding report
  rpcs-report org name status reason message outcome l = refl

  -- One of the calls of BillingOrgAdminService
  abbrev asked : InstanceContext → OrgRpc → Log Organization OrgRpc → Log Organization OrgRpc
  asked inst q l = Call.rpc (some inst.conn) (admin_grpc_ctx inst) q ∷ l

  tenants-create_failed :
      (org : Organization) (e : Error) (l : Log Organization OrgRpc)
      → tenants (create_failed svc env org e l).1 ≡ tenants l
  unfolding create_failed
  tenants-create_failed org e l = refl

  tenants-provision_organization :
      (inst : InstanceContext) (id : String) (org : Organization) (l : Log Organization OrgRpc)
      → (tenants (provision_organization svc env inst id org l).1 ≡ id ∷ tenants l)
        ⊎ (tenants (provision_organization svc env inst id org l).1 ≡ id ∷ (id ∷ tenants l))
  unfolding provision_organization
  tenants-provision_organization inst id org l =
      let l1 = asked inst (provision_org id org.spec.name) l in
      let l2 = asked inst (get_org_status id) l1 in
      elim (Result-cases (svc.provision_org id org.spec.name l1)) [
        | inr (new, p) ↦ inl (
            ground (
              arith,
              p,
              tenants-update_org_status_success svc env (set_organization_id new org) "Created" l1,
            ))
        | inl (e, p) ↦ elim (Bool-cases (eqb (status_code e) code_already_exists)) [
          | inr other ↦ inl (ground (arith, p, other, tenants-create_failed org e l1))
          | inl exists ↦ elim (Result-cases (svc.get_org_status id l2)) [
            | inl (e', q) ↦ inr (ground (arith, p, exists, q, tenants-create_failed org e l2))
            | inr (found, q) ↦ inr (
                ground (
                  arith,
                  p,
                  exists,
                  q,
                  tenants-update_org_status_success svc env (set_organization_id found org)
                      "Adopted" l2,
                ))
          ]
        ]
      ]

  GuidsOnly-provision_organization :
      (inst : InstanceContext) (id : String) (org : Organization) (l : Log Organization OrgRpc)
      → IsGuid (codes id)
      → GuidsOnly l
      → GuidsOnly (provision_organization svc env inst id org l).1
  GuidsOnly-provision_organization inst id org l guid h =
      elim (tenants-provision_organization inst id org l) [
        | inl once ↦ rw once (guid, h)
        | inr twice ↦ rw twice (guid, (guid, h))
      ]

  GuidsOnly-adopt_or_provision :
      (inst : InstanceContext) (id : String) (org : Organization) (l : Log Organization OrgRpc)
      → IsGuid (codes id)
      → GuidsOnly l
      → GuidsOnly (adopt_or_provision svc env inst id org l).1
  unfolding adopt_or_provision
  GuidsOnly-adopt_or_provision inst id org l guid h =
      let l1 = asked inst (get_org_status id) l in
      elim (Result-cases (svc.get_org_status id l1)) [
        | inr (found, p) ↦
            rw
              (
                p,
                tenants-update_org_status_success svc env (set_organization_id found org) "Adopted"
                    l1,
              )
              (guid, h)
        | inl (e, p) ↦ elim (Bool-cases (eqb (status_code e) code_not_found)) [
          | inl absent ↦
              rw (p, absent) (GuidsOnly-provision_organization inst id org l1 guid (guid, h))
          | inr other ↦ rw (p, other) (guid, h)
        ]
      ]

  pub GuidsOnly-sync_organization :
      (inst : InstanceContext) (id : String) (org : Organization) (l : Log Organization OrgRpc)
      → ((org.status.organization_id == "") ≡ true
          → (get_import_id org.meta == "") ≡ true
          → IsGuid (codes id))
      → GuidsOnly l
      → GuidsOnly (sync_organization svc env inst id org l).1
  unfolding sync_organization
  GuidsOnly-sync_organization inst id org l guid h =
      elim (Bool-cases (get_import_id org.meta == "")) [
        | inr given ↦ rw (given, tenants-import_organization org (get_import_id org.meta) l) h
        | inl none_given ↦ elim (Bool-cases (org.status.organization_id == "")) [
          | inr known ↦
              rw (none_given, known, tenants-update_org_status_success svc env org "InSync" l) h
          | inl unknown ↦
              rw (none_given, unknown)
                (GuidsOnly-adopt_or_provision inst id org l (guid unknown none_given) h)
        ]
      ]
