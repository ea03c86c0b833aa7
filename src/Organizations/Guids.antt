-- ===== src/Organizations/Guids.antt =====
-- The organization reconciler sends only GUIDs as tenant ids.
use invora_controller.Prelude.{
  String, ◌≡◌, inl, inr, true, false, some, ◌∷◌, arith, Bool-cases, Option-cases, ◌==◌, ◌&&◌, ◌||◌,
  not, eq_iff, codes,
}
use invora_controller.Go.{Error, Result-cases}
use invora_controller.Api.{
  ResourceRef, NamespacedName, Organization, is_deleted, deletion_policy_delete,
}
use invora_controller.Cluster.{Call, Kind, Log, Env, rpcs}
use invora_controller.Tenant.{resolve_tenant_id, org_external_id}
use invora_controller.Tenant.Guid.{IsGuid}
use invora_controller.Base.{
  resolve_instance_admin, get_import_id, admin_grpc_ctx, is_grpc_not_found,
}
use invora_controller.Resource.{ensure_finalizer, finish_deletion, set_object_condition}
use invora_controller.Resource.Quiet.{rpcs-ensure_finalizer, rpcs-finish_deletion}
use invora_controller.Organizations.{
  OrgRpc, OrgService, deprovision_org, delete_parent_customer, forget_parent,
}
use invora_controller.Organizations.Reconcile.{
  has_tenant, reconcile_tenant, reconcile_present, deprovision_tenant, reconcile_live_organization,
  deprovision_organization, handle_deletion, reconcile_organization,
}
use invora_controller.Organizations.Status.{set_org_condition, report}
use invora_controller.Organizations.Tenants.{
  resolve_tenant_id-IsGuid, tenants-skip_organization, GuidsOnly-sync_organization,
}
use invora_controller.Organizations.Quiet.{
  GuidsOnly, rpcs-resolve_instance_admin, tenants-delete_parent_customer,
}

module _ (svc : OrgService) (env : Env Organization OrgRpc) where
  keep : (l l' : Log Organization OrgRpc) → rpcs l' ≡ rpcs l → GuidsOnly l → GuidsOnly l'
  keep l l' same h = rw same h

  GuidsOnly-reconcile_tenant :
      (org : Organization) (l : Log Organization OrgRpc)
      → (org.status.organization_id ≡ ""
          → get_import_id org.meta ≡ ""
          → has_tenant (resolve_tenant_id org) ≡ true)
      → GuidsOnly l
      → GuidsOnly (reconcile_tenant svc env org l).1
  unfolding reconcile_tenant set_org_condition set_object_condition resolve_instance_admin
  GuidsOnly-reconcile_tenant org l wanted h =
      let r = resolve_instance_admin env org.spec.instance_ref org.meta.namespace l in
      let quiet = rpcs-resolve_instance_admin svc env org.spec.instance_ref org.meta.namespace l in
      elim (Result-cases r.0) [
        | inl (e, p) ↦ rw p (keep l r.1 quiet h)
        | inr (inst, p) ↦ rw p (
            GuidsOnly-sync_organization svc env inst _ _ r.1
              (λ unknown none_given. resolve_tenant_id-IsGuid org (
                wanted ((eq_iff org.status.organization_id "").0 unknown)
                  ((eq_iff (get_import_id org.meta) "").0 none_given)))
              (keep l r.1 quiet h))
      ]

  GuidsOnly-reconcile_present :
      (org : Organization) (l : Log Organization OrgRpc)
      → GuidsOnly l
      → GuidsOnly (reconcile_present svc env org l).1
  unfolding reconcile_present
  GuidsOnly-reconcile_present org l h =
      elim (Bool-cases (
        not (has_tenant (resolve_tenant_id org))
        && org.status.organization_id == ""
        && get_import_id org.meta == "")) [
          | inl skipped ↦ rw (skipped, tenants-skip_organization svc env org l) h
          | inr wanted ↦ rw wanted (
              GuidsOnly-reconcile_tenant org l
                (λ unknown none_given. ground (
                  arith,
                  wanted,
                  unknown,
                  none_given,
                  eq_iff org.status.organization_id "",
                  eq_iff (get_import_id org.meta) "",
                ))
                h)
        ]

  GuidsOnly-deprovision_tenant :
      (id : String) (org : Organization) (l : Log Organization OrgRpc)
      → IsGuid (codes id)
      → GuidsOnly l
      → GuidsOnly (deprovision_tenant svc env id org l).1
  unfolding deprovision_tenant report
  GuidsOnly-deprovision_tenant id org l guid h =
      let r = resolve_instance_admin env org.spec.instance_ref org.meta.namespace l in
      let quiet = rpcs-resolve_instance_admin svc env org.spec.instance_ref org.meta.namespace l in
      elim (Result-cases r.0) [
        | inl (e, p) ↦
            let same : rpcs (deprovision_tenant svc env id org l).1 ≡ rpcs r.1 =
              ground (arith, p) in
            rw same (keep l r.1 quiet h)
        | inr (inst, p) ↦
            let l1 = Call.rpc (some inst.conn) (admin_grpc_ctx inst) (deprovision_org id) ∷ r.1 in
            let h1 : GuidsOnly l1 = (guid, keep l r.1 quiet h) in
            let done =
              keep l1 (finish_deletion env org l1).1 (rpcs-finish_deletion env org l1) h1 in
            elim (Option-cases (svc.deprovision_org id l1)) [
              | inl gone ↦
                  let same : deprovision_tenant svc env id org l ≡ finish_deletion env org l1 =
                    ground (arith, p, gone) in
                  rw same done
              | inr (e, q) ↦ elim (Bool-cases (is_grpc_not_found e)) [
                | inl missing ↦
                    let same : deprovision_tenant svc env id org l ≡ finish_deletion env org l1 =
                      ground (arith, p, q, missing) in
                    rw same done
                | inr other ↦
                    let same : rpcs (deprovision_tenant svc env id org l).1 ≡ rpcs l1 =
                      ground (arith, p, q, other) in
                    rw same h1
              ]
            ]
      ]

  GuidsOnly-deprovision_organization :
      (org : Organization) (l : Log Organization OrgRpc)
      → GuidsOnly l
      → GuidsOnly (deprovision_organization svc env org l).1
  unfolding deprovision_organization
  GuidsOnly-deprovision_organization org l h =
      elim (Bool-cases (
        (org.spec.deletion_policy == deletion_policy_delete || org.spec.deletion_policy == "")
        && not (org.status.organization_id == "")
        && has_tenant (resolve_tenant_id org))) [
          | inr nothing ↦
              rw nothing (keep l (finish_deletion env org l).1 (rpcs-finish_deletion env org l) h)
          | inl remote ↦ rw remote (
              GuidsOnly-deprovision_tenant _ org l
                (resolve_tenant_id-IsGuid org (ground (arith, remote))) h)
        ]

  handle_deletion_blocked :
      (org : Organization) (parent_ref : ResourceRef) (e : Error) (l : Log Organization OrgRpc)
      → org.status.parent_org_ref ≡ some parent_ref
      → (delete_parent_customer svc env parent_ref org.meta.namespace (org_external_id org) l).0
        ≡ some e
      → rpcs (handle_deletion svc env org l).1
        ≡ rpcs
            (delete_parent_customer svc env parent_ref org.meta.namespace (org_external_id org) l).1
  unfolding handle_deletion report
  handle_deletion_blocked org parent_ref e l p q = ground (arith, p, q)

  GuidsOnly-handle_deletion :
      (org : Organization) (l : Log Organization OrgRpc)
      → GuidsOnly l
      → GuidsOnly (handle_deletion svc env org l).1
  unfolding handle_deletion
  GuidsOnly-handle_deletion org l h = elim (Option-cases org.status.parent_org_ref) [
    | inl nowhere ↦
        let e : handle_deletion svc env org l ≡ deprovision_organization svc env org l =
          ground (arith, nowhere) in
        rw e (GuidsOnly-deprovision_organization org l h)
    | inr (parent_ref, p) ↦
        let r =
          delete_parent_customer svc env parent_ref org.meta.namespace (org_external_id org) l in
        let same =
          tenants-delete_parent_customer svc env parent_ref org.meta.namespace (org_external_id org)
            l in
        elim (Option-cases r.0) [
          | inr (e, q) ↦ rw (handle_deletion_blocked org parent_ref e l p q) (rw same h)
          | inl gone ↦
              let e : handle_deletion svc env org l
                  ≡ deprovision_organization svc env (forget_parent org) r.1 =
                ground (arith, p, gone) in
              rw e (GuidsOnly-deprovision_organization (forget_parent org) r.1 (rw same h))
        ]
  ]

  GuidsOnly-reconcile_live_organization :
      (org : Organization) (l : Log Organization OrgRpc)
      → GuidsOnly l
      → GuidsOnly (reconcile_live_organization svc env org l).1
  unfolding reconcile_live_organization
  GuidsOnly-reconcile_live_organization org l h =
      let added = ensure_finalizer env org l in
      let h1 = keep l added.1 (rpcs-ensure_finalizer env org l) h in
      elim (Result-cases added.0.0) [
        | inl (e, q) ↦
            let same : (reconcile_live_organization svc env org l).1 ≡ added.1 =
              ground (arith, q) in
            rw same h1
        | inr (true, q) ↦
            let same : (reconcile_live_organization svc env org l).1 ≡ added.1 =
              ground (arith, q) in
            rw same h1
        | inr (false, q) ↦
            let same : reconcile_live_organization svc env org l
                ≡ reconcile_present svc env added.0.1 added.1 =
              ground (arith, q) in
            rw same (GuidsOnly-reconcile_present added.0.1 added.1 h1)
      ]

  -- From a log in which every GetOrgStatus, ProvisionOrg and DeprovisionOrg has a GUID as its tenant
  -- id, a reconcile of an organization ends with such a log, whatever the API server and the gateway
  -- answer.
  pub reconcile_organization-GuidsOnly :
      (name : NamespacedName) (l : Log Organization OrgRpc)
      → GuidsOnly l
      → GuidsOnly (reconcile_organization svc env name l).1
  unfolding reconcile_organization
  reconcile_organization-GuidsOnly name l h =
      let l1 = Call.get Kind.own_kind name ∷ l in
      elim (Result-cases (env.get_own l name)) [
        | inl (e, p) ↦ rw p h
        | inr (org, p) ↦ elim (Bool-cases (is_deleted org.meta)) [
          | inl deleted ↦ rw (p, deleted) (GuidsOnly-handle_deletion org l1 h)
          | inr live ↦ rw (p, live) (GuidsOnly-reconcile_live_organization org l1 h)
        ]
      ]
