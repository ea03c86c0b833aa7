-- ===== src/Organizations/Parents.antt =====
-- The finalizer of an organization, and its customer record in the parent.
use invora_controller.Prelude.{
  inl, inr, String, ◌≡◌, refl, ◌⊎◌, true, none, some, ◌∷◌, arith, Bool-cases, Option-cases,
}
use invora_controller.Go.{Error, ok}
use invora_controller.Api.{ResourceRef, NamespacedName, Organization, is_deleted}
use invora_controller.Cluster.{Call, Kind, Log, Env, updates}
use invora_controller.Tenant.{org_external_id}
use invora_controller.Base.{OrgContext, grpc_ctx, is_grpc_not_found, or_namespace}
use invora_controller.Resource.{Dependencies-cases, resolve_org_dependencies}
use invora_controller.Resource.Quiet.{updates-resolve_org_dependencies}
use invora_controller.Organizations.{
  OrgRpc, OrgService, dummy_organization, local_conditions, delete_parent_customer,
}
use invora_controller.Organizations.Reconcile.{handle_deletion, reconcile_organization}
use invora_controller.Organizations.Status.{report}

module _ (svc : OrgService) (env : Env Organization OrgRpc) where
  updates-delete_parent_customer :
      (ref : ResourceRef) (namespace id : String) (l : Log Organization OrgRpc)
      → updates (delete_parent_customer svc env ref namespace id l).1 ≡ updates l
  unfolding delete_parent_customer
  updates-delete_parent_customer ref namespace id l =
      let ns = or_namespace ref.namespace namespace in
      ground (
        arith,
        updates-resolve_org_dependencies env ref (dummy_organization ns ref.name) local_conditions 0
            l,
      )

  -- The gateway has answered the DeleteCustomer of an id, the last call of a log, with no error or
  -- with NotFound.
  abbrev pub IsCustomerGone : String → Type 0
  IsCustomerGone id =
      (orc : OrgContext) × (l : Log Organization OrgRpc) × (at : Log Organization OrgRpc) × (at
        ≡ Call.rpc orc.conn (grpc_ctx orc) (OrgRpc.delete_customer id) ∷ l)
      × ((svc.delete_customer id at ≡ none)
          ⊎ ((e : Error) × (svc.delete_customer id at ≡ some e) × (is_grpc_not_found e ≡ true)))

  delete_parent_customer-IsCustomerGone :
      (ref : ResourceRef) (namespace id : String) (l : Log Organization OrgRpc)
      → (delete_parent_customer svc env ref namespace id l).0 ≡ none
      → IsCustomerGone id
  unfolding delete_parent_customer
  delete_parent_customer-IsCustomerGone ref namespace id l h =
      let ns = or_namespace ref.namespace namespace in
      let deps =
        resolve_org_dependencies env ref (dummy_organization ns ref.name) local_conditions 0 l in
      elim (Dependencies-cases deps.0.0) [
        | inl (result, p) ↦ absurd (ground (arith, p, h))
        | inr (orc, p) ↦
            let asked : Log Organization OrgRpc =
              Call.rpc orc.conn (grpc_ctx orc) (OrgRpc.delete_customer id) ∷ deps.1 in
            elim (Option-cases (svc.delete_customer id asked)) [
              | inl gone ↦ (orc, deps.1, asked, refl, inl gone)
              | inr (e, failed) ↦ elim (Bool-cases (is_grpc_not_found e)) [
                | inl missing ↦ (orc, deps.1, asked, refl, inr (e, failed, missing))
                | inr other ↦ absurd (ground (arith, p, failed, other, h))
              ]
            ]
      ]

  updates-handle_deletion :
      (org : Organization) (parent_ref : ResourceRef) (l : Log Organization OrgRpc)
      → org.status.parent_org_ref ≡ some parent_ref
      → (updates (handle_deletion svc env org l).1 ≡ updates l)
        ⊎ IsCustomerGone (org_external_id org)
  unfolding handle_deletion report
  updates-handle_deletion org parent_ref l p =
      let id = org_external_id org in
      let same = updates-delete_parent_customer parent_ref org.meta.namespace id l in
      elim (Option-cases (delete_parent_customer svc env parent_ref org.meta.namespace id l).0) [
        | inl gone ↦
            inr (delete_parent_customer-IsCustomerGone parent_ref org.meta.namespace id l gone)
        | inr (e, failed) ↦ inl (ground (arith, p, failed, same))
      ]

  -- The reconcile of an organization that is being deleted, and whose status names a parent, updates
  -- the organization, which is how its finalizer is removed, only after the gateway has answered the
  -- DeleteCustomer of its external id with no error or NotFound.
  pub updates-reconcile_of_child :
      (name : NamespacedName) (l : Log Organization OrgRpc) (org : Organization)
      (parent_ref : ResourceRef)
      → env.get_own l name ≡ ok org
      → is_deleted org.meta ≡ true
      → org.status.parent_org_ref ≡ some parent_ref
      → (updates (reconcile_organization svc env name l).1 ≡ updates l)
        ⊎ IsCustomerGone (org_external_id org)
  unfolding reconcile_organization
  updates-reconcile_of_child name l org parent_ref got deleted p =
      rw (got, deleted) (updates-handle_deletion org parent_ref (Call.get Kind.own_kind name ∷ l) p)
