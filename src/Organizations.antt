-- ===== src/Organizations.antt =====
-- internal/controller/organization_controller.go: the calls of the organization reconciler, and the
-- dual write of a tenant as a customer of its parent org.
pub mod Status
pub mod Reconcile
pub mod Quiet
pub mod Tenants
pub mod Guids
pub mod Parents
use invora_controller.Prelude.{
  ℕ, String, ◌<>◌, Bool, true, false, Option, none, some, List, [], ◌∷◌, ◌==◌, ◌||◌, not,
  if◌then◌else◌,
}
use invora_controller.Go.{Error, errorf, wrap, Result, ok, err, M, ◌>>=◌, ◌>>◌, pure}
use invora_controller.Api.{ResourceRef, Organization, OrganizationStatus, BillingResourceStatus}
use invora_controller.Cluster.{Call, Log, Env}
use invora_controller.Tenant.{parent_dual_write_enabled, org_external_id}
use invora_controller.Base.{
  Conditions, InstanceContext, admin_grpc_ctx, is_grpc_not_found, or_namespace,
}
use invora_controller.Resource.{
  StatusFields, conditions_of, resolved, not_ready, resolve_org_dependencies,
}
use invora_controller.Catalog.{call}

-- The calls of BillingOrgAdminService, and those of CustomersService on a parent.
pub data OrgRpc : Type 0 where
  get_org_status : String → OrgRpc
  provision_org : String → String → OrgRpc
  deprovision_org : String → OrgRpc
  create_customer : String → String → OrgRpc
  delete_customer : String → OrgRpc

pub record OrgService : Type 0 where
  pub get_org_status : String → Log Organization OrgRpc → Result String
  pub provision_org : String → String → Log Organization OrgRpc → Result String
  pub deprovision_org : String → Log Organization OrgRpc → Option Error
  pub create_customer : String → String → Log Organization OrgRpc → Result String
  pub delete_customer : String → Log Organization OrgRpc → Option Error

abbrev pub organization_fields : StatusFields OrganizationStatus
organization_fields = record { base = λ t. t.base; store = λ b t. record t { base = b } }

-- `var conds []metav1.Condition`, of which nothing is read later.
abbrev pub local_conditions : Conditions OrganizationStatus
local_conditions = record { read = λ t. []; store = λ cs t. t }

-- A new object with a namespace and a name.
abbrev pub dummy_organization : String → String → Organization
dummy_organization namespace name = record {
  meta = record {
    name = name;
    namespace = namespace;
    generation = 0;
    deletion_timestamp = none;
    finalizers = [];
    annotations = [];
    labels = [];
  };
  spec = record {
    instance_ref = record { name = ""; namespace = "" };
    deletion_policy = "";
    name = "";
    email = "";
    timezone = "";
    document_numbering = "";
    parent_org_ref = none;
    enable_parent_dual_write = none;
    external_id = "";
  };
  status = record {
    base = record { id = ""; observed_generation = 0; conditions = []; last_synced_at = none };
    organization_id = "";
    parent_org_ref = none;
    parent_customer_id = none;
  };
}

abbrev pub forget_parent : Organization → Organization
forget_parent org = record org {
  status = record (org.status) { parent_org_ref = none; parent_customer_id = none };
}

abbrev pub remember_parent : ResourceRef → String → Organization → Organization
remember_parent parent customer_id org = record org {
  status = record (org.status) {
    parent_org_ref = some parent;
    parent_customer_id = some customer_id;
  };
}

-- One call through the context of the instance.
abbrev pub admin_call : {O Q A : Type 0} → InstanceContext → Q → (Log O Q → A) → M (Log O Q) A
admin_call inst q answer l =
    let l' = Call.rpc (some inst.conn) (admin_grpc_ctx inst) q ∷ l in (answer l', l')

-- Whether the parent of the status is no longer the one to write to.
unfoldable pub parent_changed : Organization → ResourceRef → Bool
parent_changed org previous = not (parent_dual_write_enabled org) || elim org.spec.parent_org_ref [
  | none ↦ true
  | some parent ↦ not (previous.name == parent.name) || not (previous.namespace == parent.namespace)
]

module _ (svc : OrgService) (env : Env Organization OrgRpc) where
  abbrev State : Type 0
  State = Log Organization OrgRpc

  unfoldable pub delete_parent_customer : ResourceRef → String → String → M State (Option Error)
  delete_parent_customer parent_ref default_namespace external_id = do
    let ns = or_namespace parent_ref.namespace default_namespace
    (deps, _) ←
        resolve_org_dependencies env parent_ref (dummy_organization ns parent_ref.name)
          local_conditions 0
    elim deps [
      | not_ready _ ↦
          pure (
            some
              (errorf ("resolving parent org " <> ns <> "/" <> parent_ref.name <> ": not ready")))
      | resolved orc ↦ do
        e ← call orc (OrgRpc.delete_customer external_id) (svc.delete_customer external_id)
        elim e [
          | none ↦ pure none
          | some e ↦ if is_grpc_not_found e then pure none else pure (some e)
        ]
    ]

  -- The clean-up of the parent that the status remembers.
  unfoldable pub leave_previous_parent : Organization → M State (Option Error × Organization)
  leave_previous_parent org = elim org.status.parent_org_ref [
    | none ↦ pure (none, org)
    | some previous ↦
        if parent_changed org previous
        then (do
          e ← delete_parent_customer previous org.meta.namespace (org_external_id org)
          elim e [
            | some e ↦ pure (some (wrap "deleting customer from previous parent" e), org)
            | none ↦ pure (none, forget_parent org)
          ])
        else pure (none, org)
  ]

  unfoldable pub upsert_parent_customer :
      ResourceRef → Organization → M State (Option Error × Organization)
  upsert_parent_customer parent_ref org = do
    (deps, org) ←
        resolve_org_dependencies env parent_ref org (conditions_of organization_fields)
          org.meta.generation
    elim deps [
      | not_ready _ ↦ pure (
        some (
            errorf (
              "resolving parent org " <> parent_ref.namespace <> "/" <> parent_ref.name
              <> ": dependencies not ready")),
        org,
      )
      | resolved orc ↦ do
        let external_id = org_external_id org
        created ←
            call orc (OrgRpc.create_customer external_id org.spec.name)
              (svc.create_customer external_id org.spec.name)
        elim created [
          | err e ↦ pure (some (wrap "upserting customer in parent org" e), org)
          | ok customer_id ↦ pure (none, remember_parent parent_ref customer_id org)
        ]
    ]

  unfoldable pub reconcile_parent_dual_write : Organization → M State (Option Error × Organization)
  reconcile_parent_dual_write org = do
    let desired = parent_dual_write_enabled org
    (e, org) ← leave_previous_parent org
    elim e [
      | some e ↦ pure (some e, org)
      | none ↦ if not desired then pure (none, org) else elim org.spec.parent_org_ref [
        | none ↦ pure (none, org)
        | some parent_ref ↦ upsert_parent_customer parent_ref org
      ]
    ]
