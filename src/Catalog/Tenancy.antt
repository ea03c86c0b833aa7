-- ===== src/Catalog/Tenancy.antt =====
-- The organization for which a reconcile of a catalog resource calls the gateway.
use invora_controller.Prelude.{
  inl, inr, String, ◌≡◌, true, Option, none, some, ◌∷◌, ◌==◌, arith, All, lookup, if◌then◌else◌,
  Bool-cases, ℕ,
}
use invora_controller.Go.{ok, Result-cases}
use invora_controller.Api.{
  NamespacedName, Cr, CatalogStatus, ResourceRef, Organization, is_deleted, finalizer_name,
}
use invora_controller.Cluster.{Headers, Call, Kind, Log, Env, rpcs}
use invora_controller.Tenant.{org_acting_id}
use invora_controller.Base.{
  OrgContext, Conditions, grpc_ctx, or_namespace, is_ready, is_grpc_not_found,
}
use invora_controller.AdoptByCode.Walk.{scan_keeps}
use invora_controller.Resource.{
  conditions_of, resolved, resolve_org_dependencies, Dependencies-cases, ensure_finalizer,
  handle_grpc_deletion, finish_deletion, set_object_condition,
}
use invora_controller.Resource.Quiet.{rpcs-resolve_org_dependencies}
use invora_controller.Catalog.{
  CatalogRpc, Service, Catalog, AdoptStrategy, never, by_list, by_scan, probe_page, find_existing,
  update_remote, catalog_fields, forget_external_id, get_record,
}
use invora_controller.Catalog.Finalizers.{rpcs-reconcile_live_fresh}
use invora_controller.Catalog.Reconcile.{
  fail_synced, finish_sync, import_existing, create_record, adopt_or_create, sync_existing,
  sync_record, delete_record, reconcile_resolved, reconcile_live, reconcile,
}

-- The org that the metadata of a call asks the gateway to act as.
abbrev pub acting_org : Headers → Option String
acting_org headers = lookup "x-zitadel-orgid" headers

pub acting_org-grpc_ctx :
    (orc : OrgContext)
    → acting_org (grpc_ctx orc) ≡ (if orc.org_id == "" then none else some orc.org_id)
unfolding grpc_ctx
acting_org-grpc_ctx orc = ground arith

module _ {S T Q : Type 0} (env : Env (Cr S T) Q) where
  -- An organization that the API server has answered, ready, for the reference of an object.
  abbrev pub Refers : ResourceRef → String → Organization → Type 0
  Refers ref namespace org =
      (at : Log (Cr S T) Q) × (env.get_organization at
          (record { namespace = or_namespace ref.namespace namespace; name = ref.name })
        ≡ ok org)
      × (is_ready env org.status.base.conditions ≡ true)

  pub resolve_org_dependencies-Refers :
      (ref : ResourceRef) (o : Cr S T) (conditions : Conditions T) (generation : ℕ)
      (l : Log (Cr S T) Q) (orc : OrgContext)
      → (resolve_org_dependencies env ref o conditions generation l).0.0 ≡ resolved orc
      → (org : Organization) × Refers ref o.meta.namespace org × (orc.org_id ≡ org_acting_id org)
  unfolding resolve_org_dependencies
  resolve_org_dependencies-Refers ref o conditions generation l orc h =
      elim (Result-cases (
        env.get_organization l
          (record { namespace = or_namespace ref.namespace o.meta.namespace; name = ref.name }))) [
            | inl (e, p) ↦ absurd (ground (arith, h, p))
            | inr (org, p) ↦ elim (Bool-cases (is_ready env org.status.base.conditions)) [
              | inl r ↦ (org, (l, p, r), ground (arith, h, p, r))
              | inr r ↦ absurd (ground (arith, h, p, r))
            ]
          ]

module _ {S C U : Type 0} (k : Catalog S C U) (svc : Service (Cr S CatalogStatus) C U)
    (env : Env (Cr S CatalogStatus) (CatalogRpc C U)) where
  abbrev State : Type 0
  State = Log (Cr S CatalogStatus) (CatalogRpc C U)

  -- What holds of every call through the context of an organization stays true of all calls.
  module _ (P : Headers → Type 0) where
    abbrev Calls : State → Type 0
    Calls l = All (λ c. P c.1) (rpcs l)

    module _ (orc : OrgContext) (fits : P (grpc_ctx orc)) where
      Calls-probe_page :
          (key cursor : String) (l : State) → Calls l → Calls (probe_page k svc orc key cursor l).1
      unfolding probe_page
      Calls-probe_page key cursor l h = ground (arith, fits)

      Calls-find_existing :
          (s : AdoptStrategy) (key : String) (l : State)
          → Calls l
          → Calls (find_existing k svc s orc key l).1
      unfolding find_existing
      Calls-find_existing never key l h = h
      Calls-find_existing by_list key l h = ground (arith, fits)
      Calls-find_existing by_scan key l h =
          ground (arith, scan_keeps key (probe_page k svc orc key) Calls (Calls-probe_page key) l h)

      Calls-adopt_or_create :
          (o : Cr S CatalogStatus) (l : State)
          → Calls l
          → Calls (adopt_or_create k svc env orc o l).1
      unfolding adopt_or_create fail_synced finish_sync create_record
      Calls-adopt_or_create o l h =
          ground (arith, fits, Calls-find_existing k.strategy (k.key o.spec) l h)

      Calls-sync_existing :
          (o : Cr S CatalogStatus) (l : State) → Calls l → Calls (sync_existing k svc env orc o l).1
      unfolding sync_existing fail_synced finish_sync update_remote
      Calls-sync_existing o l h = ground (arith, fits)

      Calls-sync_record :
          (o : Cr S CatalogStatus) (l : State) → Calls l → Calls (sync_record k svc env orc o l).1
      unfolding sync_record fail_synced
      Calls-sync_record o l h =
          let asked = Call.rpc orc.conn (grpc_ctx orc) (get_record (k.get_key o)) ∷ l in
          ground (
            arith,
            fits,
            Calls-sync_existing o asked,
            Calls-adopt_or_create o l h,
            Calls-adopt_or_create (forget_external_id o) asked,
          )

      Calls-reconcile_resolved :
          (o : Cr S CatalogStatus) (l : State)
          → Calls l
          → Calls (reconcile_resolved k svc env orc o l).1
      unfolding reconcile_resolved import_existing finish_sync
      Calls-reconcile_resolved o l h = ground (arith, Calls-sync_record o l h)

  -- A call made for an object acts as the organization that its reference names, where that
  -- organization is a tenant, and names no organization where it is none.
  abbrev pub ActsFor : Cr S CatalogStatus → Headers → Type 0
  ActsFor o headers =
      (org : Organization) × Refers env (k.organization_ref o.spec) o.meta.namespace org
      × (acting_org headers ≡ (if org_acting_id org == "" then none else some (org_acting_id org)))

  -- The calls of a log, each made for the object.
  abbrev pub AllActFor : Cr S CatalogStatus → State → Type 0
  AllActFor o l = All (λ c. ActsFor o c.1) (rpcs l)

  ActsFor-grpc_ctx :
      (o : Cr S CatalogStatus) (l : State) (orc : OrgContext)
      → (resolve_org_dependencies env
          (k.organization_ref o.spec)
          o
          (conditions_of catalog_fields)
          o.meta.generation
          l).0.0
        ≡ resolved orc
      → ActsFor o (grpc_ctx orc)
  ActsFor-grpc_ctx o l orc h =
      let (org, refers, same) =
        resolve_org_dependencies-Refers env (k.organization_ref o.spec) o
          (conditions_of catalog_fields) o.meta.generation l orc h in
      (org, refers, ground (arith, acting_org-grpc_ctx orc, same))

  AllActFor-delete_record :
      (o : Cr S CatalogStatus) (l : State)
      → AllActFor o l
      → AllActFor o (delete_record k svc env o l).1
  unfolding delete_record handle_grpc_deletion set_object_condition finish_deletion
      is_grpc_not_found
  AllActFor-delete_record o l h =
      let deps =
        resolve_org_dependencies env (k.organization_ref o.spec) o (conditions_of catalog_fields)
          o.meta.generation l in
      let quiet : rpcs deps.1 ≡ rpcs l =
        rpcs-resolve_org_dependencies env (k.organization_ref o.spec) o
          (conditions_of catalog_fields) o.meta.generation l in
      elim (Dependencies-cases deps.0.0) [
        | inl (result, p) ↦ ground (arith, h, quiet, p)
        | inr (orc, p) ↦ ground (arith, h, quiet, p, ActsFor-grpc_ctx o l orc p)
      ]

  AllActFor-reconcile_live :
      (o : Cr S CatalogStatus) (l : State)
      → AllActFor o l
      → AllActFor o (reconcile_live k svc env o l).1
  unfolding reconcile_live ensure_finalizer
  AllActFor-reconcile_live o l h =
      let deps =
        resolve_org_dependencies env (k.organization_ref o.spec) o (conditions_of catalog_fields)
          o.meta.generation l in
      let quiet : rpcs deps.1 ≡ rpcs l =
        rpcs-resolve_org_dependencies env (k.organization_ref o.spec) o
          (conditions_of catalog_fields) o.meta.generation l in
      elim (Bool-cases (env.platform.contains_finalizer o.meta finalizer_name)) [
        | inr fresh ↦ rw (rpcs-reconcile_live_fresh k svc env o l fresh) h
        | inl carried ↦ elim (Dependencies-cases deps.0.0) [
          | inl (result, p) ↦ ground (arith, h, quiet, p, carried)
          | inr (orc, p) ↦
              let kept : AllActFor o (reconcile_resolved k svc env orc deps.0.1 deps.1).1 =
                Calls-reconcile_resolved (ActsFor o) orc (ActsFor-grpc_ctx o l orc p) deps.0.1
                  deps.1 (rw quiet h) in
              rw carried (ground (arith, p, kept))
        ]
      ]

  -- From a log whose calls of the gateway act for the object that the reconcile of a catalog
  -- resource reads, the reconcile ends with such a log, whatever the API server and the gateway
  -- answer: each call acts as the tenant of an organization that the API server has answered, ready,
  -- for the reference of the object, or names no org where that organization has no tenant GUID.
  pub reconcile-AllActFor :
      (name : NamespacedName) (l : State) (o : Cr S CatalogStatus)
      → env.get_own l name ≡ ok o
      → AllActFor o l
      → AllActFor o (reconcile k svc env name l).1
  unfolding reconcile
  reconcile-AllActFor name l o got h = elim (Bool-cases (is_deleted o.meta)) [
    | inl deleted ↦
        rw (got, deleted) (AllActFor-delete_record o (Call.get Kind.own_kind name ∷ l) h)
    | inr live ↦ rw (got, live) (AllActFor-reconcile_live o (Call.get Kind.own_kind name ∷ l) h)
  ]
