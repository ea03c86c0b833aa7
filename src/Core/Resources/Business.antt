-- ===== src/Core/Resources/Business.antt =====
-- internal/controller/core_connectedbusiness_controller.go and
-- api/core/v1alpha1/connectedbusiness_types.go.
use invora_controller.Prelude.{
  ℕ, String, Bool, Option, none, some, List, ◌∷◌, ◌==◌, not, if◌then◌else◌, inl, inr, refl,
  Bool-cases,
}
use invora_controller.Go.{Error, Result, ok, err, M, Outcome}
use invora_controller.Api.{NamespacedName, Condition, ResourceRef, Cr}
use invora_controller.Cluster.{Call, Conn, Headers, Log, Env}
use invora_controller.Core.{
  InvoraInstance, Pushed, push_failed, pushed, CoreResource, reconcile_core,
}
use invora_controller.Core.Connections.{CallsOnce}

pub record ConnectedBusinessSpec : Type 0 where
  pub instance_ref : ResourceRef
  pub name : String
  pub admin_email : String
  pub currency : String
  pub timezone : String
  pub suspended : Bool

pub record ConnectedBusinessStatus : Type 0 where
  pub conditions : List Condition
  pub tenant_id : String
  pub observed_generation : ℕ
  pub last_synced_at : Option ℕ

abbrev pub ConnectedBusiness : Type 0
ConnectedBusiness = Cr ConnectedBusinessSpec ConnectedBusinessStatus

-- The calls of ConnectedBusinessService: the suspension of a tenant for a reason, the update of a
-- tenant's name, and the creation by a name and an email.
pub data BusinessRpc : Type 0 where
  suspend_business : String → String → BusinessRpc
  update_business : String → String → BusinessRpc
  create_business : String → String → BusinessRpc

abbrev State : Type 0
State = Log ConnectedBusiness BusinessRpc

-- A creation answers with the tenant id, or with no business.
pub record BusinessService : Type 0 where
  pub suspend : String → String → State → Option Error
  pub update : String → String → State → Option Error
  pub create : String → String → State → Result (Option String)

abbrev pub set_tenant_id : Option String → ConnectedBusiness → ConnectedBusiness
set_tenant_id none cb = cb
set_tenant_id (some id) cb = record cb { status = record (cb.status) { tenant_id = id } }

abbrev pub business_synced : String
business_synced = "connected business synced to gateway"

-- The call that changes a known tenant.
abbrev pub business_change : ConnectedBusiness → BusinessRpc
business_change cb =
    if cb.spec.suspended
    then BusinessRpc.suspend_business cb.status.tenant_id "suspended via CRD"
    else BusinessRpc.update_business cb.status.tenant_id cb.spec.name

abbrev pub business_call : ConnectedBusiness → BusinessRpc
business_call cb =
    if not (cb.status.tenant_id == "")
    then business_change cb
    else BusinessRpc.create_business cb.spec.name cb.spec.admin_email

unfoldable pub change_business_remote :
    BusinessService → Conn → Headers → ConnectedBusiness → M State (Pushed ConnectedBusiness)
change_business_remote svc conn headers cb l =
    let id = cb.status.tenant_id in
    let l' : State = Call.rpc (some conn) headers (business_change cb) ∷ l in
    let failed : Option Error =
      if cb.spec.suspended
      then svc.suspend id "suspended via CRD" l'
      else svc.update id cb.spec.name l' in
    (elim failed [ some e ↦ push_failed "UpdateFailed" e | none ↦ pushed cb business_synced ], l')

unfoldable pub create_business_remote :
    BusinessService → Conn → Headers → ConnectedBusiness → M State (Pushed ConnectedBusiness)
create_business_remote svc conn headers cb l =
    let q = BusinessRpc.create_business cb.spec.name cb.spec.admin_email in
    let l' : State = Call.rpc (some conn) headers q ∷ l in
    (
      elim (svc.create cb.spec.name cb.spec.admin_email l') [
        | err e ↦ push_failed "CreateFailed" e
        | ok id ↦ pushed (set_tenant_id id cb) business_synced
      ],
      l',
    )

unfoldable pub push_business :
    BusinessService → Conn → Headers → ConnectedBusiness → M State (Pushed ConnectedBusiness)
push_business svc conn headers cb =
    if not (cb.status.tenant_id == "")
    then change_business_remote svc conn headers cb
    else create_business_remote svc conn headers cb

abbrev pub businesses :
    BusinessService → CoreResource ConnectedBusinessSpec ConnectedBusinessStatus BusinessRpc
businesses svc = record {
  instance_ref = λ s. s.instance_ref;
  conditions = record { read = λ t. t.conditions; store = λ cs t. record t { conditions = cs } };
  mark_synced = λ generation time t. record t {
    observed_generation = generation;
    last_synced_at = some time;
  };
  push = push_business svc;
}

unfoldable pub reconcile_business :
    BusinessService
    → Env ConnectedBusiness BusinessRpc
    → (State → NamespacedName → Result InvoraInstance)
    → NamespacedName
    → M State Outcome
unfolding reconcile_core
reconcile_business svc env instances name = reconcile_core (businesses svc) env instances name

-- A push of a connected business makes one call.
pub businesses-CallsOnce : (svc : BusinessService) → CallsOnce (businesses svc)
unfolding push_business change_business_remote create_business_remote
businesses-CallsOnce svc = record {
  query = business_call;
  asks = λ conn headers cb l. elim (Bool-cases (cb.status.tenant_id == "")) [
    | inl fresh ↦ rw fresh refl
    | inr known ↦ rw known refl
  ];
}
