-- ===== src/Core/Resources/Regulation.antt =====
-- internal/controller/invoicing_regulation_controller.go and
-- api/invoicing/v1alpha1/regulation_types.go.
use invora_controller.Prelude.{ℕ, String, ◌<>◌, Bool, Option, some, List, ◌∷◌, refl}
use invora_controller.Go.{Result, ok, err, M, Outcome}
use invora_controller.Api.{NamespacedName, Condition, ResourceRef, Cr}
use invora_controller.Cluster.{Call, Conn, Headers, Log, Env}
use invora_controller.Core.{
  InvoraInstance, Pushed, push_failed, pushed, CoreResource, reconcile_core,
}
use invora_controller.Core.Connections.{CallsOnce}

pub record SecretKeySelector : Type 0 where
  pub name : String
  pub namespace : String
  pub key : String

pub record RegulationSpec : Type 0 where
  pub instance_ref : ResourceRef
  pub branch_ref : ResourceRef
  pub regulation_type : String
  pub enabled : Bool
  pub submission_model : String
  pub credentials_ref : Option SecretKeySelector
  pub config : List (String × String)

pub record RegulationStatus : Type 0 where
  pub conditions : List Condition
  pub enrollment_status : String
  pub observed_generation : ℕ
  pub last_synced_at : Option ℕ

abbrev pub Regulation : Type 0
Regulation = Cr RegulationSpec RegulationStatus

-- The call of RegulationEnrollmentService.
pub data RegulationRpc : Type 0 where
  get_enrollment_state : String → RegulationRpc

abbrev State : Type 0
State = Log Regulation RegulationRpc

-- The state is the text that the generated String method gives.
pub record RegulationService : Type 0 where
  pub get_state : String → State → Result String

abbrev pub set_enrollment_status : String → Regulation → Regulation
set_enrollment_status state reg = record reg {
  status = record (reg.status) { enrollment_status = state };
}

unfoldable pub push_regulation :
    RegulationService → Conn → Headers → Regulation → M State (Pushed Regulation)
push_regulation svc conn headers reg l =
    let id = reg.spec.regulation_type in
    let l' : State = Call.rpc (some conn) headers (get_enrollment_state id) ∷ l in
    (
      elim (svc.get_state id l') [
        | err e ↦ push_failed "GetStateFailed" e
        | ok state ↦ pushed (set_enrollment_status state reg) ("enrollment state: " <> state)
      ],
      l',
    )

abbrev pub regulations :
    RegulationService → CoreResource RegulationSpec RegulationStatus RegulationRpc
regulations svc = record {
  instance_ref = λ s. s.instance_ref;
  conditions = record { read = λ t. t.conditions; store = λ cs t. record t { conditions = cs } };
  mark_synced = λ generation time t. record t {
    observed_generation = generation;
    last_synced_at = some time;
  };
  push = push_regulation svc;
}

unfoldable pub reconcile_regulation :
    RegulationService
    → Env Regulation RegulationRpc
    → (State → NamespacedName → Result InvoraInstance)
    → NamespacedName
    → M State Outcome
unfolding reconcile_core
reconcile_regulation svc env instances name = reconcile_core (regulations svc) env instances name

-- A push of a regulation makes one call.
pub regulations-CallsOnce : (svc : RegulationService) → CallsOnce (regulations svc)
unfolding push_regulation
regulations-CallsOnce svc = record {
  query = λ reg. get_enrollment_state reg.spec.regulation_type;
  asks = λ conn headers reg l. refl;
}
