-- ===== src/Core/Resources/Branch.antt =====
-- internal/controller/core_branch_controller.go and api/core/v1alpha1/branch_types.go.
use invora_controller.Prelude.{
  ℕ, String, Bool, Option, none, some, List, ◌∷◌, ◌==◌, not, if◌then◌else◌, inl, inr, refl,
  Bool-cases,
}
use invora_controller.Go.{Error, Result, ok, err, M, Outcome}
use invora_controller.Api.{NamespacedName, Condition, ResourceRef, Cr}
use invora_controller.Cluster.{Call, Conn, Headers, Log, Env}
use invora_controller.Core.{
  InvoraInstance, Pushed, push_failed, pushed, CoreResource, reconcile_core,
}
use invora_controller.Core.Connections.{CallsOnce}

pub record Address : Type 0 where
  pub street : String
  pub building : String
  pub city : String
  pub state : String
  pub postal_code : String
  pub country : String
  pub additional_no : String

pub record BranchParty : Type 0 where
  pub legal_name : String
  pub tax_id : String
  pub commercial_registration_number : String
  pub address : Option Address

pub record BranchRegulationConfig : Type 0 where
  pub zatca_csid : String
  pub zatca_branch_id : String
  pub peppol_gln : String
  pub eta_branch_id : String

pub record BranchSpec : Type 0 where
  pub instance_ref : ResourceRef
  pub name : String
  pub trade_name : String
  pub is_default : Bool
  pub document_prefix : String
  pub party : Option BranchParty
  pub regulation_config : Option BranchRegulationConfig

pub record BranchStatus : Type 0 where
  pub conditions : List Condition
  pub branch_id : String
  pub observed_generation : ℕ
  pub last_synced_at : Option ℕ

abbrev pub Branch : Type 0
Branch = Cr BranchSpec BranchStatus

-- The calls of BranchesService. The Create request is empty, the Update request has the key alone.
pub data BranchRpc : Type 0 where
  create_branch : BranchRpc
  update_branch : String → BranchRpc

abbrev State : Type 0
State = Log Branch BranchRpc

-- A Create answers with the key of the branch, or with no details.
pub record BranchService : Type 0 where
  pub create : State → Result (Option String)
  pub update : String → State → Option Error

abbrev pub set_branch_id : Option String → Branch → Branch
set_branch_id none branch = branch
set_branch_id (some key) branch = record branch {
  status = record (branch.status) { branch_id = key };
}

abbrev pub branch_synced : String
branch_synced = "branch synced to gateway"

abbrev pub branch_call : Branch → BranchRpc
branch_call branch =
    if not (branch.status.branch_id == "")
    then BranchRpc.update_branch branch.status.branch_id
    else BranchRpc.create_branch

unfoldable pub update_branch_remote :
    BranchService → Conn → Headers → Branch → M State (Pushed Branch)
update_branch_remote svc conn headers branch l =
    let id = branch.status.branch_id in
    let l' : State = Call.rpc (some conn) headers (BranchRpc.update_branch id) ∷ l in
    (
      elim (svc.update id l') [
        | some e ↦ push_failed "UpdateFailed" e
        | none ↦ pushed branch branch_synced
      ],
      l',
    )

unfoldable pub create_branch_remote :
    BranchService → Conn → Headers → Branch → M State (Pushed Branch)
create_branch_remote svc conn headers branch l =
    let l' : State = Call.rpc (some conn) headers BranchRpc.create_branch ∷ l in
    (
      elim (svc.create l') [
        | err e ↦ push_failed "CreateFailed" e
        | ok key ↦ pushed (set_branch_id key branch) branch_synced
      ],
      l',
    )

unfoldable pub push_branch : BranchService → Conn → Headers → Branch → M State (Pushed Branch)
push_branch svc conn headers branch =
    if not (branch.status.branch_id == "")
    then update_branch_remote svc conn headers branch
    else create_branch_remote svc conn headers branch

abbrev pub branches : BranchService → CoreResource BranchSpec BranchStatus BranchRpc
branches svc = record {
  instance_ref = λ s. s.instance_ref;
  conditions = record { read = λ t. t.conditions; store = λ cs t. record t { conditions = cs } };
  mark_synced = λ generation time t. record t {
    observed_generation = generation;
    last_synced_at = some time;
  };
  push = push_branch svc;
}

unfoldable pub reconcile_branch :
    BranchService
    → Env Branch BranchRpc
    → (State → NamespacedName → Result InvoraInstance)
    → NamespacedName
    → M State Outcome
unfolding reconcile_core
reconcile_branch svc env instances name = reconcile_core (branches svc) env instances name

-- A push of a branch makes one call.
pub branches-CallsOnce : (svc : BranchService) → CallsOnce (branches svc)
unfolding push_branch update_branch_remote create_branch_remote
branches-CallsOnce svc = record {
  query = branch_call;
  asks = λ conn headers branch l. elim (Bool-cases (branch.status.branch_id == "")) [
    | inl fresh ↦ rw fresh refl
    | inr known ↦ rw known refl
  ];
}
