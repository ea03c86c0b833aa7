-- ===== src/Tests/Cores.antt =====
-- The theorems on the core and invoicing resources and on the instances, at a branch and at two
-- instances.
use mathlib.Core.List.{Memᴰ}
use invora_controller.Prelude.{ℕ, ◌<◌, ◌≡◌, ◌↔◌, false, none, some, [], ◌∷◌, eqb, if◌then◌else◌}
use invora_controller.Go.{Result, ok}
use invora_controller.Api.{NamespacedName}
use invora_controller.Cluster.{Conn, Log, open_conns}
use invora_controller.Core.{InvoraInstance, reconcile_core}
use invora_controller.Core.Connections.{CallsAndCloses, reconcile_core-CallsAndCloses}
use invora_controller.Core.Resources.Branch.{
  Branch, BranchRpc, BranchService, branches, branches-CallsOnce,
}
use invora_controller.Connectivity.{Round, connecting, ready, Channel, wait_for_gateway}
use invora_controller.Connectivity.Rounds.{ReadyAt, wait_for_gateway-ReadyAt}
use invora_controller.Instances.{
  BillingState, CoreState, reconcile_instance, find_instances_for_secret,
}
use invora_controller.Instances.Ready.{open_conns-reconcile_instance}
use invora_controller.Instances.Watches.{Reader, find_instances_for_secret-Reader}
use invora_controller.Tests.World.{named, calm_env, main_instance}

abbrev riyadh : Branch
riyadh = record {
  meta = named "riyadh";
  spec = record {
    instance_ref = record { name = "main"; namespace = "" };
    name = "Riyadh";
    trade_name = "";
    is_default = false;
    document_prefix = "R";
    party = none;
    regulation_config = none;
  };
  status = record {
    conditions = [];
    branch_id = "";
    observed_generation = 0;
    last_synced_at = none;
  };
}

abbrev core_main : InvoraInstance
core_main = record {
  meta = named "main";
  spec = record {
    gateway_url = "gateway:443";
    token_ref = record { name = "token"; namespace = ""; key = "key" };
  };
  status = record {
    conditions = [];
    connected = false;
    observed_generation = 0;
    last_synced_at = none;
  };
}

abbrev answering : BranchService
answering = record { create = λ l. ok (some "branch-1"); update = λ id l. none }

abbrev riyadh_name : NamespacedName
riyadh_name = record { namespace = "billing"; name = "riyadh" }

abbrev BranchState : Type 0
BranchState = Log Branch BranchRpc

abbrev no_calls : BranchState
no_calls = []

abbrev one_instance : BranchState → NamespacedName → Result InvoraInstance
one_instance l n = ok core_main

reconcile_core-CallsAndCloses_example :
    CallsAndCloses
      (branches answering)
      (branches-CallsOnce answering)
      (calm_env riyadh)
      one_instance
      no_calls
      (reconcile_core (branches answering) (calm_env riyadh) one_instance riyadh_name no_calls).1
reconcile_core-CallsAndCloses_example =
    reconcile_core-CallsAndCloses (branches answering) (branches-CallsOnce answering)
      (calm_env riyadh) one_instance riyadh_name no_calls

-- The channel connects, and is ready from the second round on.
abbrev second_round : ℕ → Round
second_round i = record {
  state = if eqb i 0 then connecting else ready;
  expired = none;
  unchanged = none;
}

wait_for_gateway-ReadyAt_example :
    (wait_for_gateway second_round 3 0 ≡ none) ↔ ((k : ℕ) × (k < 3) × ReadyAt second_round 0 k)
wait_for_gateway-ReadyAt_example = wait_for_gateway-ReadyAt second_round 3

abbrev main_name : NamespacedName
main_name = record { namespace = "billing"; name = "main" }

abbrev billing_channel : BillingState → Conn → Channel
billing_channel l c = record { rounds = second_round; bound = 3 }

abbrev core_channel : CoreState → Conn → Channel
core_channel l c = record { rounds = second_round; bound = 3 }

abbrev no_billing_calls : BillingState
no_billing_calls = []

abbrev no_core_calls : CoreState
no_core_calls = []

open_conns-reconcile_instance_example :
    open_conns
      (calm_env main_instance)
      (reconcile_instance (calm_env main_instance) billing_channel main_name no_billing_calls).1
    ≡ open_conns (calm_env main_instance) no_billing_calls
open_conns-reconcile_instance_example =
    open_conns-reconcile_instance (calm_env main_instance) billing_channel main_name
      no_billing_calls

abbrev token_name : NamespacedName
token_name = record { namespace = "billing"; name = "token" }

find_instances_for_secret-Reader_example :
    Memᴰ main_name (find_instances_for_secret (some token_name) (ok (main_instance ∷ [])))
    ↔ Reader token_name main_name (main_instance ∷ [])
find_instances_for_secret-Reader_example =
    find_instances_for_secret-Reader token_name main_name (main_instance ∷ [])
