-- ===== src/Instances.antt =====
-- internal/controller/instance_controller.go and core_instance_controller.go. The client cache that
-- the first invalidates is empty, and its methods do nothing.
pub mod Ready
pub mod Watches
use invora_controller.Prelude.{
  ℕ, String, ◌<>◌, Bool, true, false, Option, none, some, List, [], ◌∷◌, ◌==◌, ◌&&◌, if◌then◌else◌,
}
use invora_controller.Go.{
  Error, wrap, ignore_not_found, Result, ok, err, M, ◌>>=◌, ◌>>◌, pure, ℤ, seconds, Outcome,
  no_requeue, requeue_now, requeue_after,
}
use invora_controller.Api.{
  NamespacedName, ObjectMeta, SecretKeyRef, Instance, InstanceStatus, is_deleted, condition_true,
  condition_false, condition_ready,
}
use invora_controller.Cluster.{Conn, Log, Env, fetch_own, write_status, clock}
use invora_controller.Gateway.{resolve_secret_value}
use invora_controller.Base.{Conditions, or_namespace}
use invora_controller.Resource.{ensure_finalizer, remove_finalizer, set_object_condition}
use invora_controller.Core.{InvoraInstance, InvoraInstanceStatus, set_ready}
use invora_controller.Connectivity.{Channel, check_gateway_connectivity}

-- The controllers of instances call no gateway service.
pub data NoRpc : Type 0 where

abbrev pub BillingState : Type 0
BillingState = Log Instance NoRpc

abbrev pub CoreState : Type 0
CoreState = Log InvoraInstance NoRpc

abbrev pub instance_conditions : Conditions InstanceStatus
instance_conditions = record {
  read = λ t. t.base.conditions;
  store = λ cs t. record t { base = record (t.base) { conditions = cs } };
}

abbrev pub core_instance_conditions : Conditions InvoraInstanceStatus
core_instance_conditions = record {
  read = λ t. t.conditions;
  store = λ cs t. record t { conditions = cs };
}

-- Whether a reference, in an object of a namespace, names a Secret.
unfoldable pub names_secret : NamespacedName → SecretKeyRef → String → Bool
names_secret secret ref namespace =
    or_namespace ref.namespace namespace == secret.namespace && ref.name == secret.name

abbrev name_of : ObjectMeta → NamespacedName
name_of m = record { namespace = m.namespace; name = m.name }

-- The loop of findInstancesForSecret.
unfoldable pub instances_naming : NamespacedName → List Instance → List NamespacedName
unfolding names_secret
instances_naming secret [] = []
instances_naming secret (inst ∷ instances) =
    let rest = instances_naming secret instances in
    if names_secret secret inst.spec.token_ref inst.meta.namespace
    then name_of inst.meta ∷ rest
    else rest

-- The object is a Secret by the name, or none where it is no Secret; the instances are what List
-- answers.
unfoldable pub find_instances_for_secret :
    Option NamespacedName → Result (List Instance) → List NamespacedName
find_instances_for_secret none listed = []
find_instances_for_secret (some secret) (err e) = []
find_instances_for_secret (some secret) (ok instances) = instances_naming secret instances

module _ (env : Env Instance NoRpc) (channel : BillingState → Conn → Channel) where
  unfoldable pub fail_instance : String → String → Instance → M BillingState Outcome
  unfolding set_object_condition
  fail_instance reason message instance = do
    instance ←
        set_object_condition env instance_conditions instance condition_ready condition_false reason
          message instance.meta.generation
    (_, instance) ← write_status env instance
    pure (requeue_after (seconds 30), none)

  abbrev instance_stored : Option Error → Outcome
  instance_stored none = (requeue_after (seconds 60), none)
  instance_stored (some e) = (no_requeue, some (wrap "updating status" e))

  unfoldable pub connect_instance : Instance → M BillingState Outcome
  unfolding set_object_condition
  connect_instance instance = do
    t ← clock env
    let instance : Instance = record instance {
      status = record (instance.status) {
        last_connected_at = some t;
        base = record (instance.status.base) {
          observed_generation = instance.meta.generation;
          last_synced_at = some t;
        };
      };
    }
    instance ←
        set_object_condition env instance_conditions instance condition_ready condition_true
          "Connected" ("Successfully connected to " <> instance.spec.gateway_url)
          instance.meta.generation
    (failed, _) ← write_status env instance
    pure (instance_stored failed)

  unfoldable pub check_instance : Instance → M BillingState Outcome
  check_instance instance = do
    failed ← check_gateway_connectivity env channel instance.spec.gateway_url
    elim failed [
      | some e ↦ fail_instance "ConnectivityCheckFailed" e.text instance
      | none ↦ connect_instance instance
    ]

  unfoldable pub reconcile_present_instance : Instance → M BillingState Outcome
  reconcile_present_instance instance = do
    let ref = instance.spec.token_ref
    let namespace = instance.meta.namespace
    token ←
        resolve_secret_value env ref.name (or_namespace ref.namespace namespace) ref.key namespace
    elim token [
      | err e ↦ fail_instance "AuthSecretError" e.text instance
      | ok _ ↦ check_instance instance
    ]

  unfoldable pub reconcile_live_instance : Instance → M BillingState Outcome
  reconcile_live_instance instance = do
    (added, instance) ← ensure_finalizer env instance
    elim added [
      | err e ↦ pure (no_requeue, some e)
      | ok true ↦ pure (requeue_now, none)
      | ok false ↦ reconcile_present_instance instance
    ]

  unfoldable pub delete_instance : Instance → M BillingState Outcome
  unfolding remove_finalizer
  delete_instance instance = do
    (failed, _) ← remove_finalizer env instance
    pure (no_requeue, failed)

  unfoldable pub reconcile_instance : NamespacedName → M BillingState Outcome
  reconcile_instance name = do
    got ← fetch_own env name
    elim got [
      | err e ↦ pure (no_requeue, ignore_not_found e)
      | ok instance ↦
          if is_deleted instance.meta
          then delete_instance instance
          else reconcile_live_instance instance
    ]

abbrev pub set_connected : Bool → InvoraInstance → InvoraInstance
set_connected b instance = record instance { status = record (instance.status) { connected = b } }

module _ (env : Env InvoraInstance NoRpc) (channel : CoreState → Conn → Channel) where
  unfoldable pub fail_core_instance : String → String → InvoraInstance → M CoreState Outcome
  unfolding set_ready
  fail_core_instance reason message instance = do
    (_, instance) ←
        write_status env
          (set_ready env core_instance_conditions condition_false reason message instance)
    pure (requeue_after (seconds 30), none)

  abbrev core_instance_stored : Option Error → Outcome
  core_instance_stored none = (requeue_after (seconds 300), none)
  core_instance_stored (some e) = (no_requeue, some e)

  unfoldable pub connect_core_instance : InvoraInstance → M CoreState Outcome
  unfolding set_ready
  connect_core_instance instance = do
    t ← clock env
    let instance : InvoraInstance = record instance {
      status = record (instance.status) {
        connected = true;
        observed_generation = instance.meta.generation;
        last_synced_at = some t;
      };
    }
    (failed, _) ← write_status env (
        set_ready env core_instance_conditions condition_true "Connected"
          ("connected to " <> instance.spec.gateway_url) instance)
    pure (core_instance_stored failed)

  unfoldable pub check_core_instance : InvoraInstance → M CoreState Outcome
  check_core_instance instance = do
    failed ← check_gateway_connectivity env channel instance.spec.gateway_url
    elim failed [
      | some e ↦
          fail_core_instance "ConnectivityFailed" ("gateway unreachable: " <> e.text)
            (set_connected false instance)
      | none ↦ connect_core_instance instance
    ]

  unfoldable pub reconcile_present_core_instance : InvoraInstance → M CoreState Outcome
  reconcile_present_core_instance instance = do
    let ref = instance.spec.token_ref
    let namespace = instance.meta.namespace
    token ←
        resolve_secret_value env ref.name (or_namespace ref.namespace namespace) ref.key namespace
    elim token [
      | err e ↦ fail_core_instance "TokenResolveFailed" e.text instance
      | ok _ ↦ check_core_instance instance
    ]

  unfoldable pub reconcile_core_instance : NamespacedName → M CoreState Outcome
  reconcile_core_instance name = do
    got ← fetch_own env name
    elim got [
      | err e ↦ pure (no_requeue, ignore_not_found e)
      | ok instance ↦ reconcile_present_core_instance instance
    ]
