-- ===== src/Instances/Ready.antt =====
-- When an instance is connected, and the connections of its check.
use invora_controller.Prelude.{ℕ, ◌<◌, String, inl, inr, ◌≡◌, arith, ◌∷◌, Option-cases}
use invora_controller.Go.{Result-cases, ok}
use invora_controller.Api.{NamespacedName, Instance}
use invora_controller.Cluster.{Call, Kind, Conn, Log, Env, open_conns}
use invora_controller.Gateway.{dial, resolve_secret_value}
use invora_controller.Base.{or_namespace}
use invora_controller.Resource.{ensure_finalizer}
use invora_controller.Core.{InvoraInstance}
use invora_controller.Connectivity.{Channel, wait_and_close, check_gateway_connectivity}
use invora_controller.Connectivity.Rounds.{ReadyAt}
use invora_controller.Instances.{
  NoRpc, BillingState, CoreState, fail_instance, connect_instance, check_instance,
  reconcile_present_instance, reconcile_live_instance, delete_instance, reconcile_instance,
}

module _ {O Q : Type 0} (env : Env O Q) (channel : Log O Q → Conn → Channel) where
  -- The dial of the URL that follows the calls of a log opens a connection, its channel is ready in
  -- a round of the wait that follows, and the wait goes on after each round before.
  abbrev pub SawReady : String → Log O Q → Type 0
  SawReady url l =
      let d = dial env url l in
      (conn : Conn) × (d.0 ≡ ok conn)
      × (k : ℕ) × (k < (channel d.1 conn).bound)
      × ReadyAt (channel d.1 conn).rounds 0 k

  open_conns-check_gateway_connectivity :
      (url : String) (l : Log O Q)
      → open_conns env (check_gateway_connectivity env channel url l).1 ≡ open_conns env l
  unfolding check_gateway_connectivity wait_and_close dial
  open_conns-check_gateway_connectivity url l = ground arith

  open_conns-resolve_secret_value :
      (name namespace key owner : String) (l : Log O Q)
      → open_conns env (resolve_secret_value env name namespace key owner l).1 ≡ open_conns env l
  unfolding resolve_secret_value
  open_conns-resolve_secret_value name namespace key owner l = ground arith

module _ (env : Env Instance NoRpc) (channel : BillingState → Conn → Channel) where
  -- The log after the token of an instance is read.
  abbrev pub after_token : Instance → BillingState → BillingState
  after_token instance l =
      let ref = instance.spec.token_ref in
      let namespace = instance.meta.namespace in
      (resolve_secret_value env ref.name (or_namespace ref.namespace namespace) ref.key namespace
        l).1

  open_conns-check_instance :
      (instance : Instance) (l : BillingState)
      → open_conns env (check_instance env channel instance l).1 ≡ open_conns env l
  unfolding check_instance fail_instance connect_instance
  open_conns-check_instance instance l =
      let url = instance.spec.gateway_url in
      let kept = open_conns-check_gateway_connectivity env channel url l in
      elim (Option-cases (check_gateway_connectivity env channel url l).0) [
        | inl fine ↦ ground (arith, fine, kept)
        | inr (e, failed) ↦ ground (arith, failed, kept)
      ]

  open_conns-reconcile_present_instance :
      (instance : Instance) (l : BillingState)
      → open_conns env (reconcile_present_instance env channel instance l).1 ≡ open_conns env l
  unfolding reconcile_present_instance fail_instance
  open_conns-reconcile_present_instance instance l =
      let ref = instance.spec.token_ref in
      let namespace = instance.meta.namespace in
      let r =
        resolve_secret_value env ref.name (or_namespace ref.namespace namespace) ref.key namespace
          l in
      let kept =
        open_conns-resolve_secret_value env channel ref.name (or_namespace ref.namespace namespace)
          ref.key namespace l in
      elim (Result-cases r.0) [
        | inl (e, failed) ↦ ground (arith, failed, kept)
        | inr (token, found) ↦ ground (arith, found, kept, open_conns-check_instance instance r.1)
      ]

  -- Whatever the API server and the channel do, a reconcile of a billing instance closes every
  -- connection that it opens.
  pub open_conns-reconcile_instance :
      (name : NamespacedName) (l : BillingState)
      → open_conns env (reconcile_instance env channel name l).1 ≡ open_conns env l
  unfolding reconcile_instance reconcile_live_instance delete_instance ensure_finalizer
  open_conns-reconcile_instance name l = elim (Result-cases (env.get_own l name)) [
    | inl (e, failed) ↦ ground (arith, failed)
    | inr (instance, got) ↦
        let l' : BillingState = Call.get Kind.own_kind name ∷ l in
        ground (arith, got, open_conns-reconcile_present_instance instance l')
  ]

module _ (env : Env InvoraInstance NoRpc) (channel : CoreState → Conn → Channel) where
  -- The log after the token of an instance is read.
  abbrev pub after_core_token : InvoraInstance → CoreState → CoreState
  after_core_token instance l =
      let ref = instance.spec.token_ref in
      let namespace = instance.meta.namespace in
      (resolve_secret_value env ref.name (or_namespace ref.namespace namespace) ref.key namespace
        l).1
