-- ===== src/Core.antt =====
-- What the controllers of api/core and api/invoicing share: resolveInvoraInstance and setFailed of
-- internal/controller/core_branch_controller.go, and the steps that its Reconcile has in common
-- with core_connectedbusiness_controller.go, invoicing_regulation_controller.go and
-- invoicing_settings_controller.go. The call that differs is the field `push` of a `CoreResource`.
pub mod Resources
pub mod Connections
use invora_controller.Prelude.{
  ℕ, String, ◌<>◌, ◌≡◌, refl, ◌⊎◌, inl, inr, Bool, Option, none, some, List, [], ◌∷◌,
}
use invora_controller.Go.{
  Error, wrap, ignore_not_found, Result, ok, err, M, ◌>>=◌, ◌>>◌, pure, seconds, Outcome,
  no_requeue, requeue_after,
}
use invora_controller.Api.{
  NamespacedName, Condition, ConditionStatus, condition_true, condition_false, condition_ready,
  ResourceRef, SecretKeyRef, Cr,
}
use invora_controller.Cluster.{
  Call, Kind, Conn, Headers, Log, Env, fetch_own, write_status, close_conn, clock,
}
use invora_controller.Gateway.{dial, resolve_secret_value}
use invora_controller.Base.{Conditions, bearer, or_namespace}

pub record InvoraInstanceSpec : Type 0 where
  pub gateway_url : String
  pub token_ref : SecretKeyRef

pub record InvoraInstanceStatus : Type 0 where
  pub conditions : List Condition
  pub connected : Bool
  pub observed_generation : ℕ
  pub last_synced_at : Option ℕ

abbrev pub InvoraInstance : Type 0
InvoraInstance = Cr InvoraInstanceSpec InvoraInstanceStatus

-- meta.SetStatusCondition with the Ready condition; the library fills in the transition time.
unfoldable pub set_ready :
    {S T Q : Type 0}
    → Env (Cr S T) Q
    → Conditions T
    → ConditionStatus
    → String
    → String
    → Cr S T
    → Cr S T
set_ready env conditions status reason message o = record o {
  status =
      conditions.store
        (env.platform.set_status_condition (conditions.read o.status) (record {
          type_name = condition_ready;
          status = status;
          observed_generation = o.meta.generation;
          reason = reason;
          message = message;
          last_transition_time = none;
        }))
        o.status;
}

-- What the call of the gateway came to: a reason and an error, or the object with what its answer
-- sets, and the message of the Ready condition.
pub data Pushed (O : Type 0) : Type 0 where
  push_failed : String → Error → Pushed O
  pushed : O → String → Pushed O

pub Pushed-cases :
    {O : Type 0} (p : Pushed O)
    → ((reason : String) × (e : Error) × (p ≡ push_failed reason e))
      ⊎ ((o : O) × (message : String) × (p ≡ pushed o message))
Pushed-cases (push_failed reason e) = inl (reason, e, refl)
Pushed-cases (pushed o message) = inr (o, message, refl)

-- The result after the status write.
abbrev pub stored : Option Error → Outcome
stored none = (requeue_after (seconds 300), none)
stored (some e) = (no_requeue, some e)

pub record CoreResource (S T Q : Type 0) : Type 0 where
  pub instance_ref : S → ResourceRef
  pub conditions : Conditions T
  pub mark_synced : ℕ → ℕ → T → T
  pub push : Conn → Headers → Cr S T → M (Log (Cr S T) Q) (Pushed (Cr S T))

module _ {S T Q : Type 0} (resource : CoreResource S T Q) (env : Env (Cr S T) Q)
    (instances : Log (Cr S T) Q → NamespacedName → Result InvoraInstance) where
  abbrev State : Type 0
  State = Log (Cr S T) Q

  unfoldable pub resolve_invora_instance :
      ResourceRef → String → M State (Result (InvoraInstance × String))
  resolve_invora_instance ref default_namespace l =
      let ns = or_namespace ref.namespace default_namespace in
      let name : NamespacedName = record { namespace = ns; name = ref.name } in
      let l' : State = Call.get Kind.core_instance_kind name ∷ l in
      elim (instances l name) [
        | err e ↦ (err (wrap ("getting InvoraInstance " <> ns <> "/" <> ref.name) e), l')
        | ok inst ↦
            let token_ref = inst.spec.token_ref in
            let (token, l'') =
              resolve_secret_value env token_ref.name (or_namespace token_ref.namespace ns)
                token_ref.key inst.meta.namespace l' in
            (elim token [ err e ↦ err (wrap "resolving token" e) | ok t ↦ ok (inst, t) ], l'')
      ]

  -- setFailed, and the write and the result that follow each call of it.
  unfoldable pub fail_core : String → Error → Cr S T → M State Outcome
  unfolding set_ready
  fail_core reason e o = do
    (_, o) ← write_status env (set_ready env resource.conditions condition_false reason e.text o)
    pure (requeue_after (seconds 30), none)

  unfoldable pub store_synced : String → Cr S T → M State Outcome
  unfolding set_ready
  store_synced message o = do
    t ← clock env
    let o : Cr S T = record o { status = resource.mark_synced o.meta.generation t o.status }
    (failed, _) ←
        write_status env (set_ready env resource.conditions condition_true "Synced" message o)
    pure (stored failed)

  unfoldable pub push_and_store : Conn → Headers → Cr S T → M State Outcome
  push_and_store conn headers o = do
    p ← resource.push conn headers o
    elim p [
      | push_failed reason e ↦ fail_core reason e o
      | pushed o message ↦ store_synced message o
    ]

  -- The deferred Close runs after the write.
  unfoldable pub use_instance : InvoraInstance → String → Cr S T → M State Outcome
  use_instance inst token o = do
    dialled ← dial env inst.spec.gateway_url
    elim dialled [
      | err e ↦ pure (no_requeue, some (wrap "creating gRPC connection" e))
      | ok conn ↦ do r ← push_and_store conn (bearer token ∷ []) o; _ ← close_conn env conn; pure r
    ]

  unfoldable pub reconcile_core_object : Cr S T → M State Outcome
  reconcile_core_object o = do
    found ← resolve_invora_instance (resource.instance_ref o.spec) o.meta.namespace
    elim found [
      | err e ↦ fail_core "InstanceResolveFailed" e o
      | ok (inst, token) ↦ use_instance inst token o
    ]

  unfoldable pub reconcile_core : NamespacedName → M State Outcome
  reconcile_core name = do
    got ← fetch_own env name
    elim got [ err e ↦ pure (no_requeue, ignore_not_found e) | ok o ↦ reconcile_core_object o ]
