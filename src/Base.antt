-- ===== src/Base.antt =====
-- internal/controller/reconciler.go and orgresource_helpers.go: what every controller of a billing
-- resource shares. An object is the resource in the caller's hands; a function that mutates it, or
-- overwrites it by a write to the API server, returns the new one.
-- The pointer to a list of conditions inside the object is a `Conditions` value.
use invora_controller.Prelude.{
  ℕ, String, ◌<>◌, Bool, true, false, Option, none, some, List, [], ◌∷◌, ◌==◌, not, eqb,
  if◌then◌else◌, lookup, delete,
}
use invora_controller.Go.{
  Error, errorf, wrap, code_not_found, Result, ok, err, M, ◌>>=◌, pure, ℤ, seconds, CtrlResult,
  requeue_after,
}
use invora_controller.Api.{
  ObjectMeta, Condition, ConditionStatus, condition_true, ResourceRef, Organization, Instance,
  condition_ready, annotation_import_id, annotation_reconcile_interval,
}
use invora_controller.Cluster.{Conn, Headers, Log, Env, fetch_instance, fetch_organization, clock}
use invora_controller.Gateway.{dial, resolve_secret_value}

abbrev pub default_requeue_interval : ℤ
default_requeue_interval = seconds 300

abbrev pub dependency_requeue_interval : ℤ
dependency_requeue_interval = seconds 10

-- A pointer to the conditions of a status.
pub record Conditions (T : Type 0) : Type 0 where
  pub read : T → List Condition
  pub store : List Condition → T → T

pub record OrgContext : Type 0 where
  pub org : Organization
  pub conn : Option Conn
  pub token : String
  pub org_id : String

pub record InstanceContext : Type 0 where
  pub instance : Instance
  pub conn : Conn
  pub token : String

-- orgResourceContext.GrpcCtx, HomeGrpcCtx and instanceAdminContext.GrpcCtx: the metadata pairs.
abbrev pub bearer : String → String × String
bearer token = ("authorization", "Bearer " <> token)

unfoldable pub grpc_ctx : OrgContext → Headers
grpc_ctx o =
    if not (o.org_id == "")
    then bearer o.token ∷ ("x-zitadel-orgid", o.org_id) ∷ []
    else bearer o.token ∷ []

unfoldable pub home_grpc_ctx : OrgContext → Headers
home_grpc_ctx o = bearer o.token ∷ []

unfoldable pub admin_grpc_ctx : InstanceContext → Headers
admin_grpc_ctx i = bearer i.token ∷ []

-- status.FromError finds a NotFound status
unfoldable pub is_grpc_not_found : Error → Bool
is_grpc_not_found e = elim e.grpc_code [ none ↦ false | some c ↦ eqb c code_not_found ]

unfoldable pub get_import_id : ObjectMeta → String
get_import_id m = elim (lookup annotation_import_id m.annotations) [ none ↦ "" | some v ↦ v ]

-- The adoption branches: delete(annotations, AnnotationImportID).
abbrev pub clear_import_id : ObjectMeta → ObjectMeta
clear_import_id m = record m { annotations = delete annotation_import_id m.annotations }

abbrev pub or_namespace : String → String → String
or_namespace namespace default_namespace = if namespace == "" then default_namespace else namespace

module _ {O Q : Type 0} (env : Env O Q) where
  unfoldable pub get_requeue_interval : ObjectMeta → ℤ
  get_requeue_interval m = elim (lookup annotation_reconcile_interval m.annotations) [
    | none ↦ default_requeue_interval
    | some v ↦ elim (env.platform.parse_duration v) [ some d ↦ d | none ↦ default_requeue_interval ]
  ]

  unfoldable pub success_result : ObjectMeta → CtrlResult
  unfolding get_requeue_interval
  success_result m = requeue_after (get_requeue_interval m)

  -- meta.FindStatusCondition finds the Ready condition with status True
  unfoldable pub is_ready : List Condition → Bool
  is_ready conditions = elim (env.platform.find_status_condition conditions condition_ready) [
    | none ↦ false
    | some c ↦ elim c.status [ condition_true ↦ true | _ ↦ false ]
  ]

  -- SetCondition on a list of conditions
  unfoldable pub set_condition :
      List Condition → String → ConditionStatus → String → String → ℕ → M (Log O Q) (List Condition)
  set_condition conditions type_name status reason message generation = do
    t ← clock env
    pure (
        env.platform.set_status_condition conditions (record {
          type_name = type_name;
          status = status;
          observed_generation = generation;
          reason = reason;
          message = message;
          last_transition_time = some t;
        }))

  unfoldable pub get_ready_billing_organization :
      ResourceRef → String → M (Log O Q) (Result Organization)
  unfolding is_ready
  get_ready_billing_organization org_ref default_namespace = do
    let ns = or_namespace org_ref.namespace default_namespace
    got ← fetch_organization env (record { namespace = ns; name = org_ref.name })
    elim got [
      | err e ↦
          pure (err (wrap ("getting InvoraBillingOrganization " <> ns <> "/" <> org_ref.name) e))
      | ok org ↦
          if is_ready org.status.base.conditions
          then pure (ok org)
          else pure (
              err (
                errorf
                  ("InvoraBillingOrganization " <> ns <> "/" <> org_ref.name <> " is not Ready")))
    ]

  unfoldable pub resolve_instance_admin :
      ResourceRef → String → M (Log O Q) (Result InstanceContext)
  unfolding is_ready
  resolve_instance_admin instance_ref default_namespace = do
    let ns = or_namespace instance_ref.namespace default_namespace
    got ← fetch_instance env (record { namespace = ns; name = instance_ref.name })
    elim got [
      | err e ↦
          pure (err (wrap ("getting InvoraBillingInstance " <> ns <> "/" <> instance_ref.name) e))
      | ok instance ↦
          if not (is_ready instance.status.base.conditions)
          then pure (
              err (
                errorf
                  ("InvoraBillingInstance " <> ns <> "/" <> instance_ref.name <> " is not Ready")))
          else do
            let ref = instance.spec.token_ref
            token ←
                resolve_secret_value env ref.name (or_namespace ref.namespace ns) ref.key
                  instance.meta.namespace
            elim token [
              | err e ↦ pure (err (wrap "resolving super-admin token" e))
              | ok t ↦ do
                conn ← dial env instance.spec.gateway_url
                elim conn [
                  | err e ↦ pure (err (wrap "dialing gateway" e))
                  | ok c ↦ pure (ok (record { instance = instance; conn = c; token = t }))
                ]
            ]
    ]
