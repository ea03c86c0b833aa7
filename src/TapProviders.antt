-- ===== src/TapProviders.antt =====
-- internal/controller/tapprovider_controller.go and api/v1alpha1/tapprovider_types.go.
pub mod Reconcile
pub mod Cleanup
pub mod Twins
pub mod Targets
use invora_controller.Prelude.{
  String, Bool, true, false, Option, none, some, ◌∷◌, ◌==◌, ◌||◌, not, if◌then◌else◌, id_or_empty,
}
use invora_controller.Go.{
  Error, wrap, ignore_not_found, Result, ok, err, M, ◌>>=◌, ◌>>◌, pure, ℤ, seconds, Outcome,
  no_requeue, requeue_now, requeue_after,
}
use invora_controller.Api.{
  NamespacedName, ResourceRef, SecretKeyRef, BillingResourceStatus, Cr, is_deleted, condition_false,
  condition_synced, condition_dependency_ready,
}
use invora_controller.Cluster.{Call, Log, Env, fetch_own, write, write_status}
use invora_controller.Gateway.{resolve_secret_value}
use invora_controller.Base.{
  OrgContext, home_grpc_ctx, dependency_requeue_interval, is_grpc_not_found, get_import_id,
  clear_import_id, or_namespace, success_result,
}
use invora_controller.Resource.{
  StatusFields, conditions_of, resolved, not_ready, ensure_finalizer, finish_deletion,
  set_object_condition, set_success_status, resolve_org_dependencies,
}
use invora_controller.Catalog.{call}

pub record TapProviderSpec : Type 0 where
  pub organization_ref : ResourceRef
  pub deletion_policy : String
  pub code : String
  pub name : String
  pub tap_api_key_ref : SecretKeyRef
  pub tap_public_key_ref : Option SecretKeyRef
  pub tap_webhook_secret_ref : Option SecretKeyRef
  pub success_redirect_url : String
  pub failure_redirect_url : String

pub record TapProviderStatus : Type 0 where
  pub base : BillingResourceStatus
  pub provider_code : String
  pub provider_id : String

abbrev pub TapProvider : Type 0
TapProvider = Cr TapProviderSpec TapProviderStatus

pub record CreateTapRequest : Type 0 where
  pub code : String
  pub name : String
  pub api_key : String
  pub success_redirect_url : String

pub record UpdateTapRequest : Type 0 where
  pub id : String
  pub code : String
  pub name : String
  pub success_redirect_url : String

-- The calls of PaymentProvidersService.
pub data TapRpc : Type 0 where
  get_provider : String → TapRpc
  create_tap : CreateTapRequest → TapRpc
  update_tap : UpdateTapRequest → TapRpc
  delete_provider : String → TapRpc

abbrev pub State : Type 0
State = Log TapProvider TapRpc

-- The Tap provider of an answer to a write; what is missing in it is "".
pub record Written : Type 0 where
  pub id : String
  pub code : String

-- A Get answers with the id of a Tap provider, or with none where another kind of provider has the
-- code.
pub record TapService : Type 0 where
  pub get : String → State → Result (Option String)
  pub create : CreateTapRequest → State → Result Written
  pub update : UpdateTapRequest → State → Result Written
  pub delete : String → State → Option Error

abbrev pub tap_fields : StatusFields TapProviderStatus
tap_fields = record { base = λ t. t.base; store = λ b t. record t { base = b } }

abbrev pub set_provider : Written → TapProvider → TapProvider
set_provider w tap = record tap {
  status = record {
    base = record (tap.status.base) { id = w.id };
    provider_code = w.code;
    provider_id = w.id;
  };
}

-- One call with the metadata of the token's home organization.
abbrev pub home_call : {O Q A : Type 0} → OrgContext → Q → (Log O Q → A) → M (Log O Q) A
home_call orc q answer l = let l' = Call.rpc orc.conn (home_grpc_ctx orc) q ∷ l in (answer l', l')

-- The provider to act on, from the one that the code finds and the stored one.
unfoldable pub choose_provider : String → String → String
choose_provider found stored =
    if found == ""
    then (if not (stored == "") then "" else stored)
    else if not (found == stored)
    then found
    else stored

unfoldable pub update_tap_request : String → TapProvider → UpdateTapRequest
update_tap_request id tap = record {
  id = id;
  code = tap.spec.code;
  name = tap.spec.name;
  success_redirect_url = tap.spec.success_redirect_url;
}

unfoldable pub create_tap_request : String → TapProvider → CreateTapRequest
create_tap_request api_key tap = record {
  code = tap.spec.code;
  name = tap.spec.name;
  api_key = api_key;
  success_redirect_url = tap.spec.success_redirect_url;
}
