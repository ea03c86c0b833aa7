-- ===== src/Tests/TapProviders.antt =====
-- The theorems on Tap providers, at one whose row was first written to the home organization.
use invora_controller.Prelude.{◌≡◌, ◌⊎◌, none, some, [], ◌∷◌, ◌++◌}
use invora_controller.Go.{ok}
use invora_controller.Api.{NamespacedName, Organization}
use invora_controller.Cluster.{Call, Kind, Env}
use invora_controller.Base.{OrgContext, grpc_ctx}
use invora_controller.Resource.{resolved}
use invora_controller.Tenant.{org_acting_id}
use invora_controller.Catalog.Tenancy.{Refers}
use invora_controller.TapProviders.{TapProvider, TapRpc, TapService, State}
use invora_controller.TapProviders.Reconcile.{reconcile_tap, sync_provider}
use invora_controller.TapProviders.Twins.{resolution, deletes-reconcile_tap}
use invora_controller.TapProviders.Cleanup.{deletes, DeletesTwin}
use invora_controller.TapProviders.Targets.{writes, writes_after, writes-sync_provider}
use invora_controller.Tests.World.{named, ready, acme, calm_env}

abbrev tap_card : TapProvider
tap_card = record {
  meta = named "tap";
  spec = record {
    organization_ref = record { name = "acme"; namespace = "" };
    deletion_policy = "";
    code = "tap_main";
    name = "Tap";
    tap_api_key_ref = record { name = "token"; namespace = ""; key = "key" };
    tap_public_key_ref = none;
    tap_webhook_secret_ref = none;
    success_redirect_url = "https://shop.example.org/paid";
    failure_redirect_url = "";
  };
  status = record { base = ready; provider_code = "tap_main"; provider_id = "row-home" };
}

-- The home organization still has the row, and each Get finds it.
abbrev two_rows : TapService
two_rows = record {
  get = λ c l. ok (some "row-home");
  create = λ q l. ok (record { id = "row-tenant"; code = q.code });
  update = λ q l. ok (record { id = "row-tenant"; code = "tap_main" });
  delete = λ i l. none;
}

abbrev tap_env : Env TapProvider TapRpc
tap_env = calm_env tap_card

abbrev context : OrgContext
context = record { org = acme; conn = none; token = "t"; org_id = "tenant-1" }

abbrev start : State
start = []

abbrev tap_name : NamespacedName
tap_name = record { namespace = "billing"; name = "tap" }

deletes-reconcile_tap_example :
    (deletes (reconcile_tap two_rows tap_env tap_name start).1 ≡ [])
    ⊎ ((tap : TapProvider) × (orc : OrgContext) × (org : Organization) × (tap_env.get_own start
            tap_name
          ≡ ok tap)
        × ((resolution two_rows tap_env tap (Call.get Kind.own_kind tap_name ∷ start)).0.0
            ≡ resolved orc)
        × Refers tap_env tap.spec.organization_ref tap.meta.namespace org
        × (orc.org_id ≡ org_acting_id org)
        × DeletesTwin two_rows tap_env orc start (reconcile_tap two_rows tap_env tap_name start).1)
deletes-reconcile_tap_example = deletes-reconcile_tap two_rows tap_env tap_name start

writes-sync_provider_example :
    writes (sync_provider two_rows tap_env context "sk_live" tap_card start).1
    ≡ writes_after two_rows tap_env context "sk_live" tap_card (
        two_rows.get "tap_main"
          (Call.rpc none (grpc_ctx context) (TapRpc.get_provider "tap_main") ∷ start))
      ++ writes start
writes-sync_provider_example =
    writes-sync_provider two_rows tap_env context "sk_live" tap_card start
