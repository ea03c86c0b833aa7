-- ===== src/Resources/WebhookEndpoint.antt =====
-- webhookendpoint_controller.go and webhookendpoint_types.go. The key is the URL.
use invora_controller.Prelude.{ℕ, String, false, Option, none, some, ◌==◌, if◌then◌else◌}
use invora_controller.Api.{ResourceRef, Cr, CatalogStatus, NamespacedName}
use invora_controller.Go.{M, Outcome}
use invora_controller.Cluster.{Env, Log}
use invora_controller.Catalog.Reconcile.{reconcile}
use invora_controller.Catalog.{
  Catalog, by_id, by_update, by_list, ignored, wrapped, Service, CatalogRpc,
}
use invora_controller.Convert.{webhook_signature_algo}

pub record WebhookEndpointSpec : Type 0 where
  pub organization_ref : ResourceRef
  pub deletion_policy : String
  pub webhook_url : String
  pub signature_algo : String

abbrev pub WebhookEndpoint : Type 0
WebhookEndpoint = Cr WebhookEndpointSpec CatalogStatus

pub record WebhookCreateRequest : Type 0 where
  pub webhook_url : String
  pub signature_algo : Option ℕ

pub record WebhookUpdateRequest : Type 0 where
  pub id : String
  pub webhook_url : String
  pub signature_algo : Option ℕ

abbrev algo_ptr : String → Option ℕ
algo_ptr s = if s == "" then none else some (webhook_signature_algo s)

unfoldable pub build_webhook_create_request : WebhookEndpoint → WebhookCreateRequest
unfolding webhook_signature_algo
build_webhook_create_request wh = record {
  webhook_url = wh.spec.webhook_url;
  signature_algo = algo_ptr wh.spec.signature_algo;
}

unfoldable pub build_webhook_update_request : WebhookEndpoint → WebhookUpdateRequest
unfolding webhook_signature_algo
build_webhook_update_request wh = record {
  id = wh.status.external_id;
  webhook_url = wh.spec.webhook_url;
  signature_algo = algo_ptr wh.spec.signature_algo;
}

abbrev pub webhook_catalog : Catalog WebhookEndpointSpec WebhookCreateRequest WebhookUpdateRequest
webhook_catalog = record {
  organization_ref = λ s. s.organization_ref;
  deletion_policy = λ s. s.deletion_policy;
  key = λ s. s.webhook_url;
  get_key = λ o. by_id o.status.external_id;
  create_request = build_webhook_create_request;
  update_call = λ o. by_update (build_webhook_update_request o);
  strategy = by_list;
  plural = "webhook endpoints";
  checks_import = false;
  import_status = ignored;
  in_sync_status = ignored;
  adopted_status = ignored;
  created_status = wrapped;
}

-- Reconcile of WebhookEndpoint
abbrev pub reconcile_webhook_endpoint :
    Service WebhookEndpoint WebhookCreateRequest WebhookUpdateRequest
    → Env WebhookEndpoint (CatalogRpc WebhookCreateRequest WebhookUpdateRequest)
    → NamespacedName
    → M (Log WebhookEndpoint (CatalogRpc WebhookCreateRequest WebhookUpdateRequest)) Outcome
reconcile_webhook_endpoint svc env = reconcile webhook_catalog svc env
