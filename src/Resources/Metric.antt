-- ===== src/Resources/Metric.antt =====
-- metric_controller.go and metric_types.go
use invora_controller.Prelude.{
  ℕ, String, Bool, true, Option, none, some, List, map, ◌==◌, if◌then◌else◌,
}
use invora_controller.Api.{ResourceRef, Cr, CatalogStatus, NamespacedName}
use invora_controller.Go.{M, Outcome}
use invora_controller.Cluster.{Env, Log}
use invora_controller.Catalog.Reconcile.{reconcile}
use invora_controller.Catalog.{
  Catalog, by_id, by_update, by_scan, returned, wrapped, Service, CatalogRpc,
}
use invora_controller.Convert.{str_ptr, aggregation_type, weighted_interval}

pub record BillableMetricFilter : Type 0 where
  pub key : String
  pub values : List String

pub record MetricSpec : Type 0 where
  pub organization_ref : ResourceRef
  pub deletion_policy : String
  pub code : String
  pub name : String
  pub description : String
  pub aggregation_type : String
  pub field_name : String
  pub weighted_interval : String
  pub recurring : Bool
  pub filters : List BillableMetricFilter

abbrev pub Metric : Type 0
Metric = Cr MetricSpec CatalogStatus

-- The fields that the create and the update request have in common.
pub record MetricCreateRequest : Type 0 where
  pub code : String
  pub name : String
  pub description : String
  pub aggregation_type : ℕ
  pub filters : List BillableMetricFilter
  pub field_name : Option String
  pub weighted_interval : Option ℕ
  pub recurring : Option Bool

pub record MetricUpdateRequest : Type 0 where
  pub id : String
  pub code : String
  pub name : String
  pub description : String
  pub aggregation_type : ℕ
  pub filters : List BillableMetricFilter
  pub field_name : Option String
  pub weighted_interval : Option ℕ
  pub recurring : Option Bool

-- A nil slice and an empty one are the same to the request.
unfoldable pub build_billable_metric_filters : Metric → List BillableMetricFilter
build_billable_metric_filters metric =
    map (λ f. record { key = f.key; values = f.values }) metric.spec.filters

abbrev weighted_interval_ptr : String → Option ℕ
weighted_interval_ptr s = if s == "" then none else some (weighted_interval s)

abbrev recurring_ptr : Bool → Option Bool
recurring_ptr b = if b then some true else none

unfoldable pub build_create_billable_metric_request : Metric → MetricCreateRequest
unfolding str_ptr aggregation_type weighted_interval build_billable_metric_filters
build_create_billable_metric_request metric = record {
  code = metric.spec.code;
  name = metric.spec.name;
  description = metric.spec.description;
  aggregation_type = aggregation_type metric.spec.aggregation_type;
  filters = build_billable_metric_filters metric;
  field_name = str_ptr metric.spec.field_name;
  weighted_interval = weighted_interval_ptr metric.spec.weighted_interval;
  recurring = recurring_ptr metric.spec.recurring;
}

unfoldable pub build_update_billable_metric_request : Metric → MetricUpdateRequest
unfolding str_ptr aggregation_type weighted_interval build_billable_metric_filters
build_update_billable_metric_request metric = record {
  id = metric.status.external_id;
  code = metric.spec.code;
  name = metric.spec.name;
  description = metric.spec.description;
  aggregation_type = aggregation_type metric.spec.aggregation_type;
  filters = build_billable_metric_filters metric;
  field_name = str_ptr metric.spec.field_name;
  weighted_interval = weighted_interval_ptr metric.spec.weighted_interval;
  recurring = recurring_ptr metric.spec.recurring;
}

abbrev pub metric_catalog : Catalog MetricSpec MetricCreateRequest MetricUpdateRequest
metric_catalog = record {
  organization_ref = λ s. s.organization_ref;
  deletion_policy = λ s. s.deletion_policy;
  key = λ s. s.code;
  get_key = λ o. by_id o.status.external_id;
  create_request = build_create_billable_metric_request;
  update_call = λ o. by_update (build_update_billable_metric_request o);
  strategy = by_scan;
  plural = "billable metrics";
  checks_import = true;
  import_status = returned;
  in_sync_status = returned;
  adopted_status = wrapped;
  created_status = returned;
}

-- Reconcile of Metric
abbrev pub reconcile_metric :
    Service Metric MetricCreateRequest MetricUpdateRequest
    → Env Metric (CatalogRpc MetricCreateRequest MetricUpdateRequest)
    → NamespacedName
    → M (Log Metric (CatalogRpc MetricCreateRequest MetricUpdateRequest)) Outcome
reconcile_metric svc env = reconcile metric_catalog svc env
