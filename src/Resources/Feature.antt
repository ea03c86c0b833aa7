-- ===== src/Resources/Feature.antt =====
-- feature_controller.go and feature_types.go, and convert.MetadataInputs.
use invora_controller.Prelude.{String, false, Option, some, List, [], ◌∷◌}
use invora_controller.Api.{ResourceRef, Cr, CatalogStatus, NamespacedName}
use invora_controller.Go.{M, Outcome}
use invora_controller.Cluster.{Env, Log}
use invora_controller.Catalog.Reconcile.{reconcile}
use invora_controller.Catalog.{
  Catalog, by_id, by_update, never, ignored, wrapped, Service, CatalogRpc,
}
use invora_controller.Convert.{str_ptr}

pub record FeatureSpec : Type 0 where
  pub organization_ref : ResourceRef
  pub deletion_policy : String
  pub code : String
  pub name : String
  pub description : String
  pub metadata : List (String × String)

abbrev pub Feature : Type 0
Feature = Cr FeatureSpec CatalogStatus

pub record MetadataInput : Type 0 where
  pub key : String
  pub value : Option String

pub record FeatureCreateRequest : Type 0 where
  pub code : String
  pub metadata : List MetadataInput
  pub name : Option String
  pub description : Option String

pub record FeatureUpdateRequest : Type 0 where
  pub id : String
  pub metadata : List MetadataInput
  pub name : Option String
  pub description : Option String

-- The order of a Go map is open; here it is that of the list.
unfoldable pub metadata_inputs : List (String × String) → List MetadataInput
metadata_inputs [] = []
metadata_inputs ((k, v) ∷ m) = record { key = k; value = some v } ∷ metadata_inputs m

unfoldable pub build_create_feature_request : Feature → FeatureCreateRequest
unfolding metadata_inputs str_ptr
build_create_feature_request feature = record {
  code = feature.spec.code;
  metadata = metadata_inputs feature.spec.metadata;
  name = str_ptr feature.spec.name;
  description = str_ptr feature.spec.description;
}

unfoldable pub build_update_feature_request : Feature → FeatureUpdateRequest
unfolding metadata_inputs str_ptr
build_update_feature_request feature = record {
  id = feature.status.external_id;
  metadata = metadata_inputs feature.spec.metadata;
  name = str_ptr feature.spec.name;
  description = str_ptr feature.spec.description;
}

abbrev pub feature_catalog : Catalog FeatureSpec FeatureCreateRequest FeatureUpdateRequest
feature_catalog = record {
  organization_ref = λ s. s.organization_ref;
  deletion_policy = λ s. s.deletion_policy;
  key = λ s. s.code;
  get_key = λ o. by_id o.status.external_id;
  create_request = build_create_feature_request;
  update_call = λ o. by_update (build_update_feature_request o);
  strategy = never;
  plural = "features";
  checks_import = false;
  import_status = ignored;
  in_sync_status = ignored;
  adopted_status = ignored;
  created_status = wrapped;
}

-- Reconcile of Feature
abbrev pub reconcile_feature :
    Service Feature FeatureCreateRequest FeatureUpdateRequest
    → Env Feature (CatalogRpc FeatureCreateRequest FeatureUpdateRequest)
    → NamespacedName
    → M (Log Feature (CatalogRpc FeatureCreateRequest FeatureUpdateRequest)) Outcome
reconcile_feature svc env = reconcile feature_catalog svc env
