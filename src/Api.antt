-- ===== src/Api.antt =====
-- The shared types of api/v1alpha1 (common_types.go) and of the Kubernetes object model that the
-- controllers read: metadata, conditions, and custom resources as a spec and a status.
use invora_controller.Prelude.{ℕ, String, Bool, true, false, Option, none, some, List}

-- metav1.ObjectMeta, as far as the controllers read or write it.
pub record ObjectMeta : Type 0 where
  pub name : String
  pub namespace : String
  pub generation : ℕ
  pub deletion_timestamp : Option ℕ
  pub finalizers : List String
  pub annotations : List (String × String)
  pub labels : List (String × String)

-- !obj.DeletionTimestamp.IsZero()
abbrev pub is_deleted : ObjectMeta → Bool
is_deleted m = elim m.deletion_timestamp [ none ↦ false | some _ ↦ true ]

-- metav1.ConditionStatus
pub data ConditionStatus : Type 0 where
  condition_true condition_false condition_unknown : ConditionStatus

-- metav1.Condition
pub record Condition : Type 0 where
  pub type_name : String
  pub status : ConditionStatus
  pub observed_generation : ℕ
  pub reason : String
  pub message : String
  pub last_transition_time : Option ℕ

-- types.NamespacedName
pub record NamespacedName : Type 0 where
  pub namespace : String
  pub name : String

pub record ResourceRef : Type 0 where
  pub name : String
  pub namespace : String

pub record SecretKeyRef : Type 0 where
  pub name : String
  pub namespace : String
  pub key : String

pub record BillingResourceStatus : Type 0 where
  pub id : String
  pub observed_generation : ℕ
  pub conditions : List Condition
  pub last_synced_at : Option ℕ

-- A custom resource; its kind is its type.
pub record Cr (S T : Type 0) : Type 0 where
  pub meta : ObjectMeta
  pub spec : S
  pub status : T

abbrev pub deletion_policy_delete : String
deletion_policy_delete = "Delete"

abbrev pub deletion_policy_orphan : String
deletion_policy_orphan = "Orphan"

abbrev pub condition_ready : String
condition_ready = "Ready"

abbrev pub condition_synced : String
condition_synced = "Synced"

abbrev pub condition_dependency_ready : String
condition_dependency_ready = "DependencyReady"

abbrev pub condition_deletion_blocked : String
condition_deletion_blocked = "DeletionBlocked"

abbrev pub annotation_import_id : String
annotation_import_id = "billing.invora.app/import-id"

abbrev pub annotation_reconcile_interval : String
annotation_reconcile_interval = "billing.invora.app/reconcile-interval"

abbrev pub finalizer_name : String
finalizer_name = "billing.invora.app/cleanup"

-- The status of every catalog resource: tax, metric, plan, coupon, feature, add-on, customer and
-- webhook endpoint have the same one.
pub record CatalogStatus : Type 0 where
  pub base : BillingResourceStatus
  pub external_id : String

-- api/v1alpha1/instance_types.go
pub record InstanceSpec : Type 0 where
  pub gateway_url : String
  pub insecure : Bool
  pub token_ref : SecretKeyRef

pub record InstanceStatus : Type 0 where
  pub base : BillingResourceStatus
  pub last_connected_at : Option ℕ

abbrev pub Instance : Type 0
Instance = Cr InstanceSpec InstanceStatus

-- api/v1alpha1/organization_types.go
pub record OrganizationSpec : Type 0 where
  pub instance_ref : ResourceRef
  pub deletion_policy : String
  pub name : String
  pub email : String
  pub timezone : String
  pub document_numbering : String
  pub parent_org_ref : Option ResourceRef
  pub enable_parent_dual_write : Option Bool
  pub external_id : String

pub record OrganizationStatus : Type 0 where
  pub base : BillingResourceStatus
  pub organization_id : String
  pub parent_org_ref : Option ResourceRef
  pub parent_customer_id : Option String

abbrev pub Organization : Type 0
Organization = Cr OrganizationSpec OrganizationStatus
