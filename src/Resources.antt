-- ===== src/Resources.antt =====
-- The catalog controllers of internal/controller/, one to a module: the spec of its resource
-- (api/v1alpha1), its request builders, and its `Catalog`. Their Reconcile is `Catalog.Reconcile`
-- at that value.
pub mod Tax
pub mod Metric
pub mod Plan
pub mod Coupon
pub mod Feature
pub mod Addon
pub mod Customer
pub mod WebhookEndpoint
