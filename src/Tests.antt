-- ===== src/Tests.antt =====
-- Concrete environments, and the theorems applied in them.
mod World
mod Catalogs
mod Helpers
mod Stores
mod Mirrors
mod CatchUps
mod Subscriber
mod Organizations
mod Subscriptions
mod TapProviders
mod Cores
mod Processes
mod Conns
