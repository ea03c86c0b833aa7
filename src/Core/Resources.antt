-- ===== src/Core/Resources.antt =====
-- The resources of api/core and api/invoicing that a controller pushes to the gateway.
pub mod Branch
pub mod Business
pub mod Regulation
pub mod Settings
