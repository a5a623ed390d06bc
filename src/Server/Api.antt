-- ===== src/Server/Api.antt =====
-- packages/server/src/api.ts: the REST API, one request at a time.
pub mod Values
pub mod Validate
pub mod Reply
pub mod Tables
pub mod Networks
pub mod Peers
pub mod Ports
pub mod Links
pub mod Routes
pub mod Denied
pub mod Apart
pub mod Touched
pub mod Tenants
pub mod Patched
pub mod Confined
pub mod Written
pub mod Addresses
