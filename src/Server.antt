-- ===== src/Server.antt =====
-- packages/server/src: the control plane.
pub mod Tests
pub mod Db
pub mod State
pub mod Negotiate
pub mod Relay
pub mod Reaper
pub mod RateLimit
pub mod Steps
pub mod Subnet
pub mod Api
pub mod Upgrade
