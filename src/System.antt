-- ===== src/System.antt =====
-- The server and the agents together.
pub mod Relayed
pub mod Probed
mod Tests
