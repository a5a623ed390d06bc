-- ===== src/Server/Negotiate.antt =====
-- packages/server/src/negotiate.ts: the negotiation orchestrator.
pub mod Keys
pub mod Timers
pub mod Lifecycle
pub mod RelayProbe
pub mod DirectProbe
pub mod Health
pub mod Force
pub mod Router
pub mod Ownership
pub mod Verdicts
pub mod Endings
pub mod Guards
pub mod Forcing
pub mod Reports
