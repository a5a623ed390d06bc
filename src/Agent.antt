-- ===== src/Agent.antt =====
-- packages/agent/src: the agent that runs at each peer.
pub mod Tests
pub mod Monitor
pub mod Reconciler
pub mod Negotiate
pub mod RelayProxy
pub mod Poll
pub mod Stats
