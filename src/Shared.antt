-- ===== src/Shared.antt =====
-- packages/shared/src: the messages of the control plane and the relay's binary frames.
pub mod Types
pub mod Protocol
pub mod Entities
