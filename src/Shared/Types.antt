-- ===== src/Shared/Types.antt =====
-- packages/shared/src/types.ts: health reports and the WebSocket text messages. A message is a
-- value here; the program sends its JSON.
use meshezia.Common.{ℕ, Bool, List, Text}

-- 'direct' | 'relay'
pub data Mode : Type 0 where
  direct relay : Mode

pub record HealthReport : Type 0 where
  pub peer_id : Text
  pub mode : Mode
  pub rx_alive : Bool
  pub relay_alive : Bool
  pub probing_direct : Bool
  pub rx_bytes : ℕ
  pub tx_bytes : ℕ
  pub last_handshake : ℕ
  pub endpoint : Text
  pub if_name : Text
  pub routing_table : ℕ

-- The `action` of a verdict.
pub data Action : Type 0 where
  switch_relay switch_direct stay : Action

-- The `reason` of an abort.
pub data Reason : Type 0 where
  admin_force timeout ws_reset peer_removed : Reason

-- 'force-direct' | 'force-relay'
pub data ForcedMode : Type 0 where
  force_direct force_relay : ForcedMode

-- The `mode` of a force-mode message: one of these two, or 'auto'.
pub data ForceMode : Type 0 where
  forced : ForcedMode → ForceMode
  auto : ForceMode

-- The first text of every constructor but `health_report` is its field `with`.
pub data NegotiateMessage : Type 0 where
  health_report : List HealthReport → NegotiateMessage
  probe_relay_serve : Text → NegotiateMessage
  probe_relay_ready : Text → (mesh_ipv4 : Text) → (tcp_port : ℕ) → (nonce : Text) → NegotiateMessage
  probe_relay_check :
      Text
      → (mesh_ipv4 : Text) → (tcp_port : ℕ) → (nonce : Text) → (client_pubkey : Text)
      → (server_pubkey : Text) → NegotiateMessage
  probe_relay_result : Text → (success : Bool) → NegotiateMessage
  probe_direct_start : Text → NegotiateMessage
  probe_direct_ready : Text → (udp_port : ℕ) → (nonce : Text) → NegotiateMessage
  probe_direct_go :
      Text → (peer_ipv4 : Text) → (peer_udp_port : ℕ) → (peer_nonce : Text) → NegotiateMessage
  probe_direct_result : Text → (success : Bool) → NegotiateMessage
  probe_verdict : Text → Action → NegotiateMessage
  probe_error : Text → (error : Text) → NegotiateMessage
  negotiate_abort : Text → Reason → NegotiateMessage
  force_mode : Text → ForceMode → NegotiateMessage

-- The negotiate messages and what else the server pushes.
pub data RelayControlMessage : Type 0 where
  negotiate : NegotiateMessage → RelayControlMessage
  peer_removed : Text → RelayControlMessage
  agent_update : Text → RelayControlMessage
  ping : RelayControlMessage
