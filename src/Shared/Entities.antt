-- ===== src/Shared/Entities.antt =====
-- packages/shared/src/types.ts: what the REST API returns.
use meshezia.Common.{ℕ, Text, Bool, List}

pub record AwgParams : Type 0 where
  pub jc : ℕ
  pub jmin : ℕ
  pub jmax : ℕ
  pub s1 : ℕ
  pub s2 : ℕ
  pub h1 : ℕ
  pub h2 : ℕ
  pub h3 : ℕ
  pub h4 : ℕ

pub record Network : Type 0 where
  pub id : Text
  pub name : Text
  pub subnet : Text
  pub listen_port : ℕ
  pub relay_enabled : Bool
  pub awg : AwgParams

pub record Peer : Type 0 where
  pub id : Text
  pub network_id : Text
  pub name : Text
  pub public_ipv4 : Text
  pub pubkey : Text
  pub mesh_ipv4 : Text
  pub last_seen : ℕ
  pub is_relay_eligible : Bool
  pub ttl_seconds : ℕ
  pub memo : Text
  pub agent_version : Text

pub record PeerLink : Type 0 where
  pub from_peer_id : Text
  pub from_name : Text
  pub to_peer_id : Text
  pub to_name : Text
  pub mode : Text
  pub direct_alive : Bool
  pub relay_alive : Bool
  pub probing_direct : Bool
  pub rx_bytes : ℕ
  pub tx_bytes : ℕ
  pub last_handshake : ℕ
  pub endpoint : Text
  pub if_name : Text
  pub routing_table : ℕ
  pub updated_at : ℕ

-- A peer of the configuration of another; `listen_port` is the port that this one listens on for it.
pub record PeerEndpoint : Type 0 where
  pub id : Text
  pub name : Text
  pub pubkey : Text
  pub mesh_ipv4 : Text
  pub endpoint : Text
  pub listen_port : ℕ

-- What an agent receives from GET /api/peers/:id/config; the fields of `self` have its name in front.
pub record PeerConfig : Type 0 where
  pub self_id : Text
  pub self_mesh_ipv4 : Text
  pub self_listen_port : ℕ
  pub self_memo : Text
  pub relay_enabled : Bool
  pub network : AwgParams
  pub peers : List PeerEndpoint
