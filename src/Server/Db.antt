-- ===== src/Server/Db.antt =====
-- packages/server/src/db.ts: the four tables. A table is the list of its rows in the order of
-- insertion; INTEGER flags are numbers; `forced_mode` may be NULL. Foreign keys are on.
use meshezia.Common.{ℕ, Text, text_eq, Bool, ◌&&◌, ◌||◌, not, List, Option, filter, find}

pub record NetworkRow : Type 0 where
  pub id : Text
  pub name : Text
  pub token : Text
  pub subnet : Text
  pub listen_port : ℕ
  pub jc : ℕ
  pub jmin : ℕ
  pub jmax : ℕ
  pub s1 : ℕ
  pub s2 : ℕ
  pub h1 : ℕ
  pub h2 : ℕ
  pub h3 : ℕ
  pub h4 : ℕ
  pub relay_enabled : ℕ

pub record PeerRow : Type 0 where
  pub id : Text
  pub network_id : Text
  pub name : Text
  pub public_ip : Text
  pub pubkey : Text
  pub ipv4 : Text
  pub last_seen : ℕ
  pub is_relay_eligible : ℕ
  pub ttl_seconds : ℕ
  pub memo : Text
  pub agent_version : Text

pub record PortRow : Type 0 where
  pub from_peer_id : Text
  pub to_peer_id : Text
  pub port : ℕ

pub record LinkRow : Type 0 where
  pub from_peer_id : Text
  pub to_peer_id : Text
  pub mode : Text
  pub direct_alive : ℕ
  pub relay_alive : ℕ
  pub probing_direct : ℕ
  pub rx_bytes : ℕ
  pub tx_bytes : ℕ
  pub last_handshake : ℕ
  pub endpoint : Text
  pub if_name : Text
  pub routing_table : ℕ
  pub updated_at : ℕ
  pub forced_mode : Option Text

pub record Db : Type 0 where
  pub networks : List NetworkRow
  pub peers : List PeerRow
  pub peer_ports : List PortRow
  pub peer_links : List LinkRow

-- SELECT … FROM peers WHERE id = ?
unfoldable pub peer_by_id : Db → Text → Option PeerRow
peer_by_id db id = find (λ p. text_eq p.id id) db.peers

-- SELECT … FROM networks WHERE id = ?
unfoldable pub network_by_id : Db → Text → Option NetworkRow
network_by_id db id = find (λ n. text_eq n.id id) db.networks

-- Does a row stand for the link between two peers in this direction?
unfoldable pub is_link : Text → Text → LinkRow → Bool
is_link from to l = text_eq l.from_peer_id from && text_eq l.to_peer_id to

-- DELETE FROM peers WHERE id = ?, with the cascade to `peer_ports` and `peer_links`
unfoldable pub delete_peer : Db → Text → Db
delete_peer db id = record db {
  peers = filter (λ p. not (text_eq p.id id)) db.peers;
  peer_ports =
      filter (λ r. not (text_eq r.from_peer_id id || text_eq r.to_peer_id id)) db.peer_ports;
  peer_links =
      filter (λ r. not (text_eq r.from_peer_id id || text_eq r.to_peer_id id)) db.peer_links;
}
