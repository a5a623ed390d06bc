-- ===== src/Server/Api/Ports.antt =====
-- "Peer Ports" and "Peer Config" of packages/server/src/api.ts.
use meshezia.Common.{
  ℕ, Text, codes, text_eq, text_lt, ◌&&◌, not, Option, none, some, List, [], ◌∷◌, ◌++◌, map, filter,
  length, ltb, ◌==◌, if◌then◌else◌,
}
use meshezia.Common.Dict.{Dict, get, set}
use meshezia.Shared.Entities.{PeerEndpoint, PeerConfig}
use meshezia.Server.Db.{NetworkRow, PeerRow, PortRow, Db, network_by_id, peer_by_id}
use meshezia.Server.State.{Server}
use meshezia.Server.Api.Values.{Value, text_of, number_or}
use meshezia.Server.Api.Validate.{is_valid_uuid, is_valid_port}
use meshezia.Server.Api.Reply.{
  Reply, fail, succeed, uncaught, Caller, require_admin_or_network, ok, config, awg_of, flag,
}
use meshezia.Server.Api.Tables.{upsert_ports, change_peer}

-- The body of PUT /api/peers/:id/ports. An entry is `none` if it is no object.
pub data PortsBody : Type 0 where
  invalid no_array : PortsBody
  entries : List (Option (Dict Value)) → PortsBody

abbrev pub peer_id_of : Dict Value → Option Value
peer_id_of entry = get entry (codes "peerId")

abbrev pub port_of : Dict Value → Option Value
port_of entry = get entry (codes "port")

-- The loop that tests the entries and the loop that saves them.
unfoldable pub save_entries : Text → List PortRow → List (Option (Dict Value)) → Server → Reply
unfolding upsert_ports
save_entries peer_id rows [] s = elim (upsert_ports rows s.db) [
  | none ↦ fail 500 "Database error" s
  | some db ↦ succeed ok (record s { db = db })
]
save_entries peer_id rows (none ∷ rest) s = fail 400 "Invalid port entry" s
save_entries peer_id rows (some entry ∷ rest) s =
    let row : PortRow = record {
      from_peer_id = peer_id;
      to_peer_id = text_of (peer_id_of entry);
      port = number_or 0 (port_of entry);
    } in
    let later = save_entries peer_id (rows ++ row ∷ []) rest s in
    if not (is_valid_uuid (peer_id_of entry))
    then fail 400 "Invalid peerId in port entry" s
    else if not (is_valid_port (port_of entry))
    then fail 400 "Invalid port number (1-65535)" s
    else later

abbrev save_ports : Text → PortsBody → Server → Reply
save_ports peer_id invalid s = fail 400 "Invalid JSON" s
save_ports peer_id no_array s = fail 400 "Invalid ports (array, max 100 entries)" s
save_ports peer_id (entries es) s =
    if ltb 100 (length es)
    then fail 400 "Invalid ports (array, max 100 entries)" s
    else save_entries peer_id [] es s

-- PUT /api/peers/:id/ports
unfoldable pub put_ports : Caller → Text → PortsBody → Server → Reply
unfolding save_entries
put_ports c peer_id body s = elim (peer_by_id s.db peer_id) [
  | none ↦ fail 404 "Peer not found" s
  | some row ↦ require_admin_or_network c row.network_id s (save_ports peer_id body s)
]

-- `myPorts`: the ports that a peer listens on, by the other peer.
unfoldable pub my_ports : Text → List PortRow → Dict ℕ → Dict ℕ
my_ports peer_id [] m = m
my_ports peer_id (row ∷ rows) m =
    my_ports peer_id rows
      (if text_eq row.from_peer_id peer_id then set m row.to_peer_id row.port else m)

-- `remotePorts`: the ports on which the other peers listen for a peer.
unfoldable pub remote_ports : Text → List PortRow → Dict ℕ → Dict ℕ
remote_ports peer_id [] m = m
remote_ports peer_id (row ∷ rows) m =
    remote_ports peer_id rows
      (if text_eq row.to_peer_id peer_id then set m row.from_peer_id row.port else m)

-- ORDER BY id
unfoldable pub insert_by_id : PeerRow → List PeerRow → List PeerRow
insert_by_id p [] = p ∷ []
insert_by_id p (q ∷ qs) =
    let rest = insert_by_id p qs in if text_lt q.id p.id then q ∷ rest else p ∷ q ∷ qs

unfoldable pub sort_by_id : List PeerRow → List PeerRow
unfolding insert_by_id
sort_by_id [] = []
sort_by_id (p ∷ ps) = insert_by_id p (sort_by_id ps)

-- WHERE network_id = ? AND id != ? ORDER BY id
unfoldable pub other_peers : PeerRow → List PeerRow → List PeerRow
unfolding sort_by_id
other_peers me peers =
    sort_by_id (
      filter (λ (p : PeerRow). text_eq p.network_id me.network_id && not (text_eq p.id me.id))
        peers)

-- `remotePort ? `${p.public_ip}:${remotePort}` : ''`
abbrev pub endpoint_text : (ℕ → Text) → Text → Option ℕ → Text
endpoint_text decimal public_ip none = []
endpoint_text decimal public_ip (some port) =
    if port == 0 then [] else public_ip ++ (b':' ∷ decimal port)

abbrev pub port_or_zero : Option ℕ → ℕ
port_or_zero none = 0
port_or_zero (some port) = port

-- The entry for another peer; `decimal` prints a number.
unfoldable pub endpoint_of : (decimal : ℕ → Text) → (mine remote : Dict ℕ) → PeerRow → PeerEndpoint
endpoint_of decimal mine remote p = record {
  id = p.id;
  name = p.name;
  pubkey = p.pubkey;
  mesh_ipv4 = p.ipv4;
  endpoint = endpoint_text decimal p.public_ip (get remote p.id);
  listen_port = port_or_zero (get mine p.id);
}

unfoldable pub config_of : (decimal : ℕ → Text) → PeerRow → NetworkRow → Db → PeerConfig
unfolding my_ports remote_ports other_peers endpoint_of
config_of decimal me row db = record {
  self_id = me.id;
  self_mesh_ipv4 = me.ipv4;
  self_listen_port = row.listen_port;
  self_memo = me.memo;
  relay_enabled = flag row.relay_enabled;
  network = awg_of row;
  peers =
      map
        (endpoint_of decimal (my_ports me.id db.peer_ports [])
          (remote_ports me.id db.peer_ports []))
        (other_peers me db.peers);
}

-- The handler behind the test of the token. The network of a peer exists, by the foreign key.
unfoldable pub send_config : (decimal : ℕ → Text) → ℕ → PeerRow → Server → Reply
unfolding change_peer config_of
send_config decimal now me s =
    let seen = record s { db = change_peer (λ p. record p { last_seen = now }) me.id s.db } in
    elim (network_by_id seen.db me.network_id) [
      | none ↦ uncaught seen
      | some row ↦ succeed (config (config_of decimal me row seen.db)) seen
    ]

-- GET /api/peers/:id/config
unfoldable pub get_config : (decimal : ℕ → Text) → ℕ → Caller → Text → Server → Reply
unfolding send_config
get_config decimal now c peer_id s = elim (peer_by_id s.db peer_id) [
  | none ↦ fail 404 "Peer not found" s
  | some me ↦ require_admin_or_network c me.network_id s (send_config decimal now me s)
]
