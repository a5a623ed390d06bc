-- ===== src/Server/Api/Tables.antt =====
-- The statements of packages/server/src/api.ts that write the database, with the constraints that
-- SQLite checks. `none` is an error that the statement throws.
use meshezia.Common.{
  Text, text_eq, Bool, ◌&&◌, ◌||◌, not, Option, none, some, List, [], ◌∷◌, ◌++◌, map, filter, any,
  is_some, if◌then◌else◌,
}
use meshezia.Server.Db.{NetworkRow, PeerRow, PortRow, Db, peer_by_id, network_by_id, delete_peer}

-- INSERT INTO networks: `id`, `name` and `token` are unique.
unfoldable pub insert_network : NetworkRow → Db → Option Db
insert_network row db =
    if any
      (λ (n : NetworkRow).
        text_eq n.id row.id || text_eq n.name row.name || text_eq n.token row.token)
      db.networks
    then none
    else some (record db { networks = db.networks ++ row ∷ [] })

unfoldable pub delete_peers_of : List PeerRow → Db → Db
delete_peers_of [] db = db
delete_peers_of (row ∷ rows) db = delete_peers_of rows (delete_peer db row.id)

-- The peers of a network.
abbrev pub peers_of : Text → List PeerRow → List PeerRow
peers_of network_id peers = filter (λ (p : PeerRow). text_eq p.network_id network_id) peers

-- DELETE FROM networks WHERE id = ?, with the cascade to its peers and what names them.
unfoldable pub delete_network : Text → Db → Db
unfolding delete_peers_of
delete_network id db =
    delete_peers_of (peers_of id db.peers)
      (record db { networks = filter (λ (n : NetworkRow). not (text_eq n.id id)) db.networks })

-- UPDATE networks SET … WHERE id = ?
unfoldable pub change_network : (NetworkRow → NetworkRow) → Text → Db → Db
change_network f id db = record db {
  networks = map (λ (n : NetworkRow). if text_eq n.id id then f n else n) db.networks;
}

-- UPDATE networks SET name = ? WHERE id = ?: another row may have the name.
unfoldable pub rename_network : Text → Text → Db → Option Db
unfolding change_network
rename_network name id db =
    if is_some (network_by_id db id)
      && any (λ (n : NetworkRow). text_eq n.name name && not (text_eq n.id id)) db.networks
    then none
    else some (change_network (λ n. record n { name = name }) id db)

-- INSERT INTO peers, for a network that exists: `id`, and the name in the network, are unique.
unfoldable pub insert_peer : PeerRow → Db → Option Db
insert_peer row db =
    if any
      (λ (p : PeerRow).
        text_eq p.id row.id || text_eq p.network_id row.network_id && text_eq p.name row.name)
      db.peers
    then none
    else some (record db { peers = db.peers ++ row ∷ [] })

-- UPDATE peers SET … WHERE id = ?
unfoldable pub change_peer : (PeerRow → PeerRow) → Text → Db → Db
change_peer f id db = record db {
  peers = map (λ (p : PeerRow). if text_eq p.id id then f p else p) db.peers;
}

abbrev pub is_port_of : Text → Text → PortRow → Bool
is_port_of from to row = text_eq row.from_peer_id from && text_eq row.to_peer_id to

unfoldable pub put_port : PortRow → List PortRow → List PortRow
put_port row [] = row ∷ []
put_port row (r ∷ rs) =
    let rest = put_port row rs in
    if is_port_of row.from_peer_id row.to_peer_id r then row ∷ rs else r ∷ rest

-- INSERT INTO peer_ports … ON CONFLICT DO UPDATE: both peers have to exist.
unfoldable pub upsert_port : PortRow → Db → Option Db
unfolding put_port
upsert_port row db =
    if is_some (peer_by_id db row.from_peer_id) && is_some (peer_by_id db row.to_peer_id)
    then some (record db { peer_ports = put_port row db.peer_ports })
    else none

-- The transaction of PUT /api/peers/:id/ports: an error rolls it back.
unfoldable pub upsert_ports : List PortRow → Db → Option Db
unfolding upsert_port
upsert_ports [] db = some db
upsert_ports (row ∷ rows) db = elim (upsert_port row db) [
  | none ↦ none
  | some db' ↦ upsert_ports rows db'
]
