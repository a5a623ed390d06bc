-- ===== src/Server/Reaper.antt =====
-- packages/server/src/reaper.ts: the deletion of peers that have not been seen for their TTL.
pub mod Notices
pub mod Exact
use meshezia.Common.{
  ℕ, ◌+◌, ◌*◌, Text, text_eq, Bool, true, false, ◌&&◌, Option, none, some, List, [], ◌∷◌, ◌++◌,
  filter, ltb, if◌then◌else◌,
}
use meshezia.Common.Dict.{Dict, get, set}
use meshezia.Shared.Types.{RelayControlMessage, peer_removed, Reason}
use meshezia.Server.Db.{PeerRow, Db, delete_peer}
use meshezia.Server.State.{Server, send_text_to_peer}
use meshezia.Server.Negotiate.Lifecycle.{abort_peer_negotiations, cleanup_peer_health}

-- ttl_seconds > 0 AND (now - last_seen) > (ttl_seconds * 1000)
unfoldable pub is_expired : ℕ → PeerRow → Bool
is_expired now p = ltb 0 p.ttl_seconds && ltb (p.last_seen + p.ttl_seconds * 1000) now

-- `const list = byNetwork.get(id) ?? []; list.push(row.id); byNetwork.set(id, list)`
add_to_network : PeerRow → Dict (List Text) → Dict (List Text)
add_to_network row by_network = elim (get by_network row.network_id) [
  | none ↦ set by_network row.network_id (row.id ∷ [])
  | some list ↦ set by_network row.network_id (list ++ row.id ∷ [])
]

unfoldable pub group_by_network : List PeerRow → Dict (List Text) → Dict (List Text)
unfolding add_to_network
group_by_network [] by_network = by_network
group_by_network (row ∷ rows) by_network = group_by_network rows (add_to_network row by_network)

unfoldable pub forget_peers : List PeerRow → Server → Server
forget_peers [] s = s
forget_peers (row ∷ rows) s =
    forget_peers rows
      (cleanup_peer_health row.id (abort_peer_negotiations row.id Reason.peer_removed s))

unfoldable pub delete_peers : List PeerRow → Db → Db
delete_peers [] db = db
delete_peers (row ∷ rows) db = delete_peers rows (delete_peer db row.id)

unfoldable pub notify_each : Text → List PeerRow → Server → Server
notify_each deleted_id [] s = s
notify_each deleted_id (peer ∷ rest) s =
    notify_each deleted_id rest (send_text_to_peer s peer.id (peer_removed deleted_id))

unfoldable pub notify_ids : List Text → List PeerRow → Server → Server
unfolding notify_each
notify_ids [] remaining s = s
notify_ids (deleted_id ∷ rest) remaining s =
    notify_ids rest remaining (notify_each deleted_id remaining s)

unfoldable pub notify_networks : Dict (List Text) → Server → Server
unfolding notify_ids
notify_networks [] s = s
notify_networks ((network_id, deleted_ids) ∷ rest) s =
    notify_networks rest
      (notify_ids deleted_ids (filter (λ p. text_eq p.network_id network_id) s.db.peers) s)

-- The rest of `reap` once there are expired peers. `commits` says whether SQLite commits the
-- deletions; where it throws, the error is logged and nobody is notified.
unfoldable pub reap_expired : List PeerRow → (commits : Bool) → Server → Server
unfolding group_by_network forget_peers delete_peers notify_networks
reap_expired expired commits s =
    let forgotten = forget_peers expired s in
    if commits
    then notify_networks (group_by_network expired [])
        (record forgotten { db = delete_peers expired forgotten.db })
    else forgotten

unfoldable pub reap : ℕ → (commits : Bool) → Server → Server
unfolding is_expired reap_expired
reap now commits s = reap_expired (filter (is_expired now) s.db.peers) commits s
