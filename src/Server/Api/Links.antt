-- ===== src/Server/Api/Links.antt =====
-- "Links", "Force mode" and "Agent self-update push" of packages/server/src/api.ts.
use meshezia.Common.{
  Text, codes, text_eq, ◌||◌, not, Option, none, some, List, [], ◌∷◌, ◌++◌, if◌then◌else◌,
}
use meshezia.Common.Dict.{Dict, get}
use meshezia.Shared.Types.{ForceMode, forced, auto, force_direct, force_relay, agent_update}
use meshezia.Shared.Entities.{PeerLink}
use meshezia.Server.Db.{PeerRow, LinkRow, Db, peer_by_id}
use meshezia.Server.State.{Server, is_peer_connected, send_text_to_peer}
use meshezia.Server.Negotiate.Force.{handle_force_mode}
use meshezia.Server.Api.Values.{Value, text, Body, invalid, nothing, fields, Platform, text_of}
use meshezia.Server.Api.Validate.{is_valid_uuid}
use meshezia.Server.Api.Reply.{
  Reply, fail, succeed, uncaught, Caller, require_admin, require_admin_or_network, ok, links,
  format_link,
}

-- The row of the join for a link, if its two peers are there and the first is of the network.
abbrev joined : Text → LinkRow → Option PeerRow → Option PeerRow → List PeerLink
joined network_id l (some p1) (some p2) =
    if text_eq p1.network_id network_id then format_link p1.name p2.name l ∷ [] else []
joined network_id l _ _ = []

-- The query of GET /api/links, where a peer's id is unique.
unfoldable pub links_of : Text → Db → List LinkRow → List PeerLink
links_of network_id db [] = []
links_of network_id db (l ∷ ls) =
    joined network_id l (peer_by_id db l.from_peer_id) (peer_by_id db l.to_peer_id)
    ++ links_of network_id db ls

-- GET /api/links
unfoldable pub get_links : Caller → (network_id : Option Text) → Server → Reply
unfolding links_of
get_links c (some (t ∷ ts)) s =
    require_admin_or_network c (t ∷ ts) s
      (succeed (links (links_of (t ∷ ts) s.db s.db.peer_links)) s)
get_links c _ s = fail 400 "network_id required" s

-- One of 'force-direct', 'force-relay' and 'auto'.
unfoldable pub force_mode_of : Text → Option ForceMode
force_mode_of t =
    if text_eq t (codes "force-direct")
    then some (forced force_direct)
    else if text_eq t (codes "force-relay")
    then some (forced force_relay)
    else if text_eq t (codes "auto")
    then some auto
    else none

abbrev mode_of : Option Value → Option ForceMode
mode_of (some (text t)) = force_mode_of t
mode_of _ = none

unfoldable pub force_pair : Text → Text → ForceMode → Server → Reply
force_pair peer_a peer_b mode s = elim (peer_by_id s.db peer_a) [
  | none ↦ fail 404 "Peer not found" s
  | some a ↦ elim (peer_by_id s.db peer_b) [
    | none ↦ fail 404 "Peer not found" s
    | some b ↦
        if not (text_eq a.network_id b.network_id)
        then fail 400 "Peers must belong to the same network" s
        else succeed ok (handle_force_mode peer_a peer_b mode s)
  ]
]

unfoldable pub force_by : Dict Value → Server → Reply
unfolding force_pair force_mode_of
force_by body s =
    let peer_a = get body (codes "peerA") in
    let peer_b = get body (codes "peerB") in
    if not (is_valid_uuid peer_a) || not (is_valid_uuid peer_b)
    then fail 400 "Invalid peer ID format" s
    else elim (mode_of (get body (codes "mode"))) [
      | none ↦ fail 400 "mode must be force-direct, force-relay, or auto" s
      | some mode ↦ force_pair (text_of peer_a) (text_of peer_b) mode s
    ]

-- POST /api/links/force-mode
unfoldable pub post_force_mode : Caller → Body → Server → Reply
unfolding force_by
post_force_mode c body s = require_admin c s (elim body [
  | invalid ↦ fail 400 "Invalid JSON" s
  | nothing ↦ uncaught s
  | fields m ↦ force_by m s
])

unfoldable pub push_update : Text → Text → Server → Reply
push_update peer_id url s = elim (peer_by_id s.db peer_id) [
  | none ↦ fail 404 "Peer not found" s
  | some row ↦
      if is_peer_connected s peer_id
      then succeed ok (send_text_to_peer s peer_id (agent_update url))
      else fail 409 "Peer not connected via WebSocket" s
]

-- `!body.url || typeof body.url !== 'string'`, and the test of the URL
abbrev update_by : Platform → Text → Option Value → Server → Reply
update_by platform peer_id (some (text (t ∷ ts))) s =
    if platform.is_url (t ∷ ts) then push_update peer_id (t ∷ ts) s else fail 400 "Invalid URL" s
update_by platform peer_id _ s = fail 400 "url required" s

-- POST /api/peers/:id/update
unfoldable pub post_update : Platform → Caller → Text → Body → Server → Reply
unfolding push_update
post_update platform c peer_id body s = require_admin c s (elim body [
  | invalid ↦ fail 400 "Invalid JSON" s
  | nothing ↦ uncaught s
  | fields m ↦ update_by platform peer_id (get m (codes "url")) s
])
