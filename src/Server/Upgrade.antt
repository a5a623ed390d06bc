-- ===== src/Server/Upgrade.antt =====
-- The upgrade of /ws to a WebSocket in `fetch` of packages/server/src/index.ts.
pub mod Tokens
use meshezia.Common.{
  ℕ, Text, text_eq, Bool, ◌&&◌, Option, none, some, [], ◌∷◌, find, is_some, if◌then◌else◌,
}
use meshezia.Server.Db.{Db, NetworkRow, PeerRow}

-- The status of the refusal, or the peer whose socket it is.
pub data Access : Type 0 where
  refused : (status : ℕ) → Access
  admitted : (peer_id : Text) → Access

-- SELECT id FROM networks WHERE token = ?
unfoldable pub network_by_token : Db → Text → Option NetworkRow
network_by_token db token = find (λ (n : NetworkRow). text_eq n.token token) db.networks

-- SELECT network_id FROM peers WHERE id = ? AND network_id = ?
unfoldable pub is_peer_of : Db → Text → Text → Bool
is_peer_of db peer_id network_id =
    is_some
      (find (λ (p : PeerRow). text_eq p.id peer_id && text_eq p.network_id network_id) db.peers)

-- A token and a peer that are there and not empty.
unfoldable pub access_by : (admin_token token peer_id : Text) → Db → Access
unfolding network_by_token is_peer_of
access_by admin_token token peer_id db =
    if text_eq token admin_token then admitted peer_id else elim (network_by_token db token) [
      | none ↦ refused 401
      | some network ↦ if is_peer_of db peer_id network.id then admitted peer_id else refused 404
    ]

-- The two parameters of the URL. That Bun upgrades is taken for granted.
unfoldable pub ws_access : (admin_token : Text) → (token peer_id : Option Text) → Db → Access
unfolding access_by
ws_access admin_token (some (t ∷ ts)) (some (i ∷ is)) db =
    access_by admin_token (t ∷ ts) (i ∷ is) db
ws_access admin_token _ _ db = refused 400
