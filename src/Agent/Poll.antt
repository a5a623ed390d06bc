-- ===== src/Agent/Poll.antt =====
-- `poll` of packages/agent/src/index.ts, from the peers of the configuration on.
use meshezia.Common.{
  ℕ, suc, ◌+◌, Text, text_eq, Bool, true, false, not, Option, none, some, List, [], ◌∷◌, any,
  if◌then◌else◌, ◌&&◌, ◌++◌, ◌≡◌,
}
pub mod Relays
pub mod Ports
pub mod Active
pub mod Collision
use meshezia.Common.Dict.{Dict, get, keys}
use meshezia.Shared.Entities.{PeerEndpoint}
use meshezia.Agent.Monitor.{init_peer_state, remove_peer_state}
use meshezia.Agent.RelayProxy.{EnsureRelayProxyOpts, Proxy, ensure_relay_proxy, remove_relay_proxy}

-- What reconciler.ts answers about a peer, and the port of the configuration.
pub record Known : Type 0 where
  pub get_if_name_for_peer : Text → Option Text
  pub get_port_for_peer : Text → Option ℕ
  pub listen_port : ℕ

abbrev pub or_else : {A : Type 0} → Option A → A → A
or_else none d = d
or_else (some a) d = a

abbrev pub is_empty : Text → Bool
is_empty [] = true
is_empty (c ∷ cs) = false

-- `initPeerState` of a round.
unfoldable pub init_state : PeerEndpoint → (if_name : Text) → (relay_port : ℕ) → Proxy → Proxy
init_state peer if_name relay_port p = record p {
  agent = record p.agent {
    monitor =
        init_peer_state
          (record {
            peer_id = peer.id;
            if_name = if_name;
            pubkey = peer.pubkey;
            peer_ipv4 = peer.mesh_ipv4;
            endpoint = peer.endpoint;
            relay_port = relay_port;
          })
          p.agent.monitor;
  };
}

abbrev pub opts_for : Known → ℕ → PeerEndpoint → EnsureRelayProxyOpts
opts_for known idx peer = record {
  peer_id = peer.id;
  index = idx;
  awg_listen_port = or_else (known.get_port_for_peer peer.id) known.listen_port;
}

-- The loop over the peers from the position `idx` on; `false` says that an error has left it. An
-- interface's name is not empty.
unfoldable pub poll_peers :
    (bind : ℕ → Option ℕ) → Known → ℕ → List PeerEndpoint → Proxy → Bool × Proxy
unfolding init_state
poll_peers bind known idx [] p = (true, p)
poll_peers bind known idx (peer ∷ rest) p =
    let skipped = poll_peers bind known idx rest p in
    elim (known.get_if_name_for_peer peer.id) [
      | none ↦ skipped
      | some if_name ↦
          if is_empty peer.pubkey
          then skipped
          else elim (ensure_relay_proxy bind (opts_for known idx peer) p) [
            | none ↦ (false, p)
            | some (relay_port, q) ↦
                poll_peers bind known (suc idx) rest (init_state peer if_name relay_port q)
          ]
    ]

-- `activePeerIds` after the loop.
unfoldable pub is_active : List PeerEndpoint → Text → Bool
is_active peers id =
    any (λ (peer : PeerEndpoint). not (is_empty peer.pubkey) && text_eq peer.id id) peers

-- The loop over the peers of the monitor.
unfoldable pub remove_inactive : List PeerEndpoint → List Text → Proxy → Proxy
unfolding is_active remove_relay_proxy
remove_inactive peers [] p = p
remove_inactive peers (id ∷ rest) p =
    let q = remove_relay_proxy id p in
    let removed = record q {
      agent = record q.agent { monitor = remove_peer_state id q.agent.monitor };
    } in
    remove_inactive peers rest (if is_active peers id then p else removed)

unfoldable pub poll_relays : (bind : ℕ → Option ℕ) → Known → List PeerEndpoint → Proxy → Proxy
unfolding poll_peers remove_inactive
poll_relays bind known peers p =
    let (done, polled) = poll_peers bind known 0 peers p in
    if done then remove_inactive peers (keys polled.agent.monitor.peer_states) polled else polled
