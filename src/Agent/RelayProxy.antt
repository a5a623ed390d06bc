-- ===== src/Agent/RelayProxy.antt =====
-- packages/agent/src/relay-proxy.ts: a local UDP socket for each peer, and the WebSocket. A message
-- is a value here, as in Shared.Types; the sockets of the platform are known by their handles.
use meshezia.Common.{
  ℕ, ◌+◌, Text, Bool, true, false, ◌&&◌, Option, none, some, List, [], ◌∷◌, ltb, length,
  if◌then◌else◌,
}
use meshezia.Common.Dict.{Dict, get, set, delete, has}
use meshezia.Shared.Types.{
  NegotiateMessage, RelayControlMessage, negotiate, peer_removed, agent_update, ping,
  probe_relay_serve, probe_relay_check, probe_direct_start, probe_direct_go, probe_verdict,
  negotiate_abort, force_mode,
}
use meshezia.Shared.Protocol.{Utf8, encode_relay_frame, decode_relay_frame}
use meshezia.Agent.Negotiate.{Agent, Platform, handle_negotiate_message}
use meshezia.Agent.Negotiate.Events.{reset_negotiate_state}

abbrev pub relay_base_port : ℕ
relay_base_port = 41820

abbrev pub ws_stale_ms : ℕ
ws_stale_ms = 30000

pub record RelayEntry : Type 0 where
  pub peer_id : Text
  pub local_port : ℕ
  pub udp_socket : ℕ
  pub awg_listen_port : ℕ

-- The module state; sets are maps to a unit value, and `is_open` is `ws?.readyState === OPEN`. Behind
-- it, what was sent: the frames, the datagrams by their port, and what the callbacks were told, the
-- last first.
pub record Proxy : Type 0 where
  pub relays : Dict RelayEntry
  pub probing_peers : Dict (Unit {0})
  pub relay_forwarded_peers : Dict (Unit {0})
  pub is_open : Bool
  pub last_ws_data_at : ℕ
  pub agent : Agent
  pub frames : List (List ℕ)
  pub datagrams : List (ℕ × List ℕ)
  pub removed_peers : List Text
  pub updates : List Text

-- `drainRelayForwarded`
unfoldable pub drain_relay_forwarded : Proxy → Dict (Unit {0}) × Proxy
drain_relay_forwarded p = (p.relay_forwarded_peers, record p { relay_forwarded_peers = [] })

pub record EnsureRelayProxyOpts : Type 0 where
  pub peer_id : Text
  pub index : ℕ
  pub awg_listen_port : ℕ

abbrev pub relay_entry : (socket : ℕ) → EnsureRelayProxyOpts → RelayEntry
relay_entry socket opts = record {
  peer_id = opts.peer_id;
  local_port = relay_base_port + opts.index;
  udp_socket = socket;
  awg_listen_port = opts.awg_listen_port;
}

-- `ensureRelayProxy`: `bind` opens a socket on a port, and `none` is an error that it throws.
unfoldable pub ensure_relay_proxy :
    (bind : ℕ → Option ℕ) → EnsureRelayProxyOpts → Proxy → Option (ℕ × Proxy)
ensure_relay_proxy bind opts p = elim (get p.relays opts.peer_id) [
  | some entry ↦ some (entry.local_port, p)
  | none ↦ elim (bind (relay_base_port + opts.index)) [
    | none ↦ none
    | some socket ↦ some (
      relay_base_port + opts.index,
      record p { relays = set p.relays opts.peer_id (relay_entry socket opts) },
    )
  ]
]

-- A datagram for the socket of a peer's relay.
unfoldable pub udp_data : Utf8 → (peer_id : Text) → List ℕ → Proxy → Proxy
udp_data utf8 peer_id buf p =
    if p.is_open then record p { frames = encode_relay_frame utf8 peer_id buf ∷ p.frames } else p

-- `removeRelayProxy`, with the socket's end left to the platform.
unfoldable pub remove_relay_proxy : Text → Proxy → Proxy
remove_relay_proxy peer_id p = record p {
  relays = delete p.relays peer_id;
  probing_peers = delete p.probing_peers peer_id;
}

-- `SERVER_TO_AGENT_TYPES`
unfoldable pub is_server_message : NegotiateMessage → Bool
is_server_message (probe_relay_serve peer) = true
is_server_message (probe_relay_check peer ip port nonce client server) = true
is_server_message (probe_direct_start peer) = true
is_server_message (probe_direct_go peer ip port nonce) = true
is_server_message (probe_verdict peer action) = true
is_server_message (negotiate_abort peer reason) = true
is_server_message (force_mode peer mode) = true
is_server_message _ = false

unfoldable pub on_open : ℕ → Proxy → Proxy
on_open now p = record p { is_open = true; last_ws_data_at = now }

-- `onmessage` with a text, which is `none` where it is no JSON or has another `type`.
unfoldable pub on_text : ℕ → Platform → Option RelayControlMessage → Proxy → Proxy
unfolding is_server_message
on_text now o none p = record p { last_ws_data_at = now }
on_text now o (some ping) p = record p { last_ws_data_at = now }
on_text now o (some (peer_removed peer_id)) p = record p {
  last_ws_data_at = now;
  removed_peers = peer_id ∷ p.removed_peers;
}
on_text now o (some (agent_update url)) p = record p {
  last_ws_data_at = now;
  updates = url ∷ p.updates;
}
on_text now o (some (negotiate msg)) p =
    let seen = record p { last_ws_data_at = now } in
    if is_server_message msg
    then record seen { agent = handle_negotiate_message o msg seen.agent }
    else seen

-- A payload for a peer whose relay is there.
unfoldable pub forward : Text → List ℕ → Proxy → Proxy
forward src_peer_id payload p = elim (get p.relays src_peer_id) [
  | none ↦ p
  | some entry ↦
      if ltb 0 (length payload)
      then record p {
        relay_forwarded_peers = set p.relay_forwarded_peers src_peer_id tt;
        datagrams = (entry.awg_listen_port, payload) ∷ p.datagrams;
      }
      else p
]

-- `onmessage` with bytes.
unfoldable pub on_binary : Utf8 → ℕ → List ℕ → Proxy → Proxy
unfolding forward
on_binary utf8 now frame p =
    let (src_peer_id, payload) = decode_relay_frame utf8 frame in
    let seen = record p { last_ws_data_at = now } in
    if has seen.probing_peers src_peer_id then seen else forward src_peer_id payload seen

unfoldable pub on_close : Proxy → Proxy
on_close p = record p { is_open = false; probing_peers = []; agent = reset_negotiate_state p.agent }

-- The callback of the interval: does it close the connection?
unfoldable pub is_stale : ℕ → Proxy → Bool
is_stale now p = p.is_open && ltb (p.last_ws_data_at + ws_stale_ms) now
