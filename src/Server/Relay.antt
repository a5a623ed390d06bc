-- ===== src/Server/Relay.antt =====
-- packages/server/src/relay.ts: the WebSocket connections and the relay of binary frames.
pub mod Laws
pub mod Channels
use meshezia.Common.{
  ℕ, ◌+◌, Text, Bool, true, false, Option, none, some, List, [], ◌∷◌, ◌++◌, length, take, drop,
  replicate, ltb, if◌then◌else◌,
}
use meshezia.Common.Dict.{get, set, delete, keys}
use meshezia.Shared.Types.{
  NegotiateMessage, health_report, probe_relay_ready, probe_relay_result, probe_direct_ready,
  probe_direct_result, probe_error, ws_reset, ping,
}
use meshezia.Shared.Protocol.{Utf8, relay_peer_id_len}
use meshezia.Server.State.{Server, send_text_to_peer}
use meshezia.Server.Negotiate.Lifecycle.{abort_peer_negotiations}
use meshezia.Server.Negotiate.Router.{handle_negotiate_message}

-- `open`: a newer socket of the peer takes the place of an older one.
unfoldable pub ws_open : (peer_id : Text) → (ws : ℕ) → Server → Server
ws_open peer_id ws s = record s { connections = set s.connections peer_id ws }

-- `AGENT_MESSAGE_TYPES`
unfoldable pub is_agent_message : NegotiateMessage → Bool
is_agent_message (health_report reports) = true
is_agent_message (probe_relay_ready peer mesh_ipv4 tcp_port nonce) = true
is_agent_message (probe_relay_result peer success) = true
is_agent_message (probe_direct_ready peer udp_port nonce) = true
is_agent_message (probe_direct_result peer success) = true
is_agent_message (probe_error peer error) = true
is_agent_message _ = false

-- `message` with a text, which is `none` where it is no JSON or has another `type`.
unfoldable pub ws_text : ℕ → (peer_id : Text) → Option NegotiateMessage → Server → Server
unfolding is_agent_message
ws_text now peer_id none s = s
ws_text now peer_id (some msg) s =
    if is_agent_message msg then handle_negotiate_message now peer_id msg s else s

-- The buffer of 36 zeros and room for the payload, after `out.set(srcIdBytes, 0)` and
-- `out.set(payload, 36)`.
unfoldable pub relayed : List ℕ → List ℕ → List ℕ
relayed src_id_bytes payload =
    take relay_peer_id_len (src_id_bytes ++ replicate relay_peer_id_len 0) ++ payload

-- `message` with bytes. A source id that is longer than the buffer makes `out.set` throw, and
-- nothing is sent.
unfoldable pub ws_binary : Utf8 → (peer_id : Text) → List ℕ → Server → Server
unfolding relayed
ws_binary utf8 peer_id msg s =
    if ltb (length msg) relay_peer_id_len
    then s
    else (let dest_peer_id = utf8.decode (take relay_peer_id_len msg) in
        let payload = drop relay_peer_id_len msg in
        let src_id_bytes = utf8.encode peer_id in
        elim (get s.connections dest_peer_id) [
          | none ↦ s
          | some ws ↦
              if ltb (relay_peer_id_len + length payload) (length src_id_bytes)
              then s
              else record s { frames = (dest_peer_id, relayed src_id_bytes payload) ∷ s.frames }
        ])

-- `close`, with the callback that index.ts registers. Which socket of the peer closes is not read.
unfoldable pub ws_close : (peer_id : Text) → (ws : ℕ) → Server → Server
ws_close peer_id ws s =
    abort_peer_negotiations peer_id ws_reset
      (record s { connections = delete s.connections peer_id })

unfoldable pub ping_all : List Text → Server → Server
ping_all [] s = s
ping_all (peer_id ∷ rest) s = ping_all rest (send_text_to_peer s peer_id ping)

-- The callback of `startHeartbeat`.
unfoldable pub heartbeat : Server → Server
unfolding ping_all
heartbeat s = ping_all (keys s.connections) s
