-- ===== src/Agent/Negotiate.antt =====
-- packages/agent/src/negotiate.ts: probes and mode switches at the agent. A handler that waits is cut
-- at its `await`: the first part leaves an entry in `pending`, which `resume` goes on with. What the
-- platform answers, random ids and the time are arguments.
pub mod Events
pub mod Endings
pub mod Orphans
pub mod Leaks
use meshezia.Common.{
  codes, ℕ, Text, text_eq, Bool, true, false, not, ◌&&◌, ◌||◌, Option, none, some, List, [], ◌∷◌,
  ◌++◌, filter, ◌==◌, if◌then◌else◌,
}
use meshezia.Common.Dict.{Dict, get, set, delete}
use meshezia.Shared.Types.{
  Mode, direct, relay, Action, switch_relay, switch_direct, stay, ForcedMode, force_direct,
  force_relay, ForceMode, forced, auto, NegotiateMessage, probe_relay_serve, probe_relay_ready,
  probe_relay_check, probe_relay_result, probe_direct_start, probe_direct_ready, probe_direct_go,
  probe_direct_result, probe_verdict, probe_error, negotiate_abort, force_mode,
}
use meshezia.Agent.Monitor.{
  PeerState, Monitor, freeze_peer, unfreeze_peer, clear_all_frozen, set_peer_mode,
}

-- `tcpProbeServer`: a handle of the platform, what its handler of requests has closed over, and the
-- peer.
pub record TcpProbe : Type 0 where
  pub server : ℕ
  pub nonce : Text
  pub peer_id : Text

-- An entry of `udpProbeSockets`; `expected` is what `onData` compares with, `none` at first.
pub record UdpProbe : Type 0 where
  pub nonce : Text
  pub resolved : Bool
  pub expected : Option Text

-- What goes on after an `await`.
pub data Pending : Type 0 where
  fetching : (peer_id : Text) → Pending
  binding : (peer_id nonce : Text) → Pending
  probing : (peer_id : Text) → (socket : ℕ) → Pending
  switching : (peer_id : Text) → Mode → Pending

-- The module state and what it reaches: the monitor, the sockets that the platform has open, the
-- entries of the UDP sockets by their handle, and the messages and commands so far, the last first.
pub record Agent : Type 0 where
  pub self_mesh_ipv4 : Text
  pub self_pubkey : Text
  pub tcp_probe_server : Option TcpProbe
  pub udp_probe_sockets : Dict ℕ
  pub udp_entries : ℕ → UdpProbe
  pub forced_modes : Dict ForcedMode
  pub monitor : Monitor
  pub open_handles : List ℕ
  pub pending : List Pending
  pub outbox : List NegotiateMessage
  pub endpoints : List (Text × Text × Text)

unfoldable pub send_msg : NegotiateMessage → Agent → Agent
send_msg msg a = record a { outbox = msg ∷ a.outbox }

unfoldable pub await : Pending → Agent → Agent
await p a = record a { pending = p ∷ a.pending }

unfoldable pub freeze : ℕ → Text → Agent → Agent
freeze now peer_id a = record a { monitor = freeze_peer now peer_id a.monitor }

unfoldable pub unfreeze : Text → Agent → Agent
unfreeze peer_id a = record a { monitor = unfreeze_peer peer_id a.monitor }

-- `stop()` and `close()`
unfoldable pub close_handle : ℕ → Agent → Agent
close_handle h a = record a { open_handles = filter (λ k. not (k == h)) a.open_handles }

unfoldable pub set_awg_endpoint : (if_name pubkey endpoint : Text) → Agent → Agent
set_awg_endpoint if_name pubkey endpoint a = record a {
  endpoints = (if_name, pubkey, endpoint) ∷ a.endpoints;
}

abbrev is_empty : Text → Bool
is_empty [] = true
is_empty (c ∷ cs) = false

-- `127.0.0.1:${port}` for the relay; `decimal` prints a number.
abbrev pub local_endpoint : (decimal : ℕ → Text) → ℕ → Text
local_endpoint decimal port = codes "127.0.0.1:" ++ decimal port

-- `switchPeerMode` to its end or its `await`.
unfoldable pub switch_peer_mode : (decimal : ℕ → Text) → Text → Mode → Agent → Agent
unfolding set_awg_endpoint await
switch_peer_mode decimal peer_id target a = elim (get a.monitor.peer_states peer_id) [
  | none ↦ a
  | some state ↦ elim target [
    | relay ↦
        await (switching peer_id relay)
          (set_awg_endpoint state.if_name state.pubkey (local_endpoint decimal state.relay_port) a)
    | direct ↦
        if is_empty state.direct_endpoint
        then record a { monitor = set_peer_mode peer_id direct a.monitor }
        else await (switching peer_id direct)
            (set_awg_endpoint state.if_name state.pubkey state.direct_endpoint a)
  ]
]

-- `closeTcpProbeServer`
unfoldable pub close_tcp_probe_server : Text → Agent → Agent
unfolding close_handle
close_tcp_probe_server peer_id a = elim a.tcp_probe_server [
  | none ↦ a
  | some probe ↦
      if is_empty peer_id || text_eq probe.peer_id peer_id
      then record (close_handle probe.server a) { tcp_probe_server = none }
      else a
]

-- `closeUdpProbeSocket`
unfoldable pub close_udp_probe_socket : Text → Agent → Agent
unfolding close_handle
close_udp_probe_socket peer_id a = elim (get a.udp_probe_sockets peer_id) [
  | none ↦ a
  | some socket ↦ record (close_handle socket a) {
    udp_probe_sockets = delete a.udp_probe_sockets peer_id;
  }
]

-- A socket that the platform has opened, with its port, or the text of the error.
pub data Bound : Type 0 where
  bound : (handle port : ℕ) → Bound
  failed : (error : Text) → Bound

unfoldable pub handle_probe_relay_serve : ℕ → (nonce : Text) → Bound → Text → Agent → Agent
unfolding freeze unfreeze send_msg
handle_probe_relay_serve now nonce (bound handle port) peer_id a =
    let frozen = freeze now peer_id a in
    send_msg (probe_relay_ready peer_id frozen.self_mesh_ipv4 port nonce) (record frozen {
      tcp_probe_server = some (record { server = handle; nonce = nonce; peer_id = peer_id });
      open_handles = handle ∷ frozen.open_handles;
    })
handle_probe_relay_serve now nonce (failed error) peer_id a =
    unfreeze peer_id
      (send_msg (probe_error peer_id (codes "TCP bind failed: " ++ error)) (freeze now peer_id a))

-- The handler up to the answer of the probe server.
unfoldable pub handle_probe_relay_check : ℕ → Text → Agent → Agent
unfolding freeze await
handle_probe_relay_check now peer_id a = await (fetching peer_id) (freeze now peer_id a)

-- The handler up to the socket.
unfoldable pub handle_probe_direct_start : ℕ → (nonce : Text) → Text → Agent → Agent
unfolding freeze await
handle_probe_direct_start now nonce peer_id a = await (binding peer_id nonce) (freeze now peer_id a)

unfoldable pub put_entry : ℕ → UdpProbe → Agent → Agent
put_entry h e a = record a { udp_entries = λ k. if k == h then e else a.udp_entries k }

-- The handler up to the end of the loop that waits. What it sends to the peer is not part of the
-- model.
unfoldable pub handle_probe_direct_go : Text → (peer_nonce : Text) → Agent → Agent
unfolding put_entry await
handle_probe_direct_go peer_id peer_nonce a = elim (get a.udp_probe_sockets peer_id) [
  | none ↦ a
  | some socket ↦
      await (probing peer_id socket)
        (put_entry socket (record (a.udp_entries socket) { expected = some peer_nonce }) a)
]

-- `closeTcpProbeServer`, `closeUdpProbeSocket` and `unfreezePeer`, which three handlers begin with.
unfoldable pub clean_up : Text → Agent → Agent
unfolding close_tcp_probe_server close_udp_probe_socket unfreeze
clean_up peer_id a =
    unfreeze peer_id (close_udp_probe_socket peer_id (close_tcp_probe_server peer_id a))

unfoldable pub handle_probe_verdict : (decimal : ℕ → Text) → Text → Action → Agent → Agent
unfolding clean_up switch_peer_mode
handle_probe_verdict decimal peer_id switch_relay a =
    switch_peer_mode decimal peer_id relay (clean_up peer_id a)
handle_probe_verdict decimal peer_id switch_direct a =
    switch_peer_mode decimal peer_id direct (clean_up peer_id a)
handle_probe_verdict decimal peer_id stay a = clean_up peer_id a

unfoldable pub handle_negotiate_abort : Text → Agent → Agent
unfolding clean_up
handle_negotiate_abort peer_id a = clean_up peer_id a

abbrev pub mode_of : ForcedMode → Mode
mode_of force_direct = direct
mode_of force_relay = relay

unfoldable pub handle_force_mode : (decimal : ℕ → Text) → Text → ForceMode → Agent → Agent
unfolding clean_up switch_peer_mode
handle_force_mode decimal peer_id auto a = record (clean_up peer_id a) {
  forced_modes = delete (clean_up peer_id a).forced_modes peer_id;
}
handle_force_mode decimal peer_id (forced mode) a =
    switch_peer_mode decimal peer_id (mode_of mode) (record (clean_up peer_id a) {
      forced_modes = set (clean_up peer_id a).forced_modes peer_id mode;
    })

-- What the platform gives to a handler.
pub record Platform : Type 0 where
  pub decimal : ℕ → Text
  pub now : ℕ
  pub nonce : Text
  pub bind : Bound

unfoldable pub handle_negotiate_message : Platform → NegotiateMessage → Agent → Agent
handle_negotiate_message o (probe_relay_serve peer_id) a =
    handle_probe_relay_serve o.now o.nonce o.bind peer_id a
handle_negotiate_message o (probe_relay_check peer_id ip port nonce client_pubkey server_pubkey) a =
    handle_probe_relay_check o.now peer_id a
handle_negotiate_message o (probe_direct_start peer_id) a =
    handle_probe_direct_start o.now o.nonce peer_id a
handle_negotiate_message o (probe_direct_go peer_id ip port peer_nonce) a =
    handle_probe_direct_go peer_id peer_nonce a
handle_negotiate_message o (probe_verdict peer_id action) a =
    handle_probe_verdict o.decimal peer_id action a
handle_negotiate_message o (negotiate_abort peer_id reason) a = handle_negotiate_abort peer_id a
handle_negotiate_message o (force_mode peer_id mode) a = handle_force_mode o.decimal peer_id mode a
handle_negotiate_message o msg a = a
