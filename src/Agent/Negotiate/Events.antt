-- ===== src/Agent/Negotiate/Events.antt =====
-- What else happens to negotiate.ts: answers that it waits for, datagrams, requests to the probe
-- server, and the end of the connection.
use meshezia.Common.{
  any, ℕ, Text, codes, text_eq, Bool, true, false, ◌&&◌, ◌||◌, Option, none, some, List, [], ◌∷◌,
  ◌++◌, ◌==◌, ◌≡◌, if◌then◌else◌,
}
use meshezia.Common.Dict.{Dict, set}
use meshezia.Shared.Types.{
  NegotiateMessage, probe_relay_result, probe_direct_ready, probe_direct_result, probe_error,
}
use meshezia.Agent.Monitor.{clear_all_frozen, set_peer_mode}
use meshezia.Agent.Negotiate.{
  Agent, TcpProbe, Pending, fetching, binding, probing, switching, Bound, bound, failed, Platform,
  send_msg, unfreeze, put_entry, close_handle, close_udp_probe_socket, handle_negotiate_message,
}

-- What comes of an `await`: whether the answer to the client was `ok`, the socket, and whether the
-- loop that waits saw the entry resolved, if it was, before its deadline.
pub record Outcome : Type 0 where
  pub ok : Bool
  pub bind : Bound
  pub in_time : Bool

-- The end of `handleProbeDirectStart`.
unfoldable pub socket_bound : Text → (nonce : Text) → Bound → Agent → Agent
unfolding put_entry send_msg unfreeze
socket_bound peer_id nonce (bound handle port) a =
    let entered =
      put_entry handle (record { nonce = nonce; resolved = false; expected = none }) a in
    send_msg (probe_direct_ready peer_id port nonce) (record entered {
      udp_probe_sockets = set entered.udp_probe_sockets peer_id handle;
      open_handles = handle ∷ entered.open_handles;
    })
socket_bound peer_id nonce (failed error) a =
    unfreeze peer_id (send_msg (probe_error peer_id (codes "UDP bind failed: " ++ error)) a)

-- The end of `handleProbeDirectGo`: the entry is the one that it has begun with.
unfoldable pub probe_over : Text → (socket : ℕ) → (in_time : Bool) → Agent → Agent
unfolding close_udp_probe_socket send_msg
probe_over peer_id socket in_time a =
    send_msg (probe_direct_result peer_id (in_time && (a.udp_entries socket).resolved))
      (close_udp_probe_socket peer_id a)

unfoldable pub resume : Outcome → Pending → Agent → Agent
unfolding socket_bound probe_over send_msg
resume o (fetching peer_id) a = send_msg (probe_relay_result peer_id o.ok) a
resume o (binding peer_id nonce) a = socket_bound peer_id nonce o.bind a
resume o (probing peer_id socket) a = probe_over peer_id socket o.in_time a
resume o (switching peer_id mode) a = record a { monitor = set_peer_mode peer_id mode a.monitor }

-- `received === msg.peerNonce`, once there is one to compare with.
abbrev pub is_expected : Option Text → Text → Bool
is_expected none received = false
is_expected (some nonce) received = text_eq received nonce

-- `onData` with what the datagram decodes to.
unfoldable pub datagram : (socket : ℕ) → Text → Agent → Agent
unfolding put_entry
datagram socket received a =
    let e = a.udp_entries socket in
    put_entry socket (record e { resolved = e.resolved || is_expected e.expected received }) a

-- The body of a POST: no JSON or null, or an object.
pub data ProbeBody : Type 0 where
  bad : ProbeBody
  credentials : (client_pubkey server_pubkey nonce : Option Text) → ProbeBody

pub record ProbeRequest : Type 0 where
  pub is_post : Bool
  pub pathname : Text
  pub body : ProbeBody

abbrev is_same : Option Text → Text → Bool
is_same none t = false
is_same (some u) t = text_eq u t

abbrev is_given : Option Text → Bool
is_given none = false
is_given (some []) = false
is_given (some (c ∷ cs)) = true

-- The `fetch` of the probe server that has closed over a nonce: the status of the response.
unfoldable pub answer_probe : (nonce self_pubkey : Text) → ProbeRequest → ℕ
answer_probe nonce self_pubkey r =
    if r.is_post && text_eq r.pathname (codes "/probe")
    then elim r.body [
      | bad ↦ 400
      | credentials client server n ↦
          if is_same n nonce && is_same server self_pubkey && is_given client then 200 else 403
    ]
    else 404

unfoldable pub close_sockets : Dict ℕ → Agent → Agent
unfolding close_handle
close_sockets [] a = a
close_sockets ((peer_id, socket) ∷ rest) a = close_sockets rest (close_handle socket a)

unfoldable pub stop_server : Option TcpProbe → Agent → Agent
unfolding close_handle
stop_server none a = a
stop_server (some probe) a = record (close_handle probe.server a) { tcp_probe_server = none }

-- `resetNegotiateState`
unfoldable pub reset_negotiate_state : Agent → Agent
unfolding close_sockets stop_server
reset_negotiate_state a =
    let stopped = stop_server a.tcp_probe_server a in
    let closed = close_sockets stopped.udp_probe_sockets stopped in
    record closed {
      udp_probe_sockets = [];
      monitor = clear_all_frozen closed.monitor;
      forced_modes = [];
    }

-- A handle that is not one of those that are open.
abbrev pub IsNew : Bound → (open_handles : List ℕ) → Type 0
IsNew (bound handle port) open_handles = any (λ k. k == handle) open_handles ≡ false
IsNew (failed error) open_handles = Unit

-- The agent as a step relation: messages, what it waits for in any order, datagrams for sockets, and
-- the end of the connection. The platform gives no handle that is in use.
pub data Step (a : Agent) : Agent → Type 0 where
  message :
      (o : Platform) (msg : NegotiateMessage)
      → IsNew o.bind a.open_handles
      → Step a (handle_negotiate_message o msg a)
  resumed :
      (o : Outcome) (p : Pending) (before after : List Pending)
      → a.pending ≡ before ++ p ∷ after
      → IsNew o.bind a.open_handles
      → Step a (resume o p (record a { pending = before ++ after }))
  received : (socket : ℕ) (t : Text) → Step a (datagram socket t a)
  disconnected : Step a (reset_negotiate_state a)

pub data Steps (a : Agent) : Agent → Type 0 where
  here : Steps a a
  next : {b c : Agent} → Steps a b → Step b c → Steps a c
