-- ===== src/Server/Steps/Ownership.antt =====
-- No negotiation without its timer, whatever happens.
use meshezia.Server.Reaper.Notices.{notify_networks-OnlySends}
use meshezia.Common.{
  filter, ℕ, Text, Bool, true, false, Option, none, some, List, [], ◌∷◌, ◌≡◌, refl, arith,
}
use meshezia.Common.Dict.{get, keys}
use meshezia.Shared.Types.{ping, NegotiateMessage, ws_reset, Reason}
use meshezia.Shared.Protocol.{Utf8}
use meshezia.Server.Db.{Db, PeerRow}
use meshezia.Server.State.{Settings, initial, Server, send_text_to_peer}
use meshezia.Server.Negotiate.Timers.Ownership.{IsOwned}
use meshezia.Server.Negotiate.Ownership.{abort_peer_negotiations-IsOwned}
use meshezia.Server.Negotiate.Ownership.Messages.{
  handle_negotiate_message-IsOwned, stale_sweep-IsOwned, handle_force_mode-IsOwned,
  cleanup_peer_health-IsOwned,
}
use meshezia.Server.Negotiate.Ownership.Fired.{fire-IsOwned}
use meshezia.Server.Relay.{ws_open, ws_text, ws_binary, ws_close, heartbeat, ping_all}
use meshezia.Server.Reaper.{is_expired, group_by_network, reap, reap_expired, forget_peers}
use meshezia.Server.Steps.{
  beat, here, request, force, reaper, sweep, timer, close_socket, binary, text, next, open_socket,
  Step, Reach,
}

ws_text-IsOwned :
    (now : ℕ) (peer_id : Text) (msg : Option NegotiateMessage) (s : Server)
    → IsOwned s.probes
    → IsOwned (ws_text now peer_id msg s).probes
unfolding ws_text
ws_text-IsOwned now peer_id none s v = v
ws_text-IsOwned now peer_id (some msg) s v =
    ground (arith, handle_negotiate_message-IsOwned now peer_id msg s v)

probes-ws_binary :
    (utf8 : Utf8) (peer_id : Text) (msg : List ℕ) (s : Server)
    → (ws_binary utf8 peer_id msg s).probes ≡ s.probes
unfolding ws_binary
probes-ws_binary utf8 peer_id msg s = ground arith

probes-ping_all : (ids : List Text) (s : Server) → (ping_all ids s).probes ≡ s.probes
unfolding ping_all send_text_to_peer
probes-ping_all [] s = refl
probes-ping_all (id ∷ rest) s = probes-ping_all rest (send_text_to_peer s id ping)

forget_peers-IsOwned :
    (rows : List PeerRow) (s : Server) → IsOwned s.probes → IsOwned (forget_peers rows s).probes
unfolding forget_peers
forget_peers-IsOwned [] s v = v
forget_peers-IsOwned (row ∷ rows) s v = forget_peers-IsOwned rows _ (
    cleanup_peer_health-IsOwned row.id _
      (abort_peer_negotiations-IsOwned row.id Reason.peer_removed s v))

reap_expired-IsOwned :
    (rows : List PeerRow) (commits : Bool) (s : Server)
    → IsOwned s.probes
    → IsOwned (reap_expired rows commits s).probes
unfolding reap_expired
reap_expired-IsOwned rows false s v = forget_peers-IsOwned rows s v
reap_expired-IsOwned rows true s v =
    rw (notify_networks-OnlySends (group_by_network rows []) _) (forget_peers-IsOwned rows s v)

Step-IsOwned : (utf8 : Utf8) {s t : Server} → Step utf8 s t → IsOwned s.probes → IsOwned t.probes
unfolding reap ws_open ws_close heartbeat
Step-IsOwned utf8 (open_socket peer_id ws) v = v
Step-IsOwned utf8 {s} (text now peer_id msg) v = ws_text-IsOwned now peer_id msg s v
Step-IsOwned utf8 {s} (binary peer_id msg) v = rw (probes-ws_binary utf8 peer_id msg s) v
Step-IsOwned utf8 {s} (close_socket peer_id ws) v =
    abort_peer_negotiations-IsOwned peer_id ws_reset _ v
Step-IsOwned utf8 {s} (timer now i t waits due) v = fire-IsOwned i t s waits v
Step-IsOwned utf8 {s} (sweep now) v = stale_sweep-IsOwned now s v
Step-IsOwned utf8 {s} beat v = rw (probes-ping_all (keys s.connections) s) v
Step-IsOwned utf8 {s} (reaper now commits) v =
    reap_expired-IsOwned (filter (is_expired now) s.db.peers) commits s v
Step-IsOwned utf8 {s} (force peer_a peer_b mode) v =
    handle_force_mode-IsOwned peer_a peer_b mode s v
Step-IsOwned utf8 (request db) v = v

-- In every state that the control plane reaches from its start, each negotiation has a timer that
-- waits and is about its pair, and each timer that waits is that of its pair's negotiation.
pub Reach-IsOwned :
    (utf8 : Utf8) (settings : Settings) (db : Db) {t : Server}
    → Reach utf8 (initial settings db) t
    → IsOwned t.probes
unfolding initial get
Reach-IsOwned utf8 settings db here = record {
  kept = λ k h. cc;
  owner = λ i k h. cc;
  fresh = λ i h. refl;
}
Reach-IsOwned utf8 settings db (next r step) =
    Step-IsOwned utf8 step (Reach-IsOwned utf8 settings db r)
