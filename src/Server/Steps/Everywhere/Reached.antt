-- ===== src/Server/Steps/Everywhere/Reached.antt =====
-- The induction over the steps of the control plane.
use meshezia.Server.Steps.Everywhere.Starts.{handle_force_mode-Holds, process_reports-Holds}
use meshezia.Server.Steps.Everywhere.Replies.{
  handle_probe_error-Holds, handle_probe_direct_result-Holds, handle_probe_direct_ready-Holds,
  on_direct_result_timeout-Holds, on_direct_ready_timeout-Holds,
}
use meshezia.Server.Negotiate.DirectProbe.{relay_pairs, check_direct_probes}
use meshezia.Server.Reaper.Notices.{notify_networks-OnlySends}
use meshezia.Server.Steps.Everywhere.Handlers.{
  check_pairs-Holds, handle_probe_relay_result-Holds, handle_probe_relay_ready-Holds,
  abort_peer_negotiations-Holds, Holds-if, cleanup_peer_health-Holds,
}
use meshezia.Server.Steps.{
  beat, request, force, reaper, sweep, timer, close_socket, binary, text, here, next, open_socket,
  Step, Reach,
}
use meshezia.Shared.Types.{
  probe_error, probe_direct_result, probe_direct_ready, probe_relay_result, ws_reset,
  probe_relay_ready, health_report, timeout, Reason, NegotiateMessage,
}
use meshezia.Shared.Protocol.{Utf8}
use meshezia.Server.Negotiate.Health.{handle_health_report}
use meshezia.Server.Db.{Db, PeerRow}
use meshezia.Server.Reaper.{is_expired, group_by_network, reap_expired, forget_peers, reap}
use meshezia.Server.Negotiate.Router.{
  abort_stale, stale_negotiation_ms, stale_sweep, fire, sweep_one, sweep_all, run_callback,
  handle_negotiate_message,
}
use meshezia.Server.Relay.{
  is_agent_message, heartbeat, ws_close, ws_open, ws_text, ping_all, ws_binary,
}
use meshezia.Server.Steps.Everywhere.{abort_negotiation-Holds, Holds, Rules}
use meshezia.Server.State.{
  direct_result_timeout, direct_ready_timeout, relay_timeout, Server, Callback, send_text_to_peer,
  initial, PairHealth, NegotiationState, Settings,
}
use meshezia.Common.{
  ℕ, ◌+◌, Text, Bool, true, false, Option, none, some, List, [], ◌∷◌, ◌≡◌, refl, arith, ltb, filter,
}
use meshezia.Common.Dict.{Dict, get, keys}

-- Relaying a frame touches nothing but the frames.
ws_binary-frames :
    (utf8 : Utf8) (peer_id : Text) (msg : List ℕ) (s : Server)
    → ws_binary utf8 peer_id msg s ≡ record s { frames = (ws_binary utf8 peer_id msg s).frames }
unfolding ws_binary
ws_binary-frames utf8 peer_id msg s = ground arith

module _ (st : Settings) (P : Text → NegotiationState → Type 0) (Q : Text → PairHealth → Type 0)
    (r : Rules st P Q) where
  handle_negotiate_message-Holds :
      (now : ℕ) (from : Text) (msg : NegotiateMessage) (s : Server)
      → Holds st P Q s
      → Holds st P Q (handle_negotiate_message now from msg s)
  unfolding handle_negotiate_message handle_health_report
  handle_negotiate_message-Holds now from (health_report reports) s v =
      process_reports-Holds st P Q r now from reports _
        (record { fixed = v.fixed; negs = v.negs; healths = v.healths })
  handle_negotiate_message-Holds now from (probe_relay_ready peer mesh_ipv4 tcp_port nonce) s v =
      handle_probe_relay_ready-Holds st P Q r from peer mesh_ipv4 tcp_port nonce s v
  handle_negotiate_message-Holds now from (probe_relay_result peer success) s v =
      handle_probe_relay_result-Holds st P Q r from peer success s v
  handle_negotiate_message-Holds now from (probe_direct_ready peer udp_port nonce) s v =
      handle_probe_direct_ready-Holds st P Q r now from peer udp_port nonce s v
  handle_negotiate_message-Holds now from (probe_direct_result peer success) s v =
      handle_probe_direct_result-Holds st P Q r from peer success s v
  handle_negotiate_message-Holds now from (probe_error peer error) s v =
      handle_probe_error-Holds st P Q r from peer s v
  handle_negotiate_message-Holds now from _ s v = v

  sweep_all-Holds :
      (now : ℕ) (entries : Dict NegotiationState) (s : Server)
      → Holds st P Q s
      → Holds st P Q (sweep_all now entries s)
  unfolding sweep_all sweep_one
  sweep_all-Holds now [] s v = v
  sweep_all-Holds now ((key, neg) ∷ rest) s v = sweep_all-Holds now rest _ (
      Holds-if st P Q r (ltb (neg.started_at + stale_negotiation_ms) now) _ s
        (abort_negotiation-Holds st P Q r key timeout s v) v)

  run_callback-Holds :
      (cb : Callback) (s : Server) → Holds st P Q s → Holds st P Q (run_callback cb s)
  unfolding run_callback
  run_callback-Holds (relay_timeout key) s v = abort_negotiation-Holds st P Q r key timeout s v
  run_callback-Holds (direct_ready_timeout key) s v = on_direct_ready_timeout-Holds st P Q r key s v
  run_callback-Holds (direct_result_timeout key) s v =
      on_direct_result_timeout-Holds st P Q r key s v

  ping_all-Holds : (ids : List Text) (s : Server) → Holds st P Q s → Holds st P Q (ping_all ids s)
  unfolding ping_all send_text_to_peer
  ping_all-Holds [] s v = v
  ping_all-Holds (id ∷ rest) s v =
      ping_all-Holds rest _ (record { fixed = v.fixed; negs = v.negs; healths = v.healths })

  forget_peers-Holds :
      (rows : List PeerRow) (s : Server) → Holds st P Q s → Holds st P Q (forget_peers rows s)
  unfolding forget_peers
  forget_peers-Holds [] s v = v
  forget_peers-Holds (row ∷ rows) s v = forget_peers-Holds rows _ (
      cleanup_peer_health-Holds st P Q r row.id _
        (abort_peer_negotiations-Holds st P Q r row.id Reason.peer_removed s v))

  reap_expired-Holds :
      (rows : List PeerRow) (commits : Bool) (s : Server)
      → Holds st P Q s
      → Holds st P Q (reap_expired rows commits s)
  unfolding reap_expired
  reap_expired-Holds rows false s v = forget_peers-Holds rows s v
  reap_expired-Holds rows true s v =
      let w = forget_peers-Holds rows s v in
      rw (notify_networks-OnlySends (group_by_network rows []) _)
        (record { fixed = w.fixed; negs = w.negs; healths = w.healths })

  ws_binary-Holds :
      (utf8 : Utf8) (peer_id : Text) (msg : List ℕ) (s : Server)
      → Holds st P Q s
      → Holds st P Q (ws_binary utf8 peer_id msg s)
  ws_binary-Holds utf8 peer_id msg s v =
      rw (ws_binary-frames utf8 peer_id msg s)
        (record { fixed = v.fixed; negs = v.negs; healths = v.healths })

  ws_text-Holds :
      (now : ℕ) (peer_id : Text) (msg : Option NegotiateMessage) (s : Server)
      → Holds st P Q s
      → Holds st P Q (ws_text now peer_id msg s)
  unfolding ws_text
  ws_text-Holds now peer_id none s v = v
  ws_text-Holds now peer_id (some msg) s v =
      Holds-if st P Q r (is_agent_message msg) _ s
        (handle_negotiate_message-Holds now peer_id msg s v) v

  pub Step-Holds : (utf8 : Utf8) {s t : Server} → Step utf8 s t → Holds st P Q s → Holds st P Q t
  unfolding reap ws_open ws_close heartbeat fire stale_sweep abort_stale check_direct_probes
  Step-Holds utf8 (open_socket peer_id ws) v = record {
    fixed = v.fixed;
    negs = v.negs;
    healths = v.healths;
  }
  Step-Holds utf8 {s} (text now peer_id msg) v = ws_text-Holds now peer_id msg s v
  Step-Holds utf8 {s} (binary peer_id msg) v = ws_binary-Holds utf8 peer_id msg s v
  Step-Holds utf8 {s} (close_socket peer_id ws) v =
      abort_peer_negotiations-Holds st P Q r peer_id ws_reset _
        (record { fixed = v.fixed; negs = v.negs; healths = v.healths })
  Step-Holds utf8 {s} (timer now i t waits due) v =
      run_callback-Holds t.callback _
        (record { fixed = v.fixed; negs = v.negs; healths = v.healths })
  Step-Holds utf8 {s} (sweep now) v =
      check_pairs-Holds st P Q r now
        (relay_pairs (sweep_all now s.probes.negotiations s).db.peer_links) _
        (sweep_all-Holds now s.probes.negotiations s v)
  Step-Holds utf8 {s} beat v = ping_all-Holds (keys s.connections) s v
  Step-Holds utf8 {s} (reaper now commits) v =
      reap_expired-Holds (filter (is_expired now) s.db.peers) commits s v
  Step-Holds utf8 {s} (force peer_a peer_b mode) v =
      handle_force_mode-Holds st P Q r peer_a peer_b mode s v
  Step-Holds utf8 (request db) v = record { fixed = v.fixed; negs = v.negs; healths = v.healths }

  pub Reach-Holds :
      (utf8 : Utf8) (db : Db) {t : Server} → Reach utf8 (initial st db) t → Holds st P Q t
  unfolding initial get
  Reach-Holds utf8 db here = record { fixed = refl; negs = λ k n h. cc; healths = λ k h e. cc }
  Reach-Holds utf8 db (next reached step) = Step-Holds utf8 step (Reach-Holds utf8 db reached)
