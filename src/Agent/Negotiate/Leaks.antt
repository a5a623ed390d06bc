-- ===== src/Agent/Negotiate/Leaks.antt =====
-- A second probe server leaves the first one open.
use meshezia.Agent.Negotiate.Orphans.{
  clean_up-IsOrphan, switch_peer_mode-IsOrphan, is_server, new-differs, go-IsOrphan,
  close_udp_probe_socket-IsOrphan, still_opened, serve-IsOrphan, filter-open, socket_bound-IsOrphan,
  stop_server-IsOrphan, is_socket, is_open, IsOrphan,
}
use meshezia.Common.{ℕ, Text, true, false, some, [], ◌∷◌, ◌++◌, ◌≡◌, refl, ap, ◌∙◌, arith}
use meshezia.Common.Dict.{Dict}
use meshezia.Shared.Types.{
  health_report, probe_relay_ready, probe_relay_result, probe_direct_ready, probe_direct_result,
  probe_error, health_report, force_mode, negotiate_abort, direct, relay, probe_verdict,
  probe_direct_go, probe_direct_start, probe_relay_check, NegotiateMessage, probe_relay_serve,
  forced, auto, switch_relay, switch_direct, stay,
}
use meshezia.Agent.Negotiate.{
  mode_of, handle_force_mode, handle_negotiate_abort, handle_probe_verdict, await, send_msg, freeze,
  put_entry, handle_probe_direct_start, handle_probe_relay_check, handle_probe_relay_serve,
  close_handle, Agent, TcpProbe, Platform, bound, Pending, fetching, binding, probing, switching,
  handle_negotiate_message,
}
use meshezia.Agent.Negotiate.Events.{
  Outcome, probe_over, reset_negotiate_state, datagram, close_sockets, resume, stop_server, IsNew,
  Step, message, resumed, received, disconnected, Steps, here, next,
}

message-IsOrphan :
    (h : ℕ) (o : Platform) (msg : NegotiateMessage) (a : Agent)
    → IsNew o.bind a.open_handles
    → IsOrphan h a
    → IsOrphan h (handle_negotiate_message o msg a)
unfolding handle_negotiate_message handle_probe_relay_check handle_probe_direct_start
    handle_probe_verdict handle_negotiate_abort handle_force_mode freeze await
message-IsOrphan h o (probe_relay_serve q) a new v = serve-IsOrphan h o.now o.nonce o.bind q a new v
message-IsOrphan h o (probe_relay_check q ip port nonce client_pubkey server_pubkey) a new v =
    record { opened = v.opened; no_server = v.no_server; no_socket = v.no_socket }
message-IsOrphan h o (probe_direct_start q) a new v = record {
  opened = v.opened;
  no_server = v.no_server;
  no_socket = v.no_socket;
}
message-IsOrphan h o (probe_direct_go q ip port peer_nonce) a new v = go-IsOrphan h q peer_nonce a v
message-IsOrphan h o (probe_verdict q switch_relay) a new v =
    switch_peer_mode-IsOrphan o.decimal h q relay _ (clean_up-IsOrphan h q a v)
message-IsOrphan h o (probe_verdict q switch_direct) a new v =
    switch_peer_mode-IsOrphan o.decimal h q direct _ (clean_up-IsOrphan h q a v)
message-IsOrphan h o (probe_verdict q stay) a new v = clean_up-IsOrphan h q a v
message-IsOrphan h o (negotiate_abort q reason) a new v = clean_up-IsOrphan h q a v
message-IsOrphan h o (force_mode q auto) a new v =
    let w = clean_up-IsOrphan h q a v in
    record { opened = w.opened; no_server = w.no_server; no_socket = w.no_socket }
message-IsOrphan h o (force_mode q (forced mode)) a new v =
    let w = clean_up-IsOrphan h q a v in
    switch_peer_mode-IsOrphan o.decimal h q (mode_of mode) _
      (record { opened = w.opened; no_server = w.no_server; no_socket = w.no_socket })
message-IsOrphan h o (health_report reports) a new v = v
message-IsOrphan h o (probe_relay_ready q ip port nonce) a new v = v
message-IsOrphan h o (probe_relay_result q success) a new v = v
message-IsOrphan h o (probe_direct_ready q port nonce) a new v = v
message-IsOrphan h o (probe_direct_result q success) a new v = v
message-IsOrphan h o (probe_error q error) a new v = v

resume-IsOrphan :
    (h : ℕ) (o : Outcome) (p : Pending) (a : Agent)
    → IsNew o.bind a.open_handles
    → IsOrphan h a
    → IsOrphan h (resume o p a)
unfolding resume probe_over send_msg
resume-IsOrphan h o (fetching q) a new v = record {
  opened = v.opened;
  no_server = v.no_server;
  no_socket = v.no_socket;
}
resume-IsOrphan h o (binding q nonce) a new v = socket_bound-IsOrphan h q nonce o.bind a new v
resume-IsOrphan h o (probing q socket) a new v =
    let w = close_udp_probe_socket-IsOrphan h q a v in
    record { opened = w.opened; no_server = w.no_server; no_socket = w.no_socket }
resume-IsOrphan h o (switching q mode) a new v = record {
  opened = v.opened;
  no_server = v.no_server;
  no_socket = v.no_socket;
}

close_sockets-opened :
    (h : ℕ) (m : Dict ℕ) (a : Agent)
    → is_socket h m ≡ false
    → is_open h a ≡ true
    → is_open h (close_sockets m a) ≡ true
unfolding close_sockets close_handle
close_sockets-opened h [] a e v = v
close_sockets-opened h ((q, k) ∷ rest) a e v =
    close_sockets-opened h rest (close_handle k a) (ground arith)
      (filter-open h k a.open_handles (ground arith) ∙ v)

close_sockets-server :
    (m : Dict ℕ) (a : Agent) → (close_sockets m a).tcp_probe_server ≡ a.tcp_probe_server
unfolding close_sockets close_handle
close_sockets-server [] a = refl
close_sockets-server ((q, k) ∷ rest) a = close_sockets-server rest (close_handle k a)

reset-IsOrphan : (h : ℕ) (a : Agent) → IsOrphan h a → IsOrphan h (reset_negotiate_state a)
unfolding reset_negotiate_state
reset-IsOrphan h a v =
    let w = stop_server-IsOrphan h a.tcp_probe_server a v.no_server v in
    let stopped = stop_server a.tcp_probe_server a in
    record {
      opened = close_sockets-opened h stopped.udp_probe_sockets stopped w.no_socket w.opened;
      no_server =
          ap (is_server h) (close_sockets-server stopped.udp_probe_sockets stopped) ∙ w.no_server;
      no_socket = refl;
    }

Step-IsOrphan : (h : ℕ) (a b : Agent) → Step a b → IsOrphan h a → IsOrphan h b
unfolding datagram put_entry
Step-IsOrphan h a _ (message o msg new) v = message-IsOrphan h o msg a new v
Step-IsOrphan h a _ (resumed o p before after e new) v =
    resume-IsOrphan h o p (record a { pending = before ++ after }) new
      (record { opened = v.opened; no_server = v.no_server; no_socket = v.no_socket })
Step-IsOrphan h a _ (received socket t) v = record {
  opened = v.opened;
  no_server = v.no_server;
  no_socket = v.no_socket;
}
Step-IsOrphan h a _ disconnected v = reset-IsOrphan h a v

Steps-IsOrphan : (h : ℕ) (a b : Agent) → Steps a b → IsOrphan h a → IsOrphan h b
Steps-IsOrphan h a _ here v = v
Steps-IsOrphan h a _ (next {b} {c} r s) v = Step-IsOrphan h b c s (Steps-IsOrphan h a b r v)

-- Where a probe server runs and the agent is asked to serve another probe, and the platform opens the
-- new server, the first one stays open for good: no message, no answer and no reset closes it.
pub serve-is_open :
    (o : Platform) (peer_id : Text) (handle port : ℕ) (probe : TcpProbe) (a b : Agent)
    → a.tcp_probe_server ≡ some probe
    → is_open probe.server a ≡ true
    → is_socket probe.server a.udp_probe_sockets ≡ false
    → o.bind ≡ bound handle port
    → IsNew (bound handle port) a.open_handles
    → Steps (handle_negotiate_message o (probe_relay_serve peer_id) a) b
    → is_open probe.server b ≡ true
unfolding handle_negotiate_message handle_probe_relay_serve freeze send_msg
serve-is_open o peer_id handle port probe a b running opened apart bind new r =
    let served = handle_negotiate_message o (probe_relay_serve peer_id) a in
    let v : IsOrphan probe.server served = record {
      opened = rw bind (still_opened probe.server handle a.open_handles opened);
      no_server = rw bind (new-differs probe.server handle a.open_handles opened new);
      no_socket = rw bind apart;
    } in
    (Steps-IsOrphan probe.server served b r v).opened
