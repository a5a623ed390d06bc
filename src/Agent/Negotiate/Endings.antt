-- ===== src/Agent/Negotiate/Endings.antt =====
-- What the end of a negotiation leaves.
use meshezia.Agent.Negotiate.Orphans.{is_open}
use meshezia.Common.{
  [], ◌∷◌, refl, List, true, filter, not, ◌==◌, inr, inl, Option-cases, any, ◌∙◌, ℕ, Text, text_eq,
  text_eq_refl, Bool, false, Option, none, some, ◌≡◌, ap, arith,
}
use meshezia.Common.Dict.{has, get, get-delete}
use meshezia.Shared.Types.{
  relay, direct, Mode, NegotiateMessage, Action, Reason, ForceMode, probe_verdict, negotiate_abort,
  force_mode, forced, auto, switch_relay, switch_direct, stay,
}
use meshezia.Agent.Monitor.{Monitor, unfreeze_peer, set_peer_mode, is_frozen}
use meshezia.Agent.Negotiate.{
  mode_of, handle_force_mode, await, set_awg_endpoint, handle_negotiate_abort, handle_probe_verdict,
  switch_peer_mode, close_handle, unfreeze, close_udp_probe_socket, close_tcp_probe_server,
  clean_up, Agent, TcpProbe, Platform, handle_negotiate_message,
}

-- Is the probe server there for the peer?
abbrev pub serves : Text → Option TcpProbe → Bool
serves peer_id none = false
serves peer_id (some probe) = text_eq probe.peer_id peer_id

-- Of the probe with the peer that `a` names, `t` has nothing left: neither an entry of the module
-- state nor an open server or socket.
pub record IsClean (peer_id : Text) (a t : Agent) : Type 0 where
  pub no_server : serves peer_id t.tcp_probe_server ≡ false
  pub no_socket : get t.udp_probe_sockets peer_id ≡ none
  pub thawed : is_frozen t.monitor peer_id ≡ false
  pub server_closed :
      (probe : TcpProbe)
      → a.tcp_probe_server ≡ some probe
      → text_eq probe.peer_id peer_id ≡ true
      → is_open probe.server t ≡ false
  pub socket_closed :
      (socket : ℕ) → get a.udp_probe_sockets peer_id ≡ some socket → is_open socket t ≡ false

-- A message that ends the negotiation with a peer.
pub data Ending (peer_id : Text) : NegotiateMessage → Type 0 where
  verdict : (action : Action) → Ending peer_id (probe_verdict peer_id action)
  abort : (reason : Reason) → Ending peer_id (negotiate_abort peer_id reason)
  force : (mode : ForceMode) → Ending peer_id (force_mode peer_id mode)

close_tcp_probe_server-gone :
    (peer_id : Text) (a : Agent)
    → serves peer_id (close_tcp_probe_server peer_id a).tcp_probe_server ≡ false
unfolding close_tcp_probe_server
close_tcp_probe_server-gone peer_id a = ground arith

close_udp_probe_socket-server :
    (peer_id : Text) (a : Agent)
    → (close_udp_probe_socket peer_id a).tcp_probe_server ≡ a.tcp_probe_server
unfolding close_udp_probe_socket close_handle
close_udp_probe_socket-server peer_id a = ground arith

close_udp_probe_socket-gone :
    (peer_id : Text) (a : Agent)
    → get (close_udp_probe_socket peer_id a).udp_probe_sockets peer_id ≡ none
unfolding close_udp_probe_socket
close_udp_probe_socket-gone peer_id a =
    ground (arith, get-delete a.udp_probe_sockets peer_id peer_id, text_eq_refl peer_id)

unfreeze-thawed :
    (peer_id : Text) (a : Agent) → is_frozen (unfreeze peer_id a).monitor peer_id ≡ false
unfolding unfreeze is_frozen unfreeze_peer has
unfreeze-thawed peer_id a =
    ground (arith, get-delete a.monitor.frozen_peers peer_id peer_id, text_eq_refl peer_id)

filter-closed : (h : ℕ) (hs : List ℕ) → any (λ j. j == h) (filter (λ j. not (j == h)) hs) ≡ false
filter-closed h [] = refl
filter-closed h (j ∷ js) = ground (arith, filter-closed h js)

filter_keeps_closed :
    (h k : ℕ) (hs : List ℕ)
    → any (λ j. j == h) hs ≡ false
    → any (λ j. j == h) (filter (λ j. not (j == k)) hs) ≡ false
filter_keeps_closed h k [] e = refl
filter_keeps_closed h k (j ∷ js) e = ground (arith, filter_keeps_closed h k js)

close_tcp_probe_server-closed :
    (peer_id : Text) (a : Agent) (probe : TcpProbe)
    → a.tcp_probe_server ≡ some probe
    → text_eq probe.peer_id peer_id ≡ true
    → is_open probe.server (close_tcp_probe_server peer_id a) ≡ false
unfolding close_tcp_probe_server close_handle
close_tcp_probe_server-closed peer_id a probe e own =
    ground (arith, e, own, filter-closed probe.server a.open_handles)

close_tcp_probe_server-sockets :
    (peer_id : Text) (a : Agent)
    → (close_tcp_probe_server peer_id a).udp_probe_sockets ≡ a.udp_probe_sockets
unfolding close_tcp_probe_server close_handle
close_tcp_probe_server-sockets peer_id a = ground arith

close_udp_probe_socket-closed :
    (peer_id : Text) (a : Agent) (socket : ℕ)
    → get a.udp_probe_sockets peer_id ≡ some socket
    → is_open socket (close_udp_probe_socket peer_id a) ≡ false
unfolding close_udp_probe_socket close_handle
close_udp_probe_socket-closed peer_id a socket e =
    ground (arith, e, filter-closed socket a.open_handles)

close_udp_probe_socket_keeps_closed :
    (peer_id : Text) (a : Agent) (h : ℕ)
    → is_open h a ≡ false
    → is_open h (close_udp_probe_socket peer_id a) ≡ false
unfolding close_udp_probe_socket close_handle
close_udp_probe_socket_keeps_closed peer_id a h e =
    elim (Option-cases (get a.udp_probe_sockets peer_id)) [
      | inl unknown ↦ ground (arith, unknown, e)
      | inr (socket, known) ↦ ground (arith, known, filter_keeps_closed h socket a.open_handles e)
    ]

clean_up-IsClean : (peer_id : Text) (a : Agent) → IsClean peer_id a (clean_up peer_id a)
unfolding clean_up unfreeze
clean_up-IsClean peer_id a =
    let stopped = close_tcp_probe_server peer_id a in
    record {
      no_server =
          ap (serves peer_id) (close_udp_probe_socket-server peer_id stopped)
          ∙ close_tcp_probe_server-gone peer_id a;
      no_socket = close_udp_probe_socket-gone peer_id stopped;
      thawed = unfreeze-thawed peer_id (close_udp_probe_socket peer_id stopped);
      server_closed = λ probe e own.
          close_udp_probe_socket_keeps_closed peer_id stopped probe.server
            (close_tcp_probe_server-closed peer_id a probe e own);
      socket_closed = λ socket e.
          close_udp_probe_socket-closed peer_id stopped socket
            (ap (λ d. get d peer_id) (close_tcp_probe_server-sockets peer_id a) ∙ e);
    }

set_peer_mode-frozen :
    (peer_id : Text) (mode : Mode) (m : Monitor) (id : Text)
    → is_frozen (set_peer_mode peer_id mode m) id ≡ is_frozen m id
unfolding set_peer_mode is_frozen
set_peer_mode-frozen peer_id mode m id = ground arith

switch_peer_mode-IsClean :
    (decimal : ℕ → Text) (peer_id : Text) (target : Mode) (before a : Agent)
    → IsClean peer_id before a
    → IsClean peer_id before (switch_peer_mode decimal peer_id target a)
unfolding switch_peer_mode set_awg_endpoint await
switch_peer_mode-IsClean decimal peer_id target before a v = record {
  no_server = ground (arith, v.no_server);
  no_socket = ground (arith, v.no_socket);
  thawed = ground (arith, v.thawed, set_peer_mode-frozen peer_id direct a.monitor peer_id);
  server_closed = λ probe e own. ground (arith, v.server_closed probe e own);
  socket_closed = λ socket e. ground (arith, v.socket_closed socket e);
}

-- A verdict, an abort and a forced mode about a peer close the probe server that the module state
-- names for the peer and the socket that it has for the peer, and leave neither of the two in the
-- module state and the peer not frozen. A server that another has replaced in the module state is
-- not closed by them.
pub handle_negotiate_message-IsClean :
    (o : Platform) (peer_id : Text) (msg : NegotiateMessage) (a : Agent)
    → Ending peer_id msg
    → IsClean peer_id a (handle_negotiate_message o msg a)
unfolding handle_negotiate_message handle_probe_verdict handle_negotiate_abort handle_force_mode
handle_negotiate_message-IsClean o peer_id _ a (verdict switch_relay) =
    switch_peer_mode-IsClean o.decimal peer_id relay a _ (clean_up-IsClean peer_id a)
handle_negotiate_message-IsClean o peer_id _ a (verdict switch_direct) =
    switch_peer_mode-IsClean o.decimal peer_id direct a _ (clean_up-IsClean peer_id a)
handle_negotiate_message-IsClean o peer_id _ a (verdict stay) = clean_up-IsClean peer_id a
handle_negotiate_message-IsClean o peer_id _ a (abort reason) = clean_up-IsClean peer_id a
handle_negotiate_message-IsClean o peer_id _ a (force auto) =
    let v = clean_up-IsClean peer_id a in
    record {
      no_server = v.no_server;
      no_socket = v.no_socket;
      thawed = v.thawed;
      server_closed = v.server_closed;
      socket_closed = v.socket_closed;
    }
handle_negotiate_message-IsClean o peer_id _ a (force (forced mode)) =
    let v = clean_up-IsClean peer_id a in
    switch_peer_mode-IsClean o.decimal peer_id (mode_of mode) a _ (record {
      no_server = v.no_server;
      no_socket = v.no_socket;
      thawed = v.thawed;
      server_closed = v.server_closed;
      socket_closed = v.socket_closed;
    })
