-- ===== src/Agent/Negotiate/Orphans.antt =====
-- Sockets that stay open: what no entry of the module state names is never closed.
use meshezia.Common.{
  ℕ, Text, Bool, true, false, not, ◌||◌, ◌==◌, Option, none, some, List, [], ◌∷◌, ◌≡◌, refl, sym,
  ap, ◌∙◌, arith, inl, inr, Option-cases, any, filter,
}
use meshezia.Common.Dict.{Dict, get, set, delete}
use meshezia.Shared.Types.{Mode}
use meshezia.Agent.Negotiate.{
  await, send_msg, freeze, set_awg_endpoint, unfreeze, put_entry, switch_peer_mode,
  handle_probe_relay_serve, handle_probe_direct_go, clean_up, close_udp_probe_socket,
  close_tcp_probe_server, close_handle, Agent, TcpProbe, Bound, bound, failed,
}
use meshezia.Agent.Negotiate.Events.{socket_bound, stop_server, IsNew}

abbrev pub is_server : ℕ → Option TcpProbe → Bool
is_server h none = false
is_server h (some probe) = probe.server == h

abbrev pub is_socket : ℕ → Dict ℕ → Bool
is_socket h [] = false
is_socket h ((peer_id, socket) ∷ rest) = socket == h || is_socket h rest

abbrev pub is_open : ℕ → Agent → Bool
is_open h a = any (λ k. k == h) a.open_handles

-- The platform has the handle open, and the module state does not name it.
pub record IsOrphan (h : ℕ) (a : Agent) : Type 0 where
  pub opened : is_open h a ≡ true
  pub no_server : is_server h a.tcp_probe_server ≡ false
  pub no_socket : is_socket h a.udp_probe_sockets ≡ false

pub filter-open :
    (h k : ℕ) (hs : List ℕ)
    → (k == h) ≡ false
    → any (λ j. j == h) (filter (λ j. not (j == k)) hs) ≡ any (λ j. j == h) hs
filter-open h k [] e = refl
filter-open h k (j ∷ js) e = ground (arith, filter-open h k js e)

delete-is_socket :
    (h : ℕ) (m : Dict ℕ) (peer_id : Text)
    → is_socket h m ≡ false
    → is_socket h (delete m peer_id) ≡ false
unfolding delete
delete-is_socket h [] peer_id e = refl
delete-is_socket h ((q, k) ∷ rest) peer_id e = ground (arith, delete-is_socket h rest peer_id)

set-is_socket :
    (h k : ℕ) (m : Dict ℕ) (peer_id : Text)
    → (k == h) ≡ false
    → is_socket h m ≡ false
    → is_socket h (set m peer_id k) ≡ false
unfolding set
set-is_socket h k [] peer_id n e = ground arith
set-is_socket h k ((q, j) ∷ rest) peer_id n e = ground (arith, set-is_socket h k rest peer_id n)

get-is_socket :
    (h k : ℕ) (m : Dict ℕ) (peer_id : Text)
    → is_socket h m ≡ false
    → get m peer_id ≡ some k
    → (k == h) ≡ false
unfolding get
get-is_socket h k [] peer_id e f = cc
get-is_socket h k ((q, j) ∷ rest) peer_id e f = ground (arith, get-is_socket h k rest peer_id)

close_handle-IsOrphan :
    (h k : ℕ) (a : Agent) → (k == h) ≡ false → IsOrphan h a → IsOrphan h (close_handle k a)
unfolding close_handle
close_handle-IsOrphan h k a e v = record {
  opened = filter-open h k a.open_handles e ∙ v.opened;
  no_server = v.no_server;
  no_socket = v.no_socket;
}

pub stop_server-IsOrphan :
    (h : ℕ) (o : Option TcpProbe) (a : Agent)
    → is_server h o ≡ false
    → IsOrphan h a
    → IsOrphan h (stop_server o a)
unfolding stop_server
stop_server-IsOrphan h none a e v = v
stop_server-IsOrphan h (some probe) a e v =
    let w = close_handle-IsOrphan h probe.server a e v in
    record { opened = w.opened; no_server = refl; no_socket = w.no_socket }

close_tcp_probe_server-IsOrphan :
    (h : ℕ) (peer_id : Text) (a : Agent)
    → IsOrphan h a
    → IsOrphan h (close_tcp_probe_server peer_id a)
unfolding close_tcp_probe_server close_handle
close_tcp_probe_server-IsOrphan h peer_id a v = elim (Option-cases a.tcp_probe_server) [
  | inl stopped ↦ rw (close_tcp_probe_server, stopped) v
  | inr (probe, running) ↦
      let differs : (probe.server == h) ≡ false = sym (ap (is_server h) running) ∙ v.no_server in
      record {
        opened =
            ground (arith, running, v.opened, filter-open h probe.server a.open_handles differs);
        no_server = ground (arith, v.no_server);
        no_socket = ground (arith, v.no_socket);
      }
]

pub close_udp_probe_socket-IsOrphan :
    (h : ℕ) (peer_id : Text) (a : Agent)
    → IsOrphan h a
    → IsOrphan h (close_udp_probe_socket peer_id a)
unfolding close_udp_probe_socket
close_udp_probe_socket-IsOrphan h peer_id a v =
    elim (Option-cases (get a.udp_probe_sockets peer_id)) [
      | inl closed ↦ rw (close_udp_probe_socket, closed) v
      | inr (k, found) ↦
          let w =
            close_handle-IsOrphan h k a
              (get-is_socket h k a.udp_probe_sockets peer_id v.no_socket found) v in
          rw (close_udp_probe_socket, found)
            (record {
              opened = w.opened;
              no_server = w.no_server;
              no_socket = delete-is_socket h a.udp_probe_sockets peer_id v.no_socket;
            })
    ]

pub new-differs :
    (h k : ℕ) (hs : List ℕ)
    → any (λ j. j == h) hs ≡ true
    → any (λ j. j == k) hs ≡ false
    → (k == h) ≡ false
new-differs h k [] o n = cc
new-differs h k (j ∷ js) o n = ground (arith, new-differs h k js)

pub switch_peer_mode-IsOrphan :
    (decimal : ℕ → Text) (h : ℕ) (peer_id : Text) (target : Mode) (a : Agent)
    → IsOrphan h a
    → IsOrphan h (switch_peer_mode decimal peer_id target a)
unfolding switch_peer_mode set_awg_endpoint await
switch_peer_mode-IsOrphan decimal h peer_id target a v = record {
  opened = ground (arith, v.opened);
  no_server = ground (arith, v.no_server);
  no_socket = ground (arith, v.no_socket);
}

pub clean_up-IsOrphan :
    (h : ℕ) (peer_id : Text) (a : Agent) → IsOrphan h a → IsOrphan h (clean_up peer_id a)
unfolding clean_up unfreeze
clean_up-IsOrphan h peer_id a v =
    let w =
      close_udp_probe_socket-IsOrphan h peer_id (close_tcp_probe_server peer_id a)
        (close_tcp_probe_server-IsOrphan h peer_id a v) in
    record { opened = w.opened; no_server = w.no_server; no_socket = w.no_socket }

-- A new socket takes the place of another one, or comes beside them.
pub still_opened :
    (h handle : ℕ) (hs : List ℕ)
    → any (λ k. k == h) hs ≡ true
    → any (λ k. k == h) (handle ∷ hs) ≡ true
still_opened h handle hs e = ground arith

pub serve-IsOrphan :
    (h now : ℕ) (nonce : Text) (b : Bound) (peer_id : Text) (a : Agent)
    → IsNew b a.open_handles
    → IsOrphan h a
    → IsOrphan h (handle_probe_relay_serve now nonce b peer_id a)
unfolding handle_probe_relay_serve freeze unfreeze send_msg
serve-IsOrphan h now nonce (bound handle port) peer_id a new v = record {
  opened = still_opened h handle a.open_handles v.opened;
  no_server = new-differs h handle a.open_handles v.opened new;
  no_socket = v.no_socket;
}
serve-IsOrphan h now nonce (failed error) peer_id a new v = record {
  opened = v.opened;
  no_server = v.no_server;
  no_socket = v.no_socket;
}

pub socket_bound-IsOrphan :
    (h : ℕ) (peer_id nonce : Text) (b : Bound) (a : Agent)
    → IsNew b a.open_handles
    → IsOrphan h a
    → IsOrphan h (socket_bound peer_id nonce b a)
unfolding socket_bound put_entry unfreeze send_msg
socket_bound-IsOrphan h peer_id nonce (bound handle port) a new v = record {
  opened = still_opened h handle a.open_handles v.opened;
  no_server = v.no_server;
  no_socket =
      set-is_socket h handle a.udp_probe_sockets peer_id
        (new-differs h handle a.open_handles v.opened new) v.no_socket;
}
socket_bound-IsOrphan h peer_id nonce (failed error) a new v = record {
  opened = v.opened;
  no_server = v.no_server;
  no_socket = v.no_socket;
}

pub go-IsOrphan :
    (h : ℕ) (peer_id peer_nonce : Text) (a : Agent)
    → IsOrphan h a
    → IsOrphan h (handle_probe_direct_go peer_id peer_nonce a)
unfolding handle_probe_direct_go put_entry await
go-IsOrphan h peer_id peer_nonce a v = record {
  opened = ground (arith, v.opened);
  no_server = ground (arith, v.no_server);
  no_socket = ground (arith, v.no_socket);
}
