-- ===== src/Agent/Tests/Probes.antt =====
-- Probes at an agent, one of which is not ended before the next.
use meshezia.Common.{ℕ, codes, true, false, none, some, [], ◌∷◌, ◌≡◌, refl, any, ◌==◌}
use meshezia.Shared.Types.{probe_relay_serve, negotiate_abort, timeout}
use meshezia.Agent.Monitor.{empty}
use meshezia.Agent.Negotiate.{
  handle_probe_relay_serve, Agent, TcpProbe, Platform, bound, handle_negotiate_message,
}
use meshezia.Agent.Negotiate.Events.{here, next, disconnected, reset_negotiate_state}
use meshezia.Agent.Negotiate.Endings.{IsClean, abort, handle_negotiate_message-IsClean}
use meshezia.Agent.Negotiate.Orphans.{is_open, is_socket}
use meshezia.Agent.Negotiate.Leaks.{serve-is_open}

abbrev pub idle : Agent
idle = record {
  self_mesh_ipv4 = codes "10.100.0.1";
  self_pubkey = codes "k1";
  tcp_probe_server = none;
  udp_probe_sockets = [];
  udp_entries = λ h. record { nonce = []; resolved = false; expected = none };
  forced_modes = [];
  monitor = empty;
  open_handles = [];
  pending = [];
  outbox = [];
  endpoints = [];
}

-- The platform opens the socket with the handle.
abbrev pub opening : ℕ → Platform
opening handle = record {
  decimal = λ n. n ∷ [];
  now = 1000;
  nonce = codes "n";
  bind = bound handle 40000;
}

abbrev serving : Agent
serving = handle_negotiate_message (opening 7) (probe_relay_serve (codes "p")) idle

abbrev probe : TcpProbe
probe = record { server = 7; nonce = codes "n"; peer_id = codes "p" }

handle_negotiate_message-IsClean_example :
    IsClean
      (codes "p")
      serving
      (handle_negotiate_message (opening 8) (negotiate_abort (codes "p") timeout) serving)
handle_negotiate_message-IsClean_example =
    handle_negotiate_message-IsClean (opening 8) (codes "p") (negotiate_abort (codes "p") timeout)
      serving (abort timeout)

serving_probe : serving.tcp_probe_server ≡ some probe
unfolding handle_negotiate_message handle_probe_relay_serve
serving_probe = refl

serving_opened : is_open 7 serving ≡ true
unfolding handle_negotiate_message handle_probe_relay_serve
serving_opened = refl

no_sockets : is_socket 7 serving.udp_probe_sockets ≡ false
unfolding handle_negotiate_message handle_probe_relay_serve
no_sockets = refl

eight_new : any (λ k. k == 8) serving.open_handles ≡ false
unfolding handle_negotiate_message handle_probe_relay_serve
eight_new = refl

abbrev again : Agent
again = handle_negotiate_message (opening 8) (probe_relay_serve (codes "q")) serving

serve-is_open_example : is_open 7 (reset_negotiate_state again) ≡ true
serve-is_open_example =
    serve-is_open (opening 8) (codes "q") 8 40000 probe serving (reset_negotiate_state again)
      serving_probe serving_opened no_sockets refl eight_new (next here disconnected)
