-- ===== src/System/Tests.antt =====
-- A datagram between two agents, and a relay probe between them.
use meshezia.Server.Negotiate.Timers.{set_with_timeout}
use meshezia.Server.Negotiate.RelayProbe.{
  new_relay_probe, server_node_of, client_node_of, initiate_relay_probe,
}
use meshezia.Server.Db.{peer_by_id, is_link, network_by_id}
use meshezia.Server.Negotiate.DirectProbe.{is_relay_enabled_for_peer}
use meshezia.Server.Negotiate.Health.{get_forced_mode_from_db, forced_mode_of, handle_health_report}
use meshezia.Server.Negotiate.Keys.{parse_pair_key, pair_key}
use meshezia.Common.{
  ℕ, codes, text_eq, text_lt, true, false, some, List, [], ◌∷◌, ◌≡◌, ◌≢◌, ◌↔◌, refl, arith,
}
use meshezia.Common.Dict.{delete, get, set, has}
use meshezia.Shared.Types.{probe_relay_serve}
use meshezia.Server.State.{is_peer_connected, Server, initial}
use meshezia.Server.Relay.{ws_text, ws_binary, ws_open}
use meshezia.Server.Negotiate.Lifecycle.{is_relay_enabled_for_network, PeerInfo, lookup_peer}
use meshezia.Server.Tests.{a, b, bytes, both_open, probing, probe, probing_negotiation}
use meshezia.Server.Tests.Wire.{wire_a, wire_b, b_open, payload}
use meshezia.Agent.Tests.Probes.{idle, opening}
use meshezia.Agent.Tests.Polls.{quiet}
use meshezia.Agent.RelayProxy.{Proxy, RelayEntry, udp_data, on_binary}
use meshezia.Agent.Negotiate.{Agent, handle_negotiate_message}
use meshezia.Agent.Negotiate.Events.{answer_probe}
use meshezia.System.Relayed.{udp_data-on_binary}
use meshezia.System.Probed.{
  client_request, answer_probe-client_request, IsForwarded, serve-IsForwarded,
}

abbrev a_entry : RelayEntry
a_entry = record { peer_id = a; local_port = 41820; udp_socket = 1; awg_listen_port = 51820 }

-- The agent of `b`, with a relay for `a`.
abbrev receiver : Proxy
receiver = record quiet { relays = (a, a_entry) ∷ [] }

a_known : get receiver.relays a ≡ some a_entry
unfolding get text_eq
a_known = refl

not_probing : has receiver.probing_peers a ≡ false
unfolding has get
not_probing = refl

udp_data-on_binary_example :
    (frame : List ℕ) × (out : List ℕ) × ((udp_data bytes b payload quiet).frames
      ≡ frame ∷ quiet.frames)
    × ((ws_binary bytes a frame both_open).frames ≡ (b, out) ∷ both_open.frames)
    × ((on_binary bytes 5 out receiver).datagrams ≡ (51820, payload) ∷ receiver.datagrams)
    × (has (on_binary bytes 5 out receiver).relay_forwarded_peers a ≡ true)
udp_data-on_binary_example =
    udp_data-on_binary bytes 5 a b payload 2 a_entry both_open quiet receiver wire_a wire_b refl
      b_open a_known not_probing refl

abbrev info : PeerInfo
info = record { network_id = codes "n"; pubkey = codes "k"; public_ip = codes "192.0.2.1" }

abbrev keyed : Agent
keyed = record idle { self_pubkey = codes "k" }

negotiation_found : get probing.probes.negotiations (pair_key a b) ≡ some probe
unfolding pair_key text_lt
negotiation_found = probing_negotiation

a_found : lookup_peer probing a ≡ some info
unfolding get ws_open ws_text initial meshezia.Server.Negotiate.Router.handle_negotiate_message
    handle_health_report text_eq parse_pair_key pair_key text_lt set forced_mode_of
    get_forced_mode_from_db is_peer_connected is_relay_enabled_for_peer lookup_peer
    is_relay_enabled_for_network network_by_id initiate_relay_probe meshezia.Server.State.send_msg
    set_with_timeout delete has is_link peer_by_id new_relay_probe server_node_of client_node_of
a_found = refl

b_found : lookup_peer probing b ≡ some info
unfolding get ws_open ws_text initial meshezia.Server.Negotiate.Router.handle_negotiate_message
    handle_health_report text_eq parse_pair_key pair_key text_lt set forced_mode_of
    get_forced_mode_from_db is_peer_connected is_relay_enabled_for_peer lookup_peer
    is_relay_enabled_for_network network_by_id initiate_relay_probe meshezia.Server.State.send_msg
    set_with_timeout delete has is_link peer_by_id new_relay_probe server_node_of client_node_of
b_found = refl

serve-IsForwarded_example :
    IsForwarded
      (handle_negotiate_message (opening 7) (probe_relay_serve b) keyed)
      a
      b
      probing
      (codes "n")
      keyed.self_mesh_ipv4
      40000
      (codes "k")
      (codes "k")
serve-IsForwarded_example =
    serve-IsForwarded (opening 7) keyed 7 40000 a b probing probe info info refl negotiation_found
      refl refl refl b_found a_found refl (λ e. ground arith)

answer_probe-client_request_example :
    (answer_probe (codes "n") (codes "k") (client_request (codes "c") (codes "k") (codes "n"))
      ≡ 200)
    ↔ ((codes "n" ≡ codes "n") × (codes "k" ≡ codes "k") × (codes "c" ≢ []))
answer_probe-client_request_example =
    answer_probe-client_request (codes "n") (codes "k") (codes "c") (codes "k") (codes "n")
