-- ===== src/Server/Tests.antt =====
-- A network of two peers, run through a relay probe, and the theorems at its states.
mod Endings
pub mod Wire
mod Addresses
mod Requests
use meshezia.Server.Negotiate.Timers.{set_with_timeout}
use meshezia.Server.Negotiate.Lifecycle.{is_relay_enabled_for_network, lookup_peer}
use meshezia.Server.Negotiate.Router.{handle_negotiate_message}
use meshezia.Server.Steps.Backoff.{Reach-IsBackoff, IsBackoff}
use meshezia.Server.Negotiate.RelayProbe.{
  new_relay_probe, initiate_relay_probe, client_node_of, server_node_of, reset_streaks,
  relay_verdict, handle_probe_relay_result,
}
use meshezia.Server.Steps.Shape.{Reach-HasShape, HasShape}
use meshezia.Server.Negotiate.Guards.{
  Starts-process_report, counted, started, process_report-Starts, Starts, report_key,
}
use meshezia.Server.Negotiate.Verdicts.{relay_result-IsConcluded, relay_result_ignored, IsConcluded}
use meshezia.Server.Negotiate.Verdicts.Direct.{
  other_result, direct_result-IsConcluded, direct_result_noted,
}
use meshezia.Server.Negotiate.Health.{
  get_forced_mode_from_db, forced_mode_of, handle_health_report, process_report,
}
use meshezia.Server.Negotiate.DirectProbe.{
  is_relay_enabled_for_peer, direct_outcome, set_result, put_negotiation, direct_verdict,
  initiate_direct_probe, handle_probe_direct_result, new_direct_probe,
}
use meshezia.Server.Negotiate.Keys.{parse_pair_key, pair_key}
use meshezia.Common.{
  if◌then◌else◌, min, ◌*◌, sym, subst, ◌&&◌, text_eq, ◌≢◌, text_lt, ℕ, Text, codes, Bool, true,
  false, Option, none, some, List, [], ◌∷◌, ◌++◌, ◌≡◌, refl, arith, length, replicate,
}
use meshezia.Shared.Protocol.{Utf8}
use meshezia.Shared.Types.{
  stay, switch_direct, probe_relay_serve, switch_relay, HealthReport, direct, health_report,
  probe_relay_result, forced, force_relay,
}
use meshezia.Server.Db.{peer_by_id, is_link, network_by_id, Db, NetworkRow, PeerRow, LinkRow}
use meshezia.Server.State.{
  is_peer_connected, send_msg, direct_probe, Server, Settings, initial, PairHealth,
  NegotiationState,
}
use meshezia.Server.Relay.{ws_open, ws_text}
use meshezia.Server.Steps.Ownership.{Reach-IsOwned}
use meshezia.Server.Negotiate.Timers.Ownership.{IsOwned}
use meshezia.Common.Dict.{delete, set, get, has}
use meshezia.Server.State.{relay_probe}
use meshezia.Server.Steps.{Reach, here, next, open_socket, text}

-- The encoding of texts whose code units are bytes.
abbrev pub bytes : Utf8
bytes = record { encode = λ t. t; decode = λ b. b }

abbrev pub a : Text
a = codes "0a6f43c2-2f1b-4c7e-9d55-5e1f0f6a7b10"

abbrev pub b : Text
b = codes "b7d1e9aa-61c0-4a3d-8f02-d2c4b6a8e913"

abbrev pub settings : Settings
settings = record { grace_period_ms = 0; direct_probe_backoff_init_ms = 30000 }

abbrev network : NetworkRow
network = record {
  id = codes "n";
  name = codes "home";
  token = codes "t";
  subnet = codes "10.100.0.0/24";
  listen_port = 51820;
  jc = 4;
  jmin = 40;
  jmax = 70;
  s1 = 0;
  s2 = 0;
  h1 = 1;
  h2 = 2;
  h3 = 3;
  h4 = 4;
  relay_enabled = 1;
}

abbrev pub peer : Text → PeerRow
peer id = record {
  id = id;
  network_id = codes "n";
  name = id;
  public_ip = codes "192.0.2.1";
  pubkey = codes "k";
  ipv4 = codes "10.100.0.1";
  last_seen = 0;
  is_relay_eligible = 1;
  ttl_seconds = 60;
  memo = [];
  agent_version = [];
}

abbrev pub db : Db
db = record {
  networks = network ∷ [];
  peers = peer a ∷ peer b ∷ [];
  peer_ports = [];
  peer_links = [];
}

abbrev pub down : Text → HealthReport
down id = record {
  peer_id = id;
  mode = direct;
  rx_alive = false;
  relay_alive = true;
  probing_direct = false;
  rx_bytes = 0;
  tx_bytes = 0;
  last_handshake = 0;
  endpoint = [];
  if_name = codes "awg0";
  routing_table = 0;
}

abbrev pub both_open : Server
both_open = ws_open b 2 (ws_open a 1 (initial settings db))

-- Both peers report each other, once.
abbrev round : ℕ → Server → Server
round now s =
    ws_text now b (some (health_report (down a ∷ [])))
      (ws_text now a (some (health_report (down b ∷ []))) s)

-- Before the report that starts the probe.
abbrev almost : Server
almost = ws_text 3000 a (some (health_report (down b ∷ []))) (round 2000 (round 1000 both_open))

abbrev pub probing : Server
probing = ws_text 3000 b (some (health_report (down a ∷ []))) almost

abbrev reached : Reach bytes (initial settings db) probing
reached =
    next
      (next
        (next
          (next
            (next (next (next (next here (open_socket a 1)) (open_socket b 2)) (text 1000 a _))
              (text 1000 b _))
            (text 2000 a _))
          (text 2000 b _))
        (text 3000 a _))
      (text 3000 b _)

Reach-IsOwned_example : IsOwned probing.probes
Reach-IsOwned_example = Reach-IsOwned bytes settings db reached

abbrev pub key : Text
key = a ++ codes ":" ++ b

-- The probe that the two peers come to.
abbrev pub probe : NegotiationState
probe = record {
  type = relay_probe;
  pair_key = key;
  peer_a = a;
  peer_b = b;
  started_at = 3000;
  timeout_id = some 0;
  server_node = some a;
  client_node = some b;
  ready_a = none;
  ready_b = none;
  result_a = none;
  result_b = none;
}

abbrev health : PairHealth
health = record {
  streak_ab = 3;
  streak_ba = 3;
  last_direct_probe_at = 0;
  direct_probe_backoff = 30000;
  forced_mode = none;
  joined_at_a = some 1000;
  joined_at_b = some 1000;
}

pub probing_negotiation : get probing.probes.negotiations key ≡ some probe
unfolding get ws_open ws_text initial handle_negotiate_message handle_health_report text_eq
    parse_pair_key pair_key text_lt set forced_mode_of get_forced_mode_from_db is_peer_connected
    is_relay_enabled_for_peer lookup_peer is_relay_enabled_for_network network_by_id
    initiate_relay_probe send_msg set_with_timeout delete has is_link peer_by_id new_relay_probe
    server_node_of client_node_of
probing_negotiation = refl

probing_health : get probing.pair_health key ≡ some health
unfolding get ws_open ws_text initial handle_negotiate_message handle_health_report text_eq
    parse_pair_key pair_key text_lt set forced_mode_of get_forced_mode_from_db is_peer_connected
    is_relay_enabled_for_peer lookup_peer is_relay_enabled_for_network network_by_id
    initiate_relay_probe send_msg set_with_timeout delete has is_link peer_by_id new_relay_probe
    server_node_of client_node_of
probing_health = refl

Reach-IsBackoff_example : IsBackoff settings health
Reach-IsBackoff_example = Reach-IsBackoff bytes settings db key health reached probing_health

Reach-HasShape_example : HasShape key probe
Reach-HasShape_example = Reach-HasShape bytes settings db key probe reached probing_negotiation

almost_idle : get almost.probes.negotiations key ≡ none
unfolding get ws_open ws_text initial handle_negotiate_message handle_health_report text_eq
    parse_pair_key pair_key text_lt set forced_mode_of get_forced_mode_from_db is_peer_connected
    is_relay_enabled_for_peer lookup_peer is_relay_enabled_for_network network_by_id
    initiate_relay_probe send_msg set_with_timeout delete has is_link peer_by_id new_relay_probe
    server_node_of client_node_of
almost_idle = refl

almost_probing : get (process_report 3000 b (down a) almost).probes.negotiations key ≡ some probe
unfolding get ws_open ws_text initial handle_negotiate_message handle_health_report text_eq
    parse_pair_key pair_key text_lt set forced_mode_of get_forced_mode_from_db is_peer_connected
    is_relay_enabled_for_peer lookup_peer is_relay_enabled_for_network network_by_id
    initiate_relay_probe send_msg set_with_timeout delete has is_link peer_by_id new_relay_probe
    server_node_of client_node_of process_report
almost_probing = refl

process_report-Starts_example :
    (key ≡ report_key 3000 b (down a) almost)
    × Starts 3000 b (down a) almost
    × (probe ≡ started 3000 key (counted 3000 b (down a) almost) almost)
process_report-Starts_example =
    process_report-Starts 3000 b (down a) almost key probe almost_idle almost_probing

same_pair : report_key 3000 b (down a) almost ≡ key
unfolding pair_key text_lt
same_pair = refl

almost_starts : Starts 3000 b (down a) almost
almost_starts =
    (process_report-Starts 3000 b (down a) almost key probe almost_idle almost_probing).1

Starts-process_report_example :
    (get
        (process_report 3000 b (down a) almost).probes.negotiations
        (report_key 3000 b (down a) almost)
      ≡ some (
          started 3000 (report_key 3000 b (down a) almost) (counted 3000 b (down a) almost) almost))
    × ((process_report 3000 b (down a) almost).outbox
        ≡ (send_msg almost
            (server_node_of (report_key 3000 b (down a) almost) (counted 3000 b (down a) almost))
            (probe_relay_serve (
              client_node_of
                (report_key 3000 b (down a) almost)
                (counted 3000 b (down a) almost)))).outbox)
Starts-process_report_example =
    Starts-process_report 3000 b (down a) almost almost_starts
      (subst (λ k. get almost.probes.negotiations k ≡ none) (sym same_pair) almost_idle)

relay_result-IsConcluded_example :
    IsConcluded
      (pair_key b a)
      probe
      (if true then switch_relay else stay)
      (λ h. record h { streak_ab = 0; streak_ba = 0 })
      probing
      (handle_probe_relay_result b a true probing)
unfolding relay_verdict pair_key text_lt
relay_result-IsConcluded_example =
    relay_result-IsConcluded b a true probing probe probing_negotiation refl refl

not_client :
    (neg : NegotiationState)
    → get probing.probes.negotiations (pair_key a b) ≡ some neg
    → neg.type ≡ relay_probe
    → neg.client_node ≢ some a
unfolding pair_key text_lt
not_client neg found type e = ground (arith, probing_negotiation)

relay_result_ignored_example : handle_probe_relay_result a b true probing ≡ probing
relay_result_ignored_example = relay_result_ignored a b true probing not_client

-- A direct probe of the two peers, and what it is once the first has its result.
abbrev direct_probing : Server
direct_probing = initiate_direct_probe 5000 key health both_open

abbrev direct_neg : NegotiationState
direct_neg = record (new_direct_probe 5000 key) { timeout_id = some 0 }

abbrev half_done : Server
half_done = handle_probe_direct_result a b true direct_probing

abbrev half_neg : NegotiationState
half_neg = record direct_neg { result_a = some true }

direct_found : get direct_probing.probes.negotiations (pair_key a b) ≡ some direct_neg
unfolding get ws_open ws_text initial handle_negotiate_message handle_health_report text_eq
    parse_pair_key pair_key text_lt set forced_mode_of get_forced_mode_from_db is_peer_connected
    is_relay_enabled_for_peer lookup_peer is_relay_enabled_for_network network_by_id
    initiate_relay_probe send_msg set_with_timeout delete has is_link peer_by_id new_relay_probe
    server_node_of client_node_of initiate_direct_probe new_direct_probe
direct_found = refl

half_found : get half_done.probes.negotiations (pair_key b a) ≡ some half_neg
unfolding get ws_open ws_text initial handle_negotiate_message handle_health_report text_eq
    parse_pair_key pair_key text_lt set forced_mode_of get_forced_mode_from_db is_peer_connected
    is_relay_enabled_for_peer lookup_peer is_relay_enabled_for_network network_by_id
    initiate_relay_probe send_msg set_with_timeout delete has is_link peer_by_id new_relay_probe
    server_node_of client_node_of initiate_direct_probe new_direct_probe handle_probe_direct_result
    set_result
half_found = refl

direct_type : direct_neg.type ≡ direct_probe
unfolding new_direct_probe
direct_type = refl

direct_other : other_result (text_eq a (parse_pair_key (pair_key a b)).0) direct_neg ≡ none
unfolding get ws_open ws_text initial handle_negotiate_message handle_health_report text_eq
    parse_pair_key pair_key text_lt set forced_mode_of get_forced_mode_from_db is_peer_connected
    is_relay_enabled_for_peer lookup_peer is_relay_enabled_for_network network_by_id
    initiate_relay_probe send_msg set_with_timeout delete has is_link peer_by_id new_relay_probe
    server_node_of client_node_of new_direct_probe
direct_other = refl

half_other : other_result (text_eq b (parse_pair_key (pair_key b a)).0) half_neg ≡ some true
unfolding get ws_open ws_text initial handle_negotiate_message handle_health_report text_eq
    parse_pair_key pair_key text_lt set forced_mode_of get_forced_mode_from_db is_peer_connected
    is_relay_enabled_for_peer lookup_peer is_relay_enabled_for_network network_by_id
    initiate_relay_probe send_msg set_with_timeout delete has is_link peer_by_id new_relay_probe
    server_node_of client_node_of new_direct_probe
half_other = refl

direct_result-IsConcluded_example :
    IsConcluded
      (pair_key b a)
      half_neg
      (if false && true then switch_direct else stay)
      (λ h. record h {
        direct_probe_backoff =
            if false && true
            then half_done.settings.direct_probe_backoff_init_ms
            else min (h.direct_probe_backoff * 2) 240000;
      })
      half_done
      (handle_probe_direct_result b a false half_done)
direct_result-IsConcluded_example =
    direct_result-IsConcluded b a false true half_done half_neg half_found direct_type half_other
