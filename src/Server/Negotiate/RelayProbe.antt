-- ===== src/Server/Negotiate/RelayProbe.antt =====
-- "Direct → Relay: TCP Probe" of negotiate.ts.
use meshezia.Common.{
  ℕ, ◌+◌, Text, text_eq, Bool, true, false, Option, none, some, [], leb, if◌then◌else◌,
}
use meshezia.Common.Dict.{get}
use meshezia.Shared.Types.{
  probe_relay_serve, probe_relay_check, probe_verdict, switch_relay, stay, Action, timeout,
}
use meshezia.Server.State.{
  PairHealth, NegotiationType, relay_probe, direct_probe, NegotiationState, relay_timeout, Server,
  send_msg,
}
use meshezia.Server.Negotiate.Keys.{pair_key, parse_pair_key}
use meshezia.Server.Negotiate.Timers.{set_with_timeout}
use meshezia.Server.Negotiate.Lifecycle.{
  lookup_peer, change_health, finish_negotiation, abort_negotiation,
}

abbrev pub relay_probe_timeout_ms : ℕ
relay_probe_timeout_ms = 15000

-- The side with the higher streak is the TCP server; if equal, the first peer of the key.
unfoldable pub server_node_of : Text → PairHealth → Text
server_node_of key health =
    if leb health.streak_ba health.streak_ab then (parse_pair_key key).0 else (parse_pair_key key).1

unfoldable pub client_node_of : Text → PairHealth → Text
unfolding server_node_of
client_node_of key health =
    if text_eq (server_node_of key health) (parse_pair_key key).0
    then (parse_pair_key key).1
    else (parse_pair_key key).0

unfoldable pub new_relay_probe : ℕ → Text → PairHealth → NegotiationState
new_relay_probe now key health = record {
  type = relay_probe;
  pair_key = key;
  peer_a = (parse_pair_key key).0;
  peer_b = (parse_pair_key key).1;
  started_at = now;
  timeout_id = none;
  server_node = some (server_node_of key health);
  client_node = some (client_node_of key health);
  ready_a = none;
  ready_b = none;
  result_a = none;
  result_b = none;
}

unfoldable pub initiate_relay_probe : ℕ → Text → PairHealth → Server → Server
initiate_relay_probe now key health s =
    send_msg
      (record s {
        probes =
            set_with_timeout key (new_relay_probe now key health) (now + relay_probe_timeout_ms)
              (relay_timeout key) s.probes;
      })
      (server_node_of key health) (probe_relay_serve (client_node_of key health))

abbrev pub is_relay_probe : NegotiationType → Bool
is_relay_probe relay_probe = true
is_relay_probe direct_probe = false

-- `fromPeerId === neg.serverNode`, where the field may be undefined
abbrev pub is_node : Option Text → Text → Bool
is_node none peer_id = false
is_node (some node) peer_id = text_eq peer_id node

-- The value of a field that the code takes for defined (`neg.clientNode!`), as it is in a relay
-- probe.
abbrev pub node : Option Text → Text
node none = []
node (some peer_id) = peer_id

unfoldable pub relay_ready_found :
    Text → (mesh_ipv4 : Text) → (tcp_port : ℕ) → (nonce : Text) → NegotiationState → Server → Server
relay_ready_found key mesh_ipv4 tcp_port nonce neg s = elim (lookup_peer s (node neg.client_node)) [
  | none ↦ abort_negotiation key timeout s
  | some client_info ↦ elim (lookup_peer s (node neg.server_node)) [
    | none ↦ abort_negotiation key timeout s
    | some server_info ↦ send_msg s (node neg.client_node) (
        probe_relay_check (node neg.server_node) mesh_ipv4 tcp_port nonce client_info.pubkey
          server_info.pubkey)
  ]
]

unfoldable pub handle_probe_relay_ready :
    Text → (peer : Text) → (mesh_ipv4 : Text) → (tcp_port : ℕ) → (nonce : Text) → Server → Server
unfolding relay_ready_found
handle_probe_relay_ready from_peer_id peer mesh_ipv4 tcp_port nonce s =
    let key = pair_key from_peer_id peer in
    elim (get s.probes.negotiations key) [
      | none ↦ s
      | some neg ↦
          if is_relay_probe neg.type
          then (if is_node neg.server_node from_peer_id
              then relay_ready_found key mesh_ipv4 tcp_port nonce neg s
              else s)
          else s
    ]

-- `health.streakAB = 0; health.streakBA = 0`
unfoldable pub reset_streaks : PairHealth → PairHealth
reset_streaks h = record h { streak_ab = 0; streak_ba = 0 }

unfoldable pub relay_verdict : Bool → Action
relay_verdict true = switch_relay
relay_verdict false = stay

-- Both sides are told, then the negotiation ends and `change` is applied to the pair's health.
unfoldable pub conclude :
    Text → NegotiationState → Action → (PairHealth → PairHealth) → Server → Server
unfolding finish_negotiation
conclude key neg action change s =
    let told_a = send_msg s neg.peer_a (probe_verdict neg.peer_b action) in
    let told_b = send_msg told_a neg.peer_b (probe_verdict neg.peer_a action) in
    let finished = finish_negotiation key told_b in
    record finished { pair_health = change_health change key finished.pair_health }

unfoldable pub handle_probe_relay_result : Text → (peer : Text) → (success : Bool) → Server → Server
unfolding relay_verdict reset_streaks conclude
handle_probe_relay_result from_peer_id peer success s =
    let key = pair_key from_peer_id peer in
    elim (get s.probes.negotiations key) [
      | none ↦ s
      | some neg ↦
          if is_relay_probe neg.type
          then (if is_node neg.client_node from_peer_id
              then conclude key neg (relay_verdict success) reset_streaks s
              else s)
          else s
    ]
