-- ===== src/Server/Negotiate/DirectProbe.antt =====
-- "Relay → Direct: UDP Probe" of negotiate.ts, and its section "Probe Error".
use meshezia.Common.{
  Option, ℕ, ◌+◌, Text, codes, text_eq, text_lt, Bool, true, false, ◌&&◌, not, none, some, List, [],
  ◌∷◌, ◌++◌, ltb, is_some, if◌then◌else◌,
}
use meshezia.Common.Dict.{get, set, has}
use meshezia.Shared.Types.{
  Action, switch_direct, stay, probe_direct_start, probe_direct_go, probe_verdict, timeout, Mode,
  direct, relay,
}
use meshezia.Server.Db.{LinkRow}
use meshezia.Server.State.{
  PairHealth, NegotiationType, relay_probe, direct_probe, Ready, NegotiationState,
  direct_ready_timeout, direct_result_timeout, Server, is_peer_connected, send_msg,
}
use meshezia.Server.Negotiate.Keys.{pair_key, parse_pair_key}
use meshezia.Server.Negotiate.Timers.{set_with_timeout, clear_timeout}
use meshezia.Server.Negotiate.Lifecycle.{
  PeerInfo, lookup_peer, is_relay_enabled_for_network, put_health, back_off, change_health,
  abort_negotiation, send_if_connected, finish_negotiation,
}
use meshezia.Server.Negotiate.RelayProbe.{conclude}

abbrev pub direct_ready_timeout_ms : ℕ
direct_ready_timeout_ms = 10000

-- The `10_000` of `handleProbeDirectReady`.
abbrev pub direct_result_timeout_ms : ℕ
direct_result_timeout_ms = 10000

unfoldable pub new_direct_probe : ℕ → Text → NegotiationState
new_direct_probe now key = record {
  type = direct_probe;
  pair_key = key;
  peer_a = (parse_pair_key key).0;
  peer_b = (parse_pair_key key).1;
  started_at = now;
  timeout_id = none;
  server_node = none;
  client_node = none;
  ready_a = none;
  ready_b = none;
  result_a = none;
  result_b = none;
}

unfoldable pub initiate_direct_probe : ℕ → Text → PairHealth → Server → Server
unfolding put_health
initiate_direct_probe now key health s =
    let (peer_a, peer_b) = parse_pair_key key in
    let marked = put_health s key (record health { last_direct_probe_at = now }) in
    let started = record marked {
      probes =
          set_with_timeout key (new_direct_probe now key) (now + direct_ready_timeout_ms)
            (direct_ready_timeout key) marked.probes;
    } in
    send_msg (send_msg started peer_a (probe_direct_start peer_b)) peer_b
      (probe_direct_start peer_a)

-- The text of the column `mode`.
unfoldable pub mode_text : Mode → Text
mode_text direct = codes "direct"
mode_text relay = codes "relay"

is_relay_pair : LinkRow → LinkRow → Bool
unfolding mode_text
is_relay_pair a b =
    text_eq a.from_peer_id b.to_peer_id
    && text_eq a.to_peer_id b.from_peer_id
    && text_eq a.mode (mode_text relay)
    && text_eq b.mode (mode_text relay)
    && not (is_some a.forced_mode)
    && not (is_some b.forced_mode)
    && text_lt a.from_peer_id a.to_peer_id

join_row : LinkRow → List LinkRow → List (Text × Text)
unfolding is_relay_pair
join_row a [] = []
join_row a (b ∷ rest) =
    let others = join_row a rest in
    if is_relay_pair a b then (a.from_peer_id, a.to_peer_id) ∷ others else others

join_rows : List LinkRow → List LinkRow → List (Text × Text)
unfolding join_row
join_rows [] links = []
join_rows (a ∷ rest) links = join_row a links ++ join_rows rest links

-- The query of `checkDirectProbes`: `peer_links` joined to itself
unfoldable pub relay_pairs : List LinkRow → List (Text × Text)
unfolding join_rows
relay_pairs links = join_rows links links

-- May the pair be probed now? The guards of the loop that stand before the look-up of the peer.
unfoldable pub is_probe_due : ℕ → Text × Text → PairHealth → Server → Bool
unfolding has
is_probe_due now (peer_a, peer_b) health s =
    not (has s.probes.negotiations (pair_key peer_a peer_b))
    && is_peer_connected s peer_a
    && is_peer_connected s peer_b
    && not (ltb now (health.last_direct_probe_at + health.direct_probe_backoff))

unfoldable pub is_relay_enabled_for_peer : Server → Text → Bool
is_relay_enabled_for_peer s peer_id = elim (lookup_peer s peer_id) [
  | none ↦ false
  | some peer ↦ is_relay_enabled_for_network s peer.network_id
]

-- One round of the loop of `checkDirectProbes`.
unfoldable pub check_direct_probe : ℕ → Text × Text → Server → Server
unfolding is_probe_due is_relay_enabled_for_peer
check_direct_probe now (peer_a, peer_b) s = elim (get s.pair_health (pair_key peer_a peer_b)) [
  | none ↦ s
  | some health ↦
      if is_probe_due now (peer_a, peer_b) health s && is_relay_enabled_for_peer s peer_a
      then initiate_direct_probe now (pair_key peer_a peer_b) health s
      else s
]

unfoldable pub check_pairs : ℕ → List (Text × Text) → Server → Server
unfolding check_direct_probe
check_pairs now [] s = s
check_pairs now (row ∷ rows) s = check_pairs now rows (check_direct_probe now row s)

unfoldable pub check_direct_probes : ℕ → Server → Server
unfolding check_pairs relay_pairs
check_direct_probes now s = check_pairs now (relay_pairs s.db.peer_links) s

abbrev pub is_direct_probe : NegotiationType → Bool
is_direct_probe relay_probe = false
is_direct_probe direct_probe = true

-- The object that the map holds, changed.
unfoldable pub put_negotiation : Text → NegotiationState → Server → Server
put_negotiation key neg s = record s {
  probes = record s.probes { negotiations = set s.probes.negotiations key neg };
}

unfoldable pub set_ready : Bool → Ready → NegotiationState → NegotiationState
set_ready is_from_a ready neg = record neg {
  ready_a = if is_from_a then some ready else neg.ready_a;
  ready_b = if is_from_a then neg.ready_b else some ready;
}

-- Both are ready: the ready timer gives way to the result timer, and each side learns the other's
-- address, port and nonce.
unfoldable pub send_go :
    ℕ → Text → NegotiationState → Ready → Ready → PeerInfo → PeerInfo → Server → Server
send_go now key neg ready_a ready_b info_a info_b s =
    let told_a =
      send_msg s neg.peer_a
        (probe_direct_go neg.peer_b info_b.public_ip ready_b.udp_port ready_b.nonce) in
    let told_b =
      send_msg told_a neg.peer_b
        (probe_direct_go neg.peer_a info_a.public_ip ready_a.udp_port ready_a.nonce) in
    record told_b {
      probes =
          set_with_timeout key neg (now + direct_result_timeout_ms) (direct_result_timeout key)
            told_b.probes;
    }

unfoldable pub both_ready : ℕ → Text → NegotiationState → Ready → Ready → Server → Server
unfolding send_go
both_ready now key neg ready_a ready_b s =
    let cleared = record s { probes = clear_timeout neg.timeout_id s.probes } in
    elim (lookup_peer cleared neg.peer_a) [
      | none ↦ abort_negotiation key timeout cleared
      | some info_a ↦ elim (lookup_peer cleared neg.peer_b) [
        | none ↦ abort_negotiation key timeout cleared
        | some info_b ↦ send_go now key neg ready_a ready_b info_a info_b cleared
      ]
    ]

-- `if (!neg.readyA || !neg.readyB) return`, and what follows.
unfoldable pub go_if_ready :
    ℕ → Text → NegotiationState → Option Ready → Option Ready → Server → Server
unfolding both_ready
go_if_ready now key neg (some ready_a) (some ready_b) s = both_ready now key neg ready_a ready_b s
go_if_ready now key neg _ _ s = s

unfoldable pub handle_probe_direct_ready :
    ℕ → Text → (peer : Text) → (udp_port : ℕ) → (nonce : Text) → Server → Server
unfolding set_ready put_negotiation go_if_ready
handle_probe_direct_ready now from_peer_id peer udp_port nonce s =
    let key = pair_key from_peer_id peer in
    elim (get s.probes.negotiations key) [
      | none ↦ s
      | some neg ↦
          if is_direct_probe neg.type
          then (let is_from_a = text_eq from_peer_id (parse_pair_key key).0 in
              let noted = set_ready is_from_a (record { udp_port = udp_port; nonce = nonce }) neg in
              go_if_ready now key noted noted.ready_a noted.ready_b (put_negotiation key noted s))
          else s
    ]

unfoldable pub set_result : Bool → Bool → NegotiationState → NegotiationState
set_result is_from_a success neg = record neg {
  result_a = if is_from_a then some success else neg.result_a;
  result_b = if is_from_a then neg.result_b else some success;
}

unfoldable pub direct_verdict : Bool → Action
direct_verdict true = switch_direct
direct_verdict false = stay

-- The backoff returns to its first value if both sides succeeded, and doubles if not.
unfoldable pub direct_outcome : ℕ → Bool → PairHealth → PairHealth
unfolding back_off
direct_outcome init true h = record h { direct_probe_backoff = init }
direct_outcome init false h = back_off h

-- `if (neg.resultA === undefined || neg.resultB === undefined) return`, and what follows.
unfoldable pub conclude_if_known :
    Text → NegotiationState → Option Bool → Option Bool → Server → Server
unfolding direct_verdict direct_outcome conclude
conclude_if_known key neg (some result_a) (some result_b) s =
    conclude key neg (direct_verdict (result_a && result_b))
      (direct_outcome s.settings.direct_probe_backoff_init_ms (result_a && result_b)) s
conclude_if_known key neg _ _ s = s

unfoldable pub handle_probe_direct_result :
    Text → (peer : Text) → (success : Bool) → Server → Server
unfolding set_result put_negotiation conclude_if_known
handle_probe_direct_result from_peer_id peer success s =
    let key = pair_key from_peer_id peer in
    elim (get s.probes.negotiations key) [
      | none ↦ s
      | some neg ↦
          if is_direct_probe neg.type
          then (let is_from_a = text_eq from_peer_id (parse_pair_key key).0 in
              let noted = set_result is_from_a success neg in
              conclude_if_known key noted noted.result_a noted.result_b
                (put_negotiation key noted s))
          else s
    ]

unfoldable pub back_off_if_direct : NegotiationType → PairHealth → PairHealth
unfolding back_off
back_off_if_direct relay_probe h = h
back_off_if_direct direct_probe h = back_off h

unfoldable pub handle_probe_error : Text → (peer : Text) → Server → Server
unfolding back_off_if_direct
handle_probe_error from_peer_id peer s =
    let key = pair_key from_peer_id peer in
    elim (get s.probes.negotiations key) [
      | none ↦ s
      | some neg ↦
          abort_negotiation key timeout (record s {
            pair_health = change_health (back_off_if_direct neg.type) key s.pair_health;
          })
    ]

-- The callback of the ready timer: both sides are told to stay.
unfoldable pub on_direct_ready_timeout : Text → Server → Server
unfolding send_if_connected finish_negotiation back_off
on_direct_ready_timeout key s =
    let (peer_a, peer_b) = parse_pair_key key in
    let told_a = send_if_connected s peer_a (probe_verdict peer_b stay) in
    let told_b = send_if_connected told_a peer_b (probe_verdict peer_a stay) in
    let finished = finish_negotiation key told_b in
    record finished { pair_health = change_health back_off key finished.pair_health }

-- The callback of the result timer.
unfoldable pub on_direct_result_timeout : Text → Server → Server
unfolding finish_negotiation back_off
on_direct_result_timeout key s =
    let (peer_a, peer_b) = parse_pair_key key in
    let told_a = send_msg s peer_a (probe_verdict peer_b stay) in
    let told_b = send_msg told_a peer_b (probe_verdict peer_a stay) in
    let finished = finish_negotiation key told_b in
    record finished { pair_health = change_health back_off key finished.pair_health }
