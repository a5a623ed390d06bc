-- ===== src/Server/Negotiate/Lifecycle.antt =====
-- The end of a negotiation, and what goes with a peer: the helpers of negotiate.ts and its section
-- "Negotiation Lifecycle".
pub mod Laws
use meshezia.Common.{
  ℕ, ◌*◌, min, Text, text_eq, Bool, true, false, ◌||◌, Option, none, some, List, [], ◌∷◌, ◌==◌,
  if◌then◌else◌,
}
use meshezia.Common.Dict.{Dict, get, set, delete, keys}
use meshezia.Shared.Types.{NegotiateMessage, negotiate_abort, Reason}
use meshezia.Server.Db.{peer_by_id, network_by_id}
use meshezia.Server.State.{PairHealth, NegotiationState, Server, is_peer_connected, send_msg}
use meshezia.Server.Negotiate.Keys.{parse_pair_key}
use meshezia.Server.Negotiate.Timers.{finish}

abbrev pub direct_probe_backoff_max_ms : ℕ
direct_probe_backoff_max_ms = 240000

pub record PeerInfo : Type 0 where
  pub pubkey : Text
  pub public_ip : Text
  pub network_id : Text

unfoldable pub lookup_peer : Server → Text → Option PeerInfo
lookup_peer s peer_id = elim (peer_by_id s.db peer_id) [
  | none ↦ none
  | some row ↦
      some (record { pubkey = row.pubkey; public_ip = row.public_ip; network_id = row.network_id })
]

unfoldable pub is_relay_enabled_for_network : Server → Text → Bool
is_relay_enabled_for_network s network_id = elim (network_by_id s.db network_id) [
  | none ↦ false
  | some row ↦ if row.relay_enabled == 0 then false else true
]

-- A new entry of `pairHealthMap`.
unfoldable pub new_health : Server → PairHealth
new_health s = record {
  streak_ab = 0;
  streak_ba = 0;
  last_direct_probe_at = 0;
  direct_probe_backoff = s.settings.direct_probe_backoff_init_ms;
  forced_mode = none;
  joined_at_a = none;
  joined_at_b = none;
}

-- The entry that `getOrCreateHealth` returns. Its callers write it back with their changes.
unfoldable pub get_or_create_health : Server → Text → PairHealth
unfolding new_health
get_or_create_health s key = elim (get s.pair_health key) [ none ↦ new_health s | some h ↦ h ]

-- The object under a key, with its changes.
unfoldable pub put_health : Server → Text → PairHealth → Server
put_health s key h = record s { pair_health = set s.pair_health key h }

-- `health.directProbeBackoff = Math.min(health.directProbeBackoff * 2, DIRECT_PROBE_BACKOFF_MAX_MS)`
unfoldable pub back_off : PairHealth → PairHealth
back_off h = record h {
  direct_probe_backoff = min (h.direct_probe_backoff * 2) direct_probe_backoff_max_ms;
}

-- `const health = pairHealthMap.get(key); if (health) …`
unfoldable pub change_health : (PairHealth → PairHealth) → Text → Dict PairHealth → Dict PairHealth
change_health f key m = elim (get m key) [ none ↦ m | some h ↦ set m key (f h) ]

unfoldable pub finish_negotiation : Text → Server → Server
finish_negotiation key s = record s { probes = finish key s.probes }

-- `if (isConnected(peerId)) sendMsg(peerId, msg)`
unfoldable pub send_if_connected : Server → Text → NegotiateMessage → Server
send_if_connected s peer_id msg = if is_peer_connected s peer_id then send_msg s peer_id msg else s

abort_found : Text → Reason → NegotiationState → Server → Server
unfolding send_if_connected finish_negotiation
abort_found key reason neg s =
    let told_a = send_if_connected s neg.peer_a (negotiate_abort neg.peer_b reason) in
    let told_b = send_if_connected told_a neg.peer_b (negotiate_abort neg.peer_a reason) in
    finish_negotiation key told_b

unfoldable pub abort_negotiation : Text → Reason → Server → Server
unfolding abort_found
abort_negotiation key reason s = elim (get s.probes.negotiations key) [
  | none ↦ s
  | some neg ↦ abort_found key reason neg s
]

-- One round of the loop of `abortPeerNegotiations`.
unfoldable pub abort_if_party : Text → Reason → Text × NegotiationState → Server → Server
unfolding send_if_connected finish_negotiation
abort_if_party peer_id reason (key, neg) s =
    if text_eq neg.peer_a peer_id || text_eq neg.peer_b peer_id
    then (let other_peer = if text_eq neg.peer_a peer_id then neg.peer_b else neg.peer_a in
        finish_negotiation key (send_if_connected s other_peer (negotiate_abort peer_id reason)))
    else s

unfoldable pub abort_parties : Text → Reason → Dict NegotiationState → Server → Server
unfolding abort_if_party
abort_parties peer_id reason [] s = s
abort_parties peer_id reason (entry ∷ rest) s =
    abort_parties peer_id reason rest (abort_if_party peer_id reason entry s)

-- The loop deletes no entry but the one that it stands at, so it visits the entries that are there
-- when it starts.
unfoldable pub abort_peer_negotiations : Text → Reason → Server → Server
unfolding abort_parties
abort_peer_negotiations peer_id reason s = abort_parties peer_id reason s.probes.negotiations s

-- Is the peer one of the two of a key?
unfoldable pub is_party : Text → Text → Bool
is_party peer_id key =
    text_eq (parse_pair_key key).0 peer_id || text_eq (parse_pair_key key).1 peer_id

unfoldable pub delete_keys_of : Text → List Text → Dict PairHealth → Dict PairHealth
unfolding is_party
delete_keys_of peer_id [] m = m
delete_keys_of peer_id (key ∷ rest) m =
    delete_keys_of peer_id rest (if is_party peer_id key then delete m key else m)

unfoldable pub cleanup_peer_health : Text → Server → Server
unfolding delete_keys_of
cleanup_peer_health peer_id s = record s {
  pair_health = delete_keys_of peer_id (keys s.pair_health) s.pair_health;
}
