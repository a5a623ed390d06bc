-- ===== src/Agent/Monitor.antt =====
-- packages/agent/src/monitor.ts: what the agent knows of its peers' tunnels. What `awg show` prints
-- is an argument of the operations that read it.
pub mod Steps
pub mod Alive
pub mod Frozen
pub mod Reports
pub mod Ticks
use meshezia.Common.{
  ℕ, suc, ◌+◌, ◌-◌, ◌*◌, ◌≤◌, Text, codes, text_eq, text_eq_iff, Bool, true, false, not, ◌&&◌,
  Option, none, some, List, [], ◌∷◌, ◌++◌, ◌≡◌, ◌∙◌, refl, arith, ltb, leb, take, drop, find, In,
  inl, inr, Bool-cases, Option-cases, if◌then◌else◌, is_some,
}
use meshezia.Common.Dict.{Dict, get, set, delete, has, get-set, get-delete, In-get}
use meshezia.Shared.Types.{Mode, direct, relay}

-- `lastRxBytes` is `none` where the code has -1.
pub record PeerState : Type 0 where
  pub if_name : Text
  pub pubkey : Text
  pub peer_ipv4 : Text
  pub direct_endpoint : Text
  pub relay_port : ℕ
  pub mode : Mode
  pub rx_alive : Bool
  pub last_rx_bytes : Option ℕ
  pub direct_missed : ℕ

-- `PeerStats` of awg.ts.
pub record PeerStats : Type 0 where
  pub if_name : Text
  pub pubkey : Text
  pub rx_bytes : ℕ
  pub tx_bytes : ℕ
  pub latest_handshake : ℕ
  pub endpoint : Text

-- The module state. The set `frozenPeers` is a map to a unit value.
pub record Monitor : Type 0 where
  pub peer_states : Dict PeerState
  pub frozen_peers : Dict (Unit {0})
  pub frozen_at : Dict ℕ
  pub cached_stats : Option (Dict PeerStats)
  pub cached_stats_at : ℕ

unfoldable pub empty : Monitor
empty = record {
  peer_states = [];
  frozen_peers = [];
  frozen_at = [];
  cached_stats = none;
  cached_stats_at = 0;
}

abbrev pub miss_threshold : ℕ
miss_threshold = 3

abbrev pub frozen_timeout_ms : ℕ
frozen_timeout_ms = 30000

abbrev pub stats_cache_ttl_ms : ℕ
stats_cache_ttl_ms = 500

pub record InitPeerOpts : Type 0 where
  pub peer_id : Text
  pub if_name : Text
  pub pubkey : Text
  pub peer_ipv4 : Text
  pub endpoint : Text
  pub relay_port : ℕ

unfoldable pub new_peer_state : InitPeerOpts → PeerState
new_peer_state opts = record {
  if_name = opts.if_name;
  pubkey = opts.pubkey;
  peer_ipv4 = opts.peer_ipv4;
  direct_endpoint = opts.endpoint;
  relay_port = opts.relay_port;
  mode = direct;
  rx_alive = true;
  last_rx_bytes = none;
  direct_missed = 0;
}

unfoldable pub refreshed : InitPeerOpts → PeerState → PeerState
refreshed opts existing = record existing {
  direct_endpoint = opts.endpoint;
  peer_ipv4 = opts.peer_ipv4;
  pubkey = opts.pubkey;
  if_name = opts.if_name;
  relay_port = opts.relay_port;
}

unfoldable pub init_peer_state : InitPeerOpts → Monitor → Monitor
unfolding new_peer_state refreshed
init_peer_state opts m = record m {
  peer_states = elim (get m.peer_states opts.peer_id) [
    | none ↦ set m.peer_states opts.peer_id (new_peer_state opts)
    | some existing ↦ set m.peer_states opts.peer_id (refreshed opts existing)
  ];
}

unfoldable pub remove_peer_state : Text → Monitor → Monitor
remove_peer_state peer_id m = record m {
  peer_states = delete m.peer_states peer_id;
  frozen_peers = delete m.frozen_peers peer_id;
  frozen_at = delete m.frozen_at peer_id;
}

unfoldable pub freeze_peer : ℕ → Text → Monitor → Monitor
freeze_peer now peer_id m = record m {
  frozen_peers = set m.frozen_peers peer_id tt;
  frozen_at = set m.frozen_at peer_id now;
}

unfoldable pub unfreeze_peer : Text → Monitor → Monitor
unfreeze_peer peer_id m = record m {
  frozen_peers = delete m.frozen_peers peer_id;
  frozen_at = delete m.frozen_at peer_id;
}

unfoldable pub clear_all_frozen : Monitor → Monitor
clear_all_frozen m = record m { frozen_peers = []; frozen_at = [] }

unfoldable pub is_frozen : Monitor → Text → Bool
unfolding has
is_frozen m peer_id = has m.frozen_peers peer_id

-- `mode === 'direct'`
abbrev pub is_direct : Mode → Bool
is_direct direct = true
is_direct relay = false

unfoldable pub with_mode : Mode → PeerState → PeerState
with_mode mode state = record state {
  mode = mode;
  last_rx_bytes = none;
  direct_missed = 0;
  rx_alive = is_direct mode;
}

unfoldable pub set_peer_mode : Text → Mode → Monitor → Monitor
unfolding with_mode
set_peer_mode peer_id mode m = elim (get m.peer_states peer_id) [
  | none ↦ m
  | some state ↦ record m { peer_states = set m.peer_states peer_id (with_mode mode state) }
]

-- `getCachedPeerStats`, where `fetched` is what `getAllPeerStats` would give.
unfoldable pub get_cached_peer_stats :
    ℕ → (fetched : Dict PeerStats) → Monitor → Dict PeerStats × Monitor
get_cached_peer_stats now fetched m = elim m.cached_stats [
  | none ↦ (fetched, record m { cached_stats = some fetched; cached_stats_at = now })
  | some stats ↦
      if ltb now (m.cached_stats_at + stats_cache_ttl_ms)
      then (stats, m)
      else (fetched, record m { cached_stats = some fetched; cached_stats_at = now })
]

-- One round of the loop over `frozenAt`.
unfoldable pub unfreeze_if_stuck : ℕ → Text × ℕ → Monitor → Monitor
unfolding unfreeze_peer
unfreeze_if_stuck now (peer_id, ts) m =
    if ltb (ts + frozen_timeout_ms) now then unfreeze_peer peer_id m else m

unfoldable pub unfreeze_all_stuck : ℕ → Dict ℕ → Monitor → Monitor
unfolding unfreeze_if_stuck
unfreeze_all_stuck now [] m = m
unfreeze_all_stuck now (entry ∷ rest) m =
    unfreeze_all_stuck now rest (unfreeze_if_stuck now entry m)

-- The part of `tick` before it waits for the statistics. The loop deletes no entry but the one that
-- it stands at.
unfoldable pub unfreeze_stuck : ℕ → Monitor → Monitor
unfolding unfreeze_all_stuck
unfreeze_stuck now m = unfreeze_all_stuck now m.frozen_at m

-- `${state.ifName}\t${state.pubkey}`
unfoldable pub stats_key : PeerState → Text
stats_key state = state.if_name ++ (9 ∷ state.pubkey)

unfoldable pub rx_of : Dict PeerStats → PeerState → ℕ
unfolding stats_key
rx_of stats state = elim (get stats (stats_key state)) [ none ↦ 0 | some s ↦ s.rx_bytes ]

-- The update of a direct peer by its count of received bytes; `tainted` says that the count holds
-- bytes that the relay forwarded.
unfoldable pub track : (tainted : Bool) → (rx : ℕ) → PeerState → PeerState
track tainted rx state = elim state.last_rx_bytes [
  | none ↦ record state { last_rx_bytes = some rx }
  | some last ↦
      if not tainted && ltb last rx
      then record state { direct_missed = 0; rx_alive = true; last_rx_bytes = some rx }
      else record state {
        direct_missed = suc state.direct_missed;
        rx_alive = if leb miss_threshold (suc state.direct_missed) then false else state.rx_alive;
        last_rx_bytes = some rx;
      }
]

-- One round of the loop over `peerStates`.
unfoldable pub tick_peer :
    (frozen : Dict (Unit {0})) → Dict PeerStats → Dict (Unit {0}) → Text → PeerState → PeerState
unfolding track rx_of has
tick_peer frozen stats relay_forwarded peer_id state =
    if has frozen peer_id
    then state
    else (if is_direct state.mode
        then track (has relay_forwarded peer_id) (rx_of stats state) state
        else state)

unfoldable pub map_states : (Text → PeerState → PeerState) → Dict PeerState → Dict PeerState
map_states f [] = []
map_states f ((peer_id, state) ∷ rest) = (peer_id, f peer_id state) ∷ map_states f rest

-- The part of `tick` after it has waited.
unfoldable pub track_peers :
    ℕ → (fetched : Dict PeerStats) → (relay_forwarded : Dict (Unit {0})) → Monitor → Monitor
unfolding get_cached_peer_stats tick_peer map_states
track_peers now fetched relay_forwarded m =
    let (stats, cached) = get_cached_peer_stats now fetched m in
    record cached {
      peer_states =
          map_states (tick_peer cached.frozen_peers stats relay_forwarded) cached.peer_states;
    }

unfoldable pub tick :
    ℕ → (fetched : Dict PeerStats) → (relay_forwarded : Dict (Unit {0})) → Monitor → Monitor
unfolding unfreeze_stuck track_peers
tick now fetched relay_forwarded m = track_peers now fetched relay_forwarded (unfreeze_stuck now m)
