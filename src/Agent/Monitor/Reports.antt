-- ===== src/Agent/Monitor/Reports.antt =====
-- `collectHealthReports` of packages/agent/src/monitor.ts, with `ifIndex` and `getTableForIf` of
-- packages/agent/src/awg.ts.
use meshezia.Common.{
  Option-cases, ◌++◌, number_of, text_eq_refl, subst, ℕ, ◌+◌, Text, codes, text_eq, text_eq_iff,
  Bool, false, Option, none, some, List, [], ◌∷◌, ◌≡◌, refl, arith, take, drop, find, inl, inr,
  Bool-cases, if◌then◌else◌,
}
use meshezia.Common.Dict.{Dict, get, has}
use meshezia.Shared.Types.{HealthReport}
use meshezia.Agent.Monitor.{
  PeerState, PeerStats, Monitor, is_frozen, get_cached_peer_stats, stats_key,
}

-- The index of `mza3` is 3. A name without the prefix, which the program never makes, gives `none`.
unfoldable pub if_index : Text → Option ℕ
unfolding number_of
if_index if_name =
    if text_eq (take 3 if_name) (codes "mza") then number_of 0 (drop 3 if_name) else none

-- A table that is NaN is sent as null, which the server takes for 0.
unfoldable pub get_table_for_if : (rt_table_base : ℕ) → Text → ℕ
unfolding if_index
get_table_for_if rt_table_base if_name = elim (if_index if_name) [
  | none ↦ 0
  | some i ↦ rt_table_base + i
]

-- The report on a peer, whose statistics may be missing.
unfoldable pub report_of :
    ℕ → (ws_alive : Bool) → Text → PeerState → Option PeerStats → HealthReport
unfolding get_table_for_if
report_of rt_table_base ws_alive peer_id state none = record {
  peer_id = peer_id;
  mode = state.mode;
  rx_alive = state.rx_alive;
  relay_alive = ws_alive;
  probing_direct = false;
  rx_bytes = 0;
  tx_bytes = 0;
  last_handshake = 0;
  endpoint = [];
  if_name = state.if_name;
  routing_table = get_table_for_if rt_table_base state.if_name;
}
report_of rt_table_base ws_alive peer_id state (some stats) = record {
  peer_id = peer_id;
  mode = state.mode;
  rx_alive = state.rx_alive;
  relay_alive = ws_alive;
  probing_direct = false;
  rx_bytes = stats.rx_bytes;
  tx_bytes = stats.tx_bytes;
  last_handshake = stats.latest_handshake;
  endpoint = stats.endpoint;
  if_name = state.if_name;
  routing_table = get_table_for_if rt_table_base state.if_name;
}

collect_from :
    ℕ
    → (ws_alive : Bool) → (frozen : Dict (Unit {0})) → Dict PeerStats
    → Dict PeerState
    → List HealthReport
unfolding report_of has
collect_from rt_table_base ws_alive frozen stats [] = []
collect_from rt_table_base ws_alive frozen stats ((peer_id, state) ∷ rest) =
    let others = collect_from rt_table_base ws_alive frozen stats rest in
    if has frozen peer_id
    then others
    else report_of rt_table_base ws_alive peer_id state (get stats (stats_key state)) ∷ others

-- The reports, and the state with its cache.
unfoldable pub collect_health_reports :
    ℕ → ℕ → (fetched : Dict PeerStats) → (ws_alive : Bool) → Monitor → List HealthReport × Monitor
unfolding collect_from
collect_health_reports rt_table_base now fetched ws_alive m =
    let (stats, cached) = get_cached_peer_stats now fetched m in
    (collect_from rt_table_base ws_alive cached.frozen_peers stats cached.peer_states, cached)

-- The report on a peer among reports, the first one that names it.
abbrev pub report_on : Text → List HealthReport → Option HealthReport
report_on peer_id reports = find (λ (r : HealthReport). text_eq r.peer_id peer_id) reports

-- What the statistics of a peer say, if there are any.
abbrev pub statistic : {A : Type 0} → (PeerStats → A) → A → Option PeerStats → A
statistic field missing none = missing
statistic field missing (some s) = field s

abbrev pub number_from : (base : ℕ) → Option ℕ → ℕ
number_from base none = 0
number_from base (some i) = base + i

-- The routing table of an interface: the number behind `mza`, from the base on.
abbrev pub table : (base : ℕ) → (if_name : Text) → ℕ
table base if_name =
    if text_eq (take 3 if_name) (codes "mza")
    then number_from base (number_of 0 (drop 3 if_name))
    else 0

get_table_for_if-table :
    (base : ℕ) (if_name : Text) → get_table_for_if base if_name ≡ table base if_name
unfolding get_table_for_if if_index
get_table_for_if-table base if_name = elim (Option-cases (number_of 0 (drop 3 if_name))) [
  | inl none_read ↦ ground (arith, none_read)
  | inr (i, read) ↦ ground (arith, read)
]

-- A report, field by field.
abbrev pub report_with : ℕ → Bool → Text → PeerState → Option PeerStats → HealthReport
report_with base ws_alive peer_id state found = record {
  peer_id = peer_id;
  mode = state.mode;
  rx_alive = state.rx_alive;
  relay_alive = ws_alive;
  probing_direct = false;
  rx_bytes = statistic (λ s. s.rx_bytes) 0 found;
  tx_bytes = statistic (λ s. s.tx_bytes) 0 found;
  last_handshake = statistic (λ s. s.latest_handshake) 0 found;
  endpoint = statistic (λ s. s.endpoint) [] found;
  if_name = state.if_name;
  routing_table = table base state.if_name;
}

report_of-report_with :
    (base : ℕ) (ws_alive : Bool) (peer_id : Text) (state : PeerState) (found : Option PeerStats)
    → report_of base ws_alive peer_id state found ≡ report_with base ws_alive peer_id state found
unfolding report_of
report_of-report_with base ws_alive peer_id state none =
    rw (← get_table_for_if-table base state.if_name) refl
report_of-report_with base ws_alive peer_id state (some s) =
    rw (← get_table_for_if-table base state.if_name) refl

-- The report on a peer that is not frozen, if it is known: its statistics are those under the
-- interface, a tab and the key.
abbrev pub report_for : ℕ → Bool → Dict PeerStats → Text → Option PeerState → Option HealthReport
report_for base ws_alive stats peer_id none = none
report_for base ws_alive stats peer_id (some state) =
    some (report_with base ws_alive peer_id state (get stats (state.if_name ++ 9 ∷ state.pubkey)))

peer_id-report_of :
    (base : ℕ) (ws_alive : Bool) (id : Text) (state : PeerState) (stats : Option PeerStats)
    → (report_of base ws_alive id state stats).peer_id ≡ id
unfolding report_of
peer_id-report_of base ws_alive id state none = refl
peer_id-report_of base ws_alive id state (some stats) = refl

collect_from_lem :
    (base : ℕ) (ws_alive : Bool) (frozen : Dict (Unit {0})) (stats : Dict PeerStats)
    (states : Dict PeerState) (peer_id : Text)
    → report_on peer_id (collect_from base ws_alive frozen stats states) ≡ (
        if has frozen peer_id
        then none
        else report_for base ws_alive stats peer_id (get states peer_id))
unfolding collect_from get stats_key
collect_from_lem base ws_alive frozen stats [] peer_id = ground arith
collect_from_lem base ws_alive frozen stats ((id, state) ∷ rest) peer_id =
    elim (Bool-cases (text_eq id peer_id)) [
      | inl same ↦
          subst
            (λ k. report_on k (collect_from base ws_alive frozen stats ((id, state) ∷ rest)) ≡ (
              if has frozen k
              then none
              else report_for base ws_alive stats k (get ((id, state) ∷ rest) k)))
            ((text_eq_iff id peer_id).0 same)
            (ground (
              arith,
              peer_id-report_of base ws_alive id state
                  (get stats (state.if_name ++ 9 ∷ state.pubkey)),
              text_eq_refl id,
              report_of-report_with base ws_alive id state
                  (get stats (state.if_name ++ 9 ∷ state.pubkey)),
              collect_from_lem base ws_alive frozen stats rest id,
            ))
      | inr other ↦ ground (
        arith,
        peer_id-report_of base ws_alive id state (get stats (state.if_name ++ 9 ∷ state.pubkey)),
        collect_from_lem base ws_alive frozen stats rest peer_id,
      )
    ]

pub cached_lem :
    (now : ℕ) (fetched : Dict PeerStats) (m : Monitor)
    → ((get_cached_peer_stats now fetched m).1.peer_states ≡ m.peer_states)
      × ((get_cached_peer_stats now fetched m).1.frozen_peers ≡ m.frozen_peers)
unfolding get_cached_peer_stats
cached_lem now fetched m = ground arith

-- The reports hold one on a peer just if the agent knows the peer and it is not frozen; the first
-- one on it has the mode and the liveness of the peer's state, the state of the connection to the
-- server for the relay, no probe under way, the counts, handshake and endpoint of the statistics in
-- the cache, 0 or empty where these are missing, and the routing table that is the base plus the
-- number of the interface (0 where its name is not `mza` and a number).
pub collect_health_reports-report_on :
    (base now : ℕ) (fetched : Dict PeerStats) (ws_alive : Bool) (m : Monitor) (peer_id : Text)
    → report_on peer_id (collect_health_reports base now fetched ws_alive m).0 ≡ (
        if is_frozen m peer_id
        then none
        else report_for base ws_alive
            (get_cached_peer_stats now fetched m).0
            peer_id
            (get m.peer_states peer_id))
unfolding collect_health_reports is_frozen
collect_health_reports-report_on base now fetched ws_alive m peer_id =
    let (states, frozen) = cached_lem now fetched m in
    ground (
      arith,
      collect_from_lem base ws_alive (get_cached_peer_stats now fetched m).1.frozen_peers
          (get_cached_peer_stats now fetched m).0
          (get_cached_peer_stats now fetched m).1.peer_states peer_id,
    )
