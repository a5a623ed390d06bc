-- ===== src/Agent/Reconciler.antt =====
-- packages/agent/src/reconciler.ts: which interface and which port the agent uses for each peer. An
-- interface `mza3` is its index 3. What `listInterfaces` finds, whether `ensureInterface` succeeds
-- and what `Math.random` draws are arguments.
pub mod Distinct
use meshezia.Common.{
  ℕ, zero, suc, ◌+◌, Text, text_eq, Bool, true, false, not, ◌&&◌, ◌||◌, Option, none, some, List,
  [], ◌∷◌, ◌++◌, ltb, ◌==◌, length, any, map, if◌then◌else◌,
}
use meshezia.Common.Dict.{Dict, get, set, delete, keys}
use meshezia.Shared.Entities.{PeerEndpoint}
use meshezia.Shared.Types.{Mode, direct, relay}
use meshezia.Agent.Monitor.{PeerState, Monitor, is_frozen}

-- The module state.
pub record Mappings : Type 0 where
  pub peer_to_if : Dict ℕ
  pub peer_to_port : Dict ℕ
  pub port_range_start : ℕ
  pub port_range_end : ℕ
  pub dirty : Bool

-- What the rest of the system answers: the interfaces that exist, whether the setup of an interface
-- succeeds, and the draws between 0 and the width of the range, for each peer and try.
pub record System : Type 0 where
  pub existing_interfaces : List ℕ
  pub ensures : Text → Bool
  pub draw : Text → ℕ → ℕ

unfoldable pub values : Dict ℕ → List ℕ
values [] = []
values ((k, v) ∷ rest) = v ∷ values rest

abbrev pub is_used : List ℕ → ℕ → Bool
is_used used n = any (λ m. m == n) used

-- `while (usedIndices.has(idx)) idx++`
unfoldable pub first_free : (fuel : ℕ) → List ℕ → ℕ → ℕ
first_free zero used idx = idx
first_free (suc fuel) used idx =
    let later = first_free fuel used (suc idx) in if is_used used idx then later else idx

-- There are as many used indices as peers, so the loop ends after at most so many rounds.
unfoldable pub free_index : Dict ℕ → ℕ
unfolding first_free values
free_index peer_to_if = first_free (length (values peer_to_if)) (values peer_to_if) 0

unfoldable pub get_if_name : Text → Mappings → ℕ × Mappings
unfolding free_index
get_if_name peer_id m = elim (get m.peer_to_if peer_id) [
  | some idx ↦ (idx, m)
  | none ↦ (
    free_index m.peer_to_if,
    record m { peer_to_if = set m.peer_to_if peer_id (free_index m.peer_to_if); dirty = true },
  )
]

-- The tries from the `i`-th on; 0 is what `port` is when none found one, or when 0 was found.
try_ports : (tries i : ℕ) → (draw : ℕ → ℕ) → (start : ℕ) → List ℕ → ℕ
try_ports zero i draw start used = 0
try_ports (suc tries) i draw start used =
    let later = try_ports tries (suc i) draw start used in
    if is_used used (start + draw i) then later else start + draw i

-- At most 1000 tries.
unfoldable pub random_port : (draw : ℕ → ℕ) → Mappings → ℕ
unfolding try_ports values
random_port draw m = try_ports 1000 0 draw m.port_range_start (values m.peer_to_port)

-- `get(peerId)`, where `undefined` is 0: both fail the test `!port`.
abbrev pub or_zero : Option ℕ → ℕ
or_zero none = 0
or_zero (some n) = n

-- `none` is the error that no port is available.
unfoldable pub get_port : (draw : ℕ → ℕ) → Text → Mappings → Option (ℕ × Mappings)
get_port draw peer_id m =
    let known = or_zero (get m.peer_to_port peer_id) in
    let found = random_port draw m in
    if not (known == 0)
    then some (known, m)
    else (if found == 0
        then none
        else some
            (found, record m { peer_to_port = set m.peer_to_port peer_id found; dirty = true }))

-- `peer.listenPort > 0 ? peer.listenPort : getPort(peer.id)`
unfoldable pub listen_port_for : System → PeerEndpoint → Mappings → Option (ℕ × Mappings)
unfolding get_port
listen_port_for system peer m =
    if ltb 0 peer.listen_port
    then some (peer.listen_port, m)
    else get_port (system.draw peer.id) peer.id m

abbrev pub is_port : ℕ → Option ℕ → Bool
is_port port none = false
is_port port (some p) = p == port

unfoldable pub remember_port : Text → ℕ → Mappings → Mappings
remember_port peer_id port m =
    if is_port port (get m.peer_to_port peer_id)
    then m
    else record m { peer_to_port = set m.peer_to_port peer_id port; dirty = true }

abbrev pub on_relay : Option PeerState → Bool
on_relay none = false
on_relay (some state) = elim state.mode [ direct ↦ false | relay ↦ true ]

-- A call of `ensureInterface`.
pub record Setup : Type 0 where
  pub peer_id : Text
  pub if_index : ℕ
  pub listen_port : ℕ
  pub skip_endpoint : Bool

-- The work of `reconcile` so far; `threw` says that an error has left the loop.
pub record Run : Type 0 where
  pub mappings : Mappings
  pub ports : List (Text × ℕ)
  pub setups : List Setup
  pub threw : Bool

-- A round of the first loop once the interface is chosen.
unfoldable pub set_up : System → Monitor → PeerEndpoint → (if_index : ℕ) → Run → Run
unfolding listen_port_for remember_port
set_up system monitor peer if_index run = elim (listen_port_for system peer run.mappings) [
  | none ↦ record run { threw = true }
  | some (port, m) ↦ record run {
    mappings = remember_port peer.id port m;
    setups =
        record {
          peer_id = peer.id;
          if_index = if_index;
          listen_port = port;
          skip_endpoint =
              is_used system.existing_interfaces if_index
              && (on_relay (get monitor.peer_states peer.id) || is_frozen monitor peer.id);
        }
        ∷ run.setups;
    ports = if system.ensures peer.id then run.ports ++ (peer.id, port) ∷ [] else run.ports;
  }
]

abbrev pub is_empty : Text → Bool
is_empty [] = true
is_empty (c ∷ cs) = false

-- One round of the first loop.
unfoldable pub reconcile_peer : System → Monitor → PeerEndpoint → Run → Run
unfolding get_if_name set_up
reconcile_peer system monitor peer run =
    if run.threw || is_empty peer.pubkey
    then run
    else set_up system monitor peer (get_if_name peer.id run.mappings).0
        (record run { mappings = (get_if_name peer.id run.mappings).1 })

unfoldable pub reconcile_peers : System → Monitor → List PeerEndpoint → Run → Run
unfolding reconcile_peer
reconcile_peers system monitor [] run = run
reconcile_peers system monitor (peer ∷ rest) run =
    reconcile_peers system monitor rest (reconcile_peer system monitor peer run)

unfoldable pub is_desired : List PeerEndpoint → Text → Bool
is_desired peers peer_id = any (λ (p : PeerEndpoint). text_eq p.id peer_id) peers

unfoldable pub forget_peer : Text → Mappings → Mappings
forget_peer peer_id m = record m {
  peer_to_if = delete m.peer_to_if peer_id;
  peer_to_port = delete m.peer_to_port peer_id;
  dirty = true;
}

-- The second loop, over the peers that are mapped.
unfoldable pub remove_gone : List PeerEndpoint → List Text → Mappings → Mappings
unfolding forget_peer is_desired
remove_gone peers [] m = m
remove_gone peers (peer_id ∷ rest) m =
    remove_gone peers rest (if is_desired peers peer_id then m else forget_peer peer_id m)

-- `reconcile`. After its last write, `saveMappings` leaves nothing dirty.
unfoldable pub reconcile : System → Monitor → List PeerEndpoint → Mappings → Run
unfolding reconcile_peers remove_gone
reconcile system monitor peers m =
    let run =
      reconcile_peers system monitor peers
        (record { mappings = m; ports = []; setups = []; threw = false }) in
    if run.threw then run else record run {
      mappings = record (remove_gone peers (keys run.mappings.peer_to_if) run.mappings) {
        dirty = false;
      };
    }
