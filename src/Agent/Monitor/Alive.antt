-- ===== src/Agent/Monitor/Alive.antt =====
-- When a peer counts as alive.
use meshezia.Common.{
  ap, sym, ◌⊎◌, subst, ℕ, Text, text_eq, Bool, false, some, [], ◌∷◌, ◌≡◌, ◌∙◌, refl, arith, ltb,
  All, inl, inr, Bool-cases, Option-cases,
}
use meshezia.Common.Dict.{Dict, get, set, delete, has}
use meshezia.Agent.Monitor.{
  PeerState, PeerStats, Monitor, InitPeerOpts, empty, init_peer_state, remove_peer_state,
  freeze_peer, unfreeze_peer, clear_all_frozen, set_peer_mode, unfreeze_stuck, track_peers,
  get_cached_peer_stats, miss_threshold, new_peer_state, refreshed, with_mode, is_direct, track,
  rx_of, tick_peer, map_states, unfreeze_if_stuck, unfreeze_all_stuck,
}
use meshezia.Shared.Types.{Mode, direct, relay}
use meshezia.Agent.Monitor.Reports.{collect_health_reports}
use meshezia.Agent.Monitor.Steps.{
  Step, Reached, start, step, init_peer, remove_peer, freeze, unfreeze, clear_frozen, switch,
  tick_begins, tick_ends, collect,
}

-- In direct mode a peer is alive just if fewer than three silent ticks are counted for it; in relay
-- mode it is not, and none are counted.
abbrev pub HasAlive : Mode → (rx_alive : Bool) → (direct_missed : ℕ) → Type 0
HasAlive direct rx_alive missed = rx_alive ≡ ltb missed miss_threshold
HasAlive relay rx_alive missed = (rx_alive ≡ false) × (missed ≡ 0)

abbrev pub IsRight : PeerState → Type 0
IsRight s = HasAlive s.mode s.rx_alive s.direct_missed

abbrev AllRight : Dict PeerState → Type 0
AllRight = All (λ (e : Text × PeerState). IsRight e.1)

pub mode-track : (tainted : Bool) (rx : ℕ) (s : PeerState) → (track tainted rx s).mode ≡ s.mode
unfolding track
mode-track tainted rx s = ground arith

track_direct :
    (tainted : Bool) (rx : ℕ) (s : PeerState)
    → HasAlive direct s.rx_alive s.direct_missed
    → HasAlive direct (track tainted rx s).rx_alive (track tainted rx s).direct_missed
unfolding track
track_direct tainted rx s h = ground arith

Mode-cases : (mode : Mode) → (mode ≡ direct) ⊎ (mode ≡ relay)
Mode-cases direct = inl refl
Mode-cases relay = inr refl

pub track-IsRight :
    (tainted : Bool) (rx : ℕ) (s : PeerState)
    → s.mode ≡ direct
    → IsRight s
    → IsRight (track tainted rx s)
track-IsRight tainted rx s e h =
    subst (λ mode. HasAlive mode (track tainted rx s).rx_alive (track tainted rx s).direct_missed)
      (sym (mode-track tainted rx s ∙ e))
      (track_direct tainted rx s (subst (λ mode. HasAlive mode s.rx_alive s.direct_missed) e h))

with_mode-IsRight : (mode : Mode) (s : PeerState) → IsRight (with_mode mode s)
unfolding with_mode
with_mode-IsRight direct s = refl
with_mode-IsRight relay s = (refl, refl)

map_states-AllRight :
    (f : Text → PeerState → PeerState) (d : Dict PeerState)
    → ((id : Text) (s : PeerState) → IsRight s → IsRight (f id s))
    → AllRight d
    → AllRight (map_states f d)
unfolding map_states
map_states-AllRight f [] keeps all = tt
map_states-AllRight f ((k, v) ∷ rest) keeps all =
    (keeps k v all.0, map_states-AllRight f rest keeps all.1)

set-AllRight :
    (d : Dict PeerState) (k : Text) (v : PeerState) → IsRight v → AllRight d → AllRight (set d k v)
unfolding set
set-AllRight [] k v p all = (p, tt)
set-AllRight ((j, w) ∷ d) k v p all = elim (Bool-cases (text_eq j k)) [
  | inl same ↦ rw same (p, all.1)
  | inr other ↦ rw other (all.0, set-AllRight d k v p all.1)
]

delete-AllRight : (d : Dict PeerState) (k : Text) → AllRight d → AllRight (delete d k)
unfolding delete
delete-AllRight [] k all = tt
delete-AllRight ((j, w) ∷ d) k all = elim (Bool-cases (text_eq j k)) [
  | inl same ↦ rw same (delete-AllRight d k all.1)
  | inr other ↦ rw other (all.0, delete-AllRight d k all.1)
]

get-AllRight :
    (d : Dict PeerState) (k : Text) (v : PeerState) → AllRight d → get d k ≡ some v → IsRight v
unfolding get
get-AllRight [] k v all e = absurd (ground arith)
get-AllRight ((j, w) ∷ d) k v all e = elim (Bool-cases (text_eq j k)) [
  | inl same ↦
      (let found : some w ≡ some v = rw same at e in
        let here : w ≡ v = cc in subst IsRight here all.0)
  | inr other ↦ get-AllRight d k v all.1 (rw other at e)
]

tick_peer-IsRight :
    (frozen : Dict (Unit {0})) (stats : Dict PeerStats) (relay_forwarded : Dict (Unit {0}))
    (id : Text) (s : PeerState)
    → IsRight s
    → IsRight (tick_peer frozen stats relay_forwarded id s)
unfolding tick_peer
tick_peer-IsRight frozen stats relay_forwarded id s h = elim (Bool-cases (has frozen id)) [
  | inl cold ↦ rw cold h
  | inr warm ↦ elim (Mode-cases s.mode) [
    | inl on_direct ↦
        rw (warm, ap is_direct on_direct)
          (track-IsRight (has relay_forwarded id) (rx_of stats s) s on_direct h)
    | inr on_relay ↦ rw (warm, ap is_direct on_relay) h
  ]
]

init_peer_state-AllRight :
    (opts : InitPeerOpts) (m : Monitor)
    → AllRight m.peer_states
    → AllRight (init_peer_state opts m).peer_states
unfolding init_peer_state new_peer_state refreshed
init_peer_state-AllRight opts m all = elim (Option-cases (get m.peer_states opts.peer_id)) [
  | inl new ↦
      rw (new, init_peer_state)
        (set-AllRight m.peer_states opts.peer_id (new_peer_state opts) refl all)
  | inr (s, known) ↦
      rw (known, init_peer_state)
        (set-AllRight m.peer_states opts.peer_id (refreshed opts s)
          (get-AllRight m.peer_states opts.peer_id s all known) all)
]

set_peer_mode-AllRight :
    (id : Text) (mode : Mode) (m : Monitor)
    → AllRight m.peer_states
    → AllRight (set_peer_mode id mode m).peer_states
unfolding set_peer_mode
set_peer_mode-AllRight id mode m all = elim (Option-cases (get m.peer_states id)) [
  | inl unknown ↦ rw (unknown, set_peer_mode) all
  | inr (s, known) ↦
      rw (known, set_peer_mode)
        (set-AllRight m.peer_states id (with_mode mode s) (with_mode-IsRight mode s) all)
]

peer_states-unfreeze_all_stuck :
    (now : ℕ) (entries : Dict ℕ) (m : Monitor)
    → (unfreeze_all_stuck now entries m).peer_states ≡ m.peer_states
unfolding unfreeze_all_stuck unfreeze_if_stuck
peer_states-unfreeze_all_stuck now [] m = refl
peer_states-unfreeze_all_stuck now (e ∷ rest) m =
    peer_states-unfreeze_all_stuck now rest (unfreeze_if_stuck now e m) ∙ ground arith

peer_states-get_cached :
    (now : ℕ) (fetched : Dict PeerStats) (m : Monitor)
    → (get_cached_peer_stats now fetched m).1.peer_states ≡ m.peer_states
unfolding get_cached_peer_stats
peer_states-get_cached now fetched m = ground arith

Step-AllRight : {m n : Monitor} → Step m n → AllRight m.peer_states → AllRight n.peer_states
unfolding remove_peer_state freeze_peer unfreeze_peer clear_all_frozen unfreeze_stuck track_peers
    collect_health_reports
Step-AllRight {m} (init_peer opts) all = init_peer_state-AllRight opts m all
Step-AllRight {m} (remove_peer id) all = delete-AllRight m.peer_states id all
Step-AllRight (freeze now id) all = all
Step-AllRight (unfreeze id) all = all
Step-AllRight clear_frozen all = all
Step-AllRight {m} (switch id mode) all = set_peer_mode-AllRight id mode m all
Step-AllRight {m} (tick_begins now) all = rw (peer_states-unfreeze_all_stuck now m.frozen_at m) all
Step-AllRight {m} (tick_ends now fetched forwarded) all =
    map_states-AllRight _ _ (tick_peer-IsRight _ _ forwarded)
      (rw (peer_states-get_cached now fetched m) all)
Step-AllRight {m} (collect base now fetched ws_alive) all =
    rw (peer_states-get_cached now fetched m) all

Reached-AllRight : {m : Monitor} → Reached m → AllRight m.peer_states
unfolding empty
Reached-AllRight start = tt
Reached-AllRight (step r s) = Step-AllRight s (Reached-AllRight r)

-- In every reached state, a peer in direct mode counts as alive just if fewer than three silent ticks
-- in a row are counted for it; in relay mode it does not, and none are counted.
pub Reached-IsRight :
    {m : Monitor} (peer_id : Text) (s : PeerState)
    → Reached m
    → get m.peer_states peer_id ≡ some s
    → IsRight s
Reached-IsRight {m} peer_id s reached known =
    get-AllRight m.peer_states peer_id s (Reached-AllRight reached) known
