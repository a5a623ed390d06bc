-- ===== src/Agent/Monitor/Frozen.antt =====
-- No peer stays frozen.
use meshezia.Common.{
  ℕ, ◌+◌, ◌≤◌, Text, text_eq, text_eq_iff, true, false, none, some, [], ◌∷◌, ◌≡◌, refl, arith, ltb,
  In, inl, inr, Option-cases, if◌then◌else◌, is_some,
}
use meshezia.Common.Dict.{Dict, get, has, get-set, get-delete, In-get}
use meshezia.Agent.Monitor.{
  PeerStats, Monitor, empty, init_peer_state, remove_peer_state, freeze_peer, unfreeze_peer,
  clear_all_frozen, is_frozen, set_peer_mode, unfreeze_stuck, track_peers, get_cached_peer_stats,
  frozen_timeout_ms, unfreeze_if_stuck, unfreeze_all_stuck,
}
use meshezia.Shared.Types.{Mode}
use meshezia.Agent.Monitor.Reports.{collect_health_reports}
use meshezia.Agent.Monitor.Steps.{
  Step, Reached, start, step, init_peer, remove_peer, freeze, unfreeze, clear_frozen, switch,
  tick_begins, tick_ends, collect,
}

-- A peer is frozen just if the time at which it was is known.
abbrev pub IsTimed : Monitor → Type 0
IsTimed m = (id : Text) → is_some (get m.frozen_peers id) ≡ is_some (get m.frozen_at id)

unfreeze_if_stuck_lem :
    (now : ℕ) (key : Text) (ts : ℕ) (m : Monitor) (id : Text)
    → get (unfreeze_if_stuck now (key, ts) m).frozen_at id ≡ (
        if ltb (ts + frozen_timeout_ms) now
        then (if text_eq key id then none else get m.frozen_at id)
        else get m.frozen_at id)
unfolding unfreeze_if_stuck
unfreeze_if_stuck_lem now key ts m id = ground (arith, get-delete m.frozen_at key id)

unfreeze_peer-IsTimed : (key : Text) (m : Monitor) → IsTimed m → IsTimed (unfreeze_peer key m)
unfolding unfreeze_peer
unfreeze_peer-IsTimed key m v id =
    ground (arith, v id, get-delete m.frozen_at key id, get-delete m.frozen_peers key id)

unfreeze_if_stuck-IsTimed :
    (now : ℕ) (key : Text) (ts : ℕ) (m : Monitor)
    → IsTimed m
    → IsTimed (unfreeze_if_stuck now (key, ts) m)
unfolding unfreeze_if_stuck
unfreeze_if_stuck-IsTimed now key ts m v id = ground (arith, v id, unfreeze_peer-IsTimed key m v id)

unfreeze_all_stuck-IsTimed :
    (now : ℕ) (entries : Dict ℕ) (m : Monitor)
    → IsTimed m
    → IsTimed (unfreeze_all_stuck now entries m)
unfolding unfreeze_all_stuck
unfreeze_all_stuck-IsTimed now [] m v = v
unfreeze_all_stuck-IsTimed now ((key, ts) ∷ rest) m v =
    unfreeze_all_stuck-IsTimed now rest (unfreeze_if_stuck now (key, ts) m)
      (unfreeze_if_stuck-IsTimed now key ts m v)

frozen-get_cached :
    (now : ℕ) (fetched : Dict PeerStats) (m : Monitor)
    → ((get_cached_peer_stats now fetched m).1.frozen_peers ≡ m.frozen_peers)
      × ((get_cached_peer_stats now fetched m).1.frozen_at ≡ m.frozen_at)
unfolding get_cached_peer_stats
frozen-get_cached now fetched m = ground arith

get_cached-IsTimed :
    (now : ℕ) (fetched : Dict PeerStats) (m : Monitor)
    → IsTimed m
    → IsTimed (get_cached_peer_stats now fetched m).1
get_cached-IsTimed now fetched m v id =
    let (p, q) = frozen-get_cached now fetched m in rw (p, q) (v id)

set_peer_mode-IsTimed :
    (id : Text) (mode : Mode) (m : Monitor) → IsTimed m → IsTimed (set_peer_mode id mode m)
unfolding set_peer_mode
set_peer_mode-IsTimed id mode m v j = ground (arith, v j)

freeze_peer-IsTimed :
    (now : ℕ) (key : Text) (m : Monitor) → IsTimed m → IsTimed (freeze_peer now key m)
unfolding freeze_peer
freeze_peer-IsTimed now key m v id =
    ground (arith, v id, get-set m.frozen_at key id now, get-set m.frozen_peers key id tt)

Step-IsTimed : {m n : Monitor} → Step m n → IsTimed m → IsTimed n
unfolding init_peer_state remove_peer_state clear_all_frozen unfreeze_stuck track_peers
    collect_health_reports get
Step-IsTimed (init_peer opts) v = v
Step-IsTimed {m} (remove_peer key) v = unfreeze_peer-IsTimed key m v
Step-IsTimed {m} (freeze now key) v = freeze_peer-IsTimed now key m v
Step-IsTimed {m} (unfreeze key) v = unfreeze_peer-IsTimed key m v
Step-IsTimed clear_frozen v = λ id. refl
Step-IsTimed {m} (switch key mode) v = set_peer_mode-IsTimed key mode m v
Step-IsTimed {m} (tick_begins now) v = unfreeze_all_stuck-IsTimed now m.frozen_at m v
Step-IsTimed {m} (tick_ends now fetched forwarded) v = get_cached-IsTimed now fetched m v
Step-IsTimed {m} (collect base now fetched ws_alive) v = get_cached-IsTimed now fetched m v

Reached-IsTimed : {m : Monitor} → Reached m → IsTimed m
unfolding empty get
Reached-IsTimed start = λ id. refl
Reached-IsTimed (step r s) = Step-IsTimed s (Reached-IsTimed r)

only_fewer :
    (now : ℕ) (entries : Dict ℕ) (m : Monitor) (id : Text) (t : ℕ)
    → get (unfreeze_all_stuck now entries m).frozen_at id ≡ some t
    → get m.frozen_at id ≡ some t
unfolding unfreeze_all_stuck
only_fewer now [] m id t e = e
only_fewer now ((key, ts) ∷ rest) m id t e = ground (
  arith,
  unfreeze_if_stuck_lem now key ts m id,
  only_fewer now rest (unfreeze_if_stuck now (key, ts) m) id t e,
)

unfreeze_all_stuck_young :
    (now : ℕ) (entries : Dict ℕ) (m : Monitor) (id : Text) (ts t : ℕ)
    → In (id, ts) entries
    → get (unfreeze_all_stuck now entries m).frozen_at id ≡ some t
    → ltb (ts + frozen_timeout_ms) now ≡ false
unfolding unfreeze_all_stuck
unfreeze_all_stuck_young now [] m id ts t i e = absurd i
unfreeze_all_stuck_young now ((key, at) ∷ rest) m id ts t (inl same) e = ground (
  arith,
  unfreeze_if_stuck_lem now key at m id,
  text_eq_iff key id,
  only_fewer now rest (unfreeze_if_stuck now (key, at) m) id t e,
)
unfreeze_all_stuck_young now ((key, at) ∷ rest) m id ts t (inr i) e =
    unfreeze_all_stuck_young now rest (unfreeze_if_stuck now (key, at) m) id ts t i e

-- Whatever the monitor has gone through, a peer that is still frozen after the first part of a tick
-- was frozen at a known time, at most 30 seconds before the tick.
pub unfreeze_stuck-young :
    (now : ℕ) (m : Monitor) (peer_id : Text)
    → Reached m
    → is_frozen (unfreeze_stuck now m) peer_id ≡ true
    → ((ts : ℕ) × (get m.frozen_at peer_id ≡ some ts) × (now ≤ ts + frozen_timeout_ms))
unfolding is_frozen unfreeze_stuck has
unfreeze_stuck-young now m peer_id reached frozen =
    let timed = unfreeze_all_stuck-IsTimed now m.frozen_at m (Reached-IsTimed reached) peer_id in
    elim (Option-cases (get (unfreeze_all_stuck now m.frozen_at m).frozen_at peer_id)) [
      | inl gone ↦ absurd (ground arith)
      | inr (ts, left) ↦
          let before = only_fewer now m.frozen_at m peer_id ts left in
          let young =
            unfreeze_all_stuck_young now m.frozen_at m peer_id ts ts
              (In-get m.frozen_at peer_id ts before) left in
          (ts, before, ground arith)
    ]
