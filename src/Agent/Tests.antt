-- ===== src/Agent/Tests.antt =====
-- The monitor at a peer that falls silent, and at one that is frozen.
mod Interfaces
pub mod Probes
pub mod Polls
use meshezia.Common.{
  ◌++◌, ℕ, ◌+◌, ◌≤◌, Text, codes, text_eq, Bool, true, false, Option, none, some, List, [], ◌∷◌,
  ◌≡◌, refl, if◌then◌else◌,
}
use meshezia.Common.Dict.{Dict, get, set, has, delete}
use meshezia.Shared.Types.{direct}
use meshezia.Agent.Monitor.{
  PeerState, PeerStats, Monitor, InitPeerOpts, empty, init_peer_state, freeze_peer, track_peers,
  new_peer_state, unfreeze_stuck, is_frozen, frozen_timeout_ms, get_cached_peer_stats,
  unfreeze_all_stuck, unfreeze_if_stuck, tick_peer, map_states, track, rx_of, stats_key,
}
use meshezia.Agent.Monitor.Steps.{Reached, start, step, init_peer, tick_ends, freeze}
use meshezia.Agent.Monitor.Ticks.{track_peers-IsTicked, IsTicked, received}
use meshezia.Agent.Monitor.Frozen.{unfreeze_stuck-young}
use meshezia.Agent.Monitor.Reports.{
  report_on, collect_health_reports, report_for, collect_health_reports-report_on,
}

abbrev p : Text
p = codes "p"

abbrev opts : InitPeerOpts
opts = record {
  peer_id = p;
  if_name = codes "mza0";
  pubkey = codes "k";
  peer_ipv4 = codes "10.100.0.2";
  endpoint = codes "192.0.2.1:51820";
  relay_port = 40000;
}

-- Four ticks, a second apart, none of which sees a byte.
abbrev silent : Monitor
silent = track_peers 4000 [] [] (
    track_peers 3000 [] []
      (track_peers 2000 [] [] (track_peers 1000 [] [] (init_peer_state opts empty))))

abbrev silent_reached : Reached silent
silent_reached =
    step
      (step
        (step (step (step start (init_peer opts)) (tick_ends 1000 [] [])) (tick_ends 2000 [] []))
        (tick_ends 3000 [] []))
      (tick_ends 4000 [] [])

abbrev dead : PeerState
dead = record {
  if_name = codes "mza0";
  pubkey = codes "k";
  peer_ipv4 = codes "10.100.0.2";
  direct_endpoint = codes "192.0.2.1:51820";
  relay_port = 40000;
  mode = direct;
  rx_alive = false;
  last_rx_bytes = some 0;
  direct_missed = 3;
}

silent_dead : get silent.peer_states p ≡ some dead
unfolding get set has text_eq init_peer_state empty track_peers get_cached_peer_stats
silent_dead = refl

-- A fifth tick, which sees 70 bytes on the tunnel, all of them straight from the peer.
abbrev grown : Dict PeerStats
grown =
    (
      codes "mza0" ++ 9 ∷ codes "k",
      record {
        if_name = codes "mza0";
        pubkey = codes "k";
        rx_bytes = 70;
        tx_bytes = 0;
        latest_handshake = 0;
        endpoint = [];
      },
    )
    ∷ []

p_warm : is_frozen silent p ≡ false
unfolding get set has text_eq init_peer_state empty track_peers get_cached_peer_stats is_frozen
p_warm = refl

track_peers-IsTicked_example :
    (t : PeerState) × (get (track_peers 9000 grown [] silent).peer_states p ≡ some t)
    × IsTicked
        (has {V = Unit {0}} [] p)
        (received (get_cached_peer_stats 9000 grown silent).0 dead)
        dead
        t
track_peers-IsTicked_example =
    track_peers-IsTicked 9000 grown [] p dead silent_reached silent_dead refl p_warm

abbrev frozen : Monitor
frozen = freeze_peer 5000 p silent

still_frozen : is_frozen (unfreeze_stuck 34000 frozen) p ≡ true
unfolding get set has text_eq init_peer_state empty track_peers get_cached_peer_stats unfreeze_stuck
    freeze_peer is_frozen
still_frozen = refl

unfreeze_stuck-young_example :
    (ts : ℕ) × (get frozen.frozen_at p ≡ some ts) × (34000 ≤ ts + frozen_timeout_ms)
unfreeze_stuck-young_example =
    unfreeze_stuck-young 34000 frozen p (step silent_reached (freeze 5000 p)) still_frozen

collect_health_reports-report_on_example :
    report_on p (collect_health_reports 4200 6000 [] true silent).0 ≡ (
      if is_frozen silent p
      then none
      else report_for 4200 true
          (get_cached_peer_stats 6000 [] silent).0
          p
          (get silent.peer_states p))
collect_health_reports-report_on_example =
    collect_health_reports-report_on 4200 6000 [] true silent p

late_unfrozen : is_frozen (unfreeze_stuck 35001 frozen) p ≡ false
unfolding get set has delete text_eq init_peer_state empty track_peers get_cached_peer_stats
    unfreeze_stuck freeze_peer is_frozen
late_unfrozen = refl
