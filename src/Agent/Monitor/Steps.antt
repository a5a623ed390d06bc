-- ===== src/Agent/Monitor/Steps.antt =====
-- The monitor as a step relation: the operations in any order. `tick` waits in its middle, so that
-- its two parts are two steps, between which others may come.
use meshezia.Common.{ℕ, Text, Bool}
use meshezia.Common.Dict.{Dict}
use meshezia.Shared.Types.{Mode}
use meshezia.Agent.Monitor.{
  PeerStats, Monitor, InitPeerOpts, empty, init_peer_state, remove_peer_state, freeze_peer,
  unfreeze_peer, clear_all_frozen, set_peer_mode, unfreeze_stuck, track_peers,
}
use meshezia.Agent.Monitor.Reports.{collect_health_reports}

pub data Step (m : Monitor) : Monitor → Type 0 where
  init_peer : (opts : InitPeerOpts) → Step m (init_peer_state opts m)
  remove_peer : (peer_id : Text) → Step m (remove_peer_state peer_id m)
  freeze : (now : ℕ) (peer_id : Text) → Step m (freeze_peer now peer_id m)
  unfreeze : (peer_id : Text) → Step m (unfreeze_peer peer_id m)
  clear_frozen : Step m (clear_all_frozen m)
  switch : (peer_id : Text) (mode : Mode) → Step m (set_peer_mode peer_id mode m)
  tick_begins : (now : ℕ) → Step m (unfreeze_stuck now m)
  tick_ends :
      (now : ℕ) (fetched : Dict PeerStats) (relay_forwarded : Dict (Unit {0}))
      → Step m (track_peers now fetched relay_forwarded m)
  collect :
      (base now : ℕ) (fetched : Dict PeerStats) (ws_alive : Bool)
      → Step m (collect_health_reports base now fetched ws_alive m).1

-- What the monitor may be after its start.
pub data Reached : Monitor → Type 0 where
  start : Reached empty
  step : {m n : Monitor} → Reached m → Step m n → Reached n
