-- ===== src/Server/Negotiate/Force.antt =====
-- "Admin Force Mode" of negotiate.ts.
use meshezia.Common.{ℕ, Text, ◌||◌, Option, none, some, map, if◌then◌else◌}
use meshezia.Common.Dict.{get}
use meshezia.Shared.Types.{negotiate_abort, admin_force, force_mode, ForceMode, forced, auto}
use meshezia.Server.Db.{Db, is_link}
use meshezia.Server.State.{PairHealth, Server, send_msg}
use meshezia.Server.Negotiate.Keys.{pair_key}
use meshezia.Server.Negotiate.Lifecycle.{get_or_create_health, put_health, finish_negotiation}
use meshezia.Server.Negotiate.RelayProbe.{reset_streaks}
use meshezia.Server.Negotiate.Health.{forced_text}

-- NULL for 'auto'.
unfoldable pub forced_value : ForceMode → Option Text
forced_value (forced mode) = some (forced_text mode)
forced_value auto = none

-- UPDATE peer_links SET forced_mode = … WHERE the row is of either direction of the pair
unfoldable pub set_forced_mode : Text → Text → Option Text → Db → Db
unfolding is_link
set_forced_mode peer_a peer_b value db = record db {
  peer_links =
      map
        (λ l.
          if is_link peer_a peer_b l || is_link peer_b peer_a l
          then record l { forced_mode = value }
          else l)
        db.peer_links;
}

unfoldable pub force_health : ℕ → ForceMode → PairHealth → PairHealth
unfolding reset_streaks
force_health init (forced mode) h = record (reset_streaks h) { forced_mode = some mode }
force_health init auto h = record (reset_streaks h) {
  forced_mode = none;
  direct_probe_backoff = init;
}

-- The negotiation of the pair, if there is one, is aborted whether or not the peers are connected.
unfoldable pub abort_for_force : Text → Server → Server
unfolding finish_negotiation
abort_for_force key s = elim (get s.probes.negotiations key) [
  | none ↦ s
  | some neg ↦ finish_negotiation key (
      send_msg (send_msg s neg.peer_a (negotiate_abort neg.peer_b admin_force)) neg.peer_b
        (negotiate_abort neg.peer_a admin_force))
]

unfoldable pub handle_force_mode : Text → Text → ForceMode → Server → Server
unfolding forced_value set_forced_mode force_health abort_for_force get_or_create_health put_health
handle_force_mode peer_a peer_b mode s =
    let key = pair_key peer_a peer_b in
    let aborted = abort_for_force key s in
    let health = get_or_create_health aborted key in
    let noted =
      put_health
        (record aborted { db = set_forced_mode peer_a peer_b (forced_value mode) aborted.db }) key
        (force_health aborted.settings.direct_probe_backoff_init_ms mode health) in
    send_msg (send_msg noted peer_a (force_mode peer_b mode)) peer_b (force_mode peer_a mode)
