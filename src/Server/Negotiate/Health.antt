-- ===== src/Server/Negotiate/Health.antt =====
-- "Health Report Handling" of negotiate.ts.
use meshezia.Common.{
  ℕ, suc, ◌+◌, Text, codes, text_eq, Bool, true, false, ◌&&◌, ◌||◌, not, Option, none, some, List,
  [], ◌∷◌, ltb, leb, ◌==◌, find, is_some, if◌then◌else◌,
}
use meshezia.Common.Dict.{has}
use meshezia.Shared.Types.{HealthReport, Mode, direct, relay, ForcedMode, force_direct, force_relay}
use meshezia.Server.Db.{Db, LinkRow, is_link, peer_by_id}
use meshezia.Server.State.{PairHealth, Server, is_peer_connected}
use meshezia.Server.Negotiate.Keys.{pair_key, parse_pair_key}
use meshezia.Server.Negotiate.Lifecycle.{get_or_create_health, put_health}
use meshezia.Server.Negotiate.RelayProbe.{initiate_relay_probe}
use meshezia.Server.Negotiate.DirectProbe.{mode_text, is_relay_enabled_for_peer}

abbrev pub streak_threshold : ℕ
streak_threshold = 3

-- `b ? 1 : 0`
abbrev pub bit : Bool → ℕ
bit true = 1
bit false = 0

-- The row that a report inserts; `forced_mode` is not among its columns.
unfoldable pub link_of_report : ℕ → Text → HealthReport → LinkRow
unfolding mode_text
link_of_report now from_peer_id report = record {
  from_peer_id = from_peer_id;
  to_peer_id = report.peer_id;
  mode = mode_text report.mode;
  direct_alive = bit report.rx_alive;
  relay_alive = bit report.relay_alive;
  probing_direct = bit report.probing_direct;
  rx_bytes = report.rx_bytes;
  tx_bytes = report.tx_bytes;
  last_handshake = report.last_handshake;
  endpoint = report.endpoint;
  if_name = report.if_name;
  routing_table = report.routing_table;
  updated_at = now;
  forced_mode = none;
}

-- ON CONFLICT: every column but the keys and `forced_mode` is taken from the new row.
unfoldable pub put_link : LinkRow → List LinkRow → List LinkRow
put_link new [] = new ∷ []
put_link new (l ∷ ls) =
    let rest = put_link new ls in
    if is_link new.from_peer_id new.to_peer_id l
    then record new { forced_mode = l.forced_mode } ∷ ls
    else l ∷ rest

-- One upsert; `none` is a violated foreign key, which makes the statement throw.
unfoldable pub upsert_link : Db → LinkRow → Option Db
unfolding put_link peer_by_id is_link
upsert_link db new =
    if is_some (peer_by_id db new.from_peer_id) && is_some (peer_by_id db new.to_peer_id)
    then some (record db { peer_links = put_link new db.peer_links })
    else none

unfoldable pub upsert_reports : ℕ → Text → List HealthReport → Db → Option Db
unfolding upsert_link link_of_report
upsert_reports now from_peer_id [] db = some db
upsert_reports now from_peer_id (report ∷ reports) db =
    elim (upsert_link db (link_of_report now from_peer_id report)) [
      | none ↦ none
      | some db' ↦ upsert_reports now from_peer_id reports db'
    ]

-- The transaction: an error rolls all of it back, and is only logged.
unfoldable pub save_reports : ℕ → Text → List HealthReport → Db → Db
unfolding upsert_reports
save_reports now from_peer_id reports db = elim (upsert_reports now from_peer_id reports db) [
  | none ↦ db
  | some db' ↦ db'
]

-- The text of a forced mode in the database.
unfoldable pub forced_text : ForcedMode → Text
forced_text force_direct = codes "force-direct"
forced_text force_relay = codes "force-relay"

-- `val && VALID_FORCED_MODES.has(val) ? val : null`
parse_forced_mode : Option Text → Option ForcedMode
unfolding forced_text
parse_forced_mode none = none
parse_forced_mode (some val) =
    if text_eq val (forced_text force_direct)
    then some force_direct
    else if text_eq val (forced_text force_relay)
    then some force_relay
    else none

-- The first row of either direction counts (`LIMIT 1`).
unfoldable pub get_forced_mode_from_db : Db → Text → Text → Option ForcedMode
unfolding parse_forced_mode is_link
get_forced_mode_from_db db peer_a peer_b =
    elim (find (λ l. is_link peer_a peer_b l || is_link peer_b peer_a l) db.peer_links) [
      | none ↦ none
      | some row ↦ parse_forced_mode row.forced_mode
    ]

-- `health.forcedMode ?? getForcedModeFromDb(peerA, peerB)`
unfoldable pub forced_mode_of : Text → Text → PairHealth → Db → Option ForcedMode
forced_mode_of peer_a peer_b health db = elim health.forced_mode [
  | none ↦ get_forced_mode_from_db db peer_a peer_b
  | some mode ↦ some mode
]

-- Does the pair have to be probed? Its health comes back with `forcedMode` synced.
unfoldable pub should_initiate_relay_probe :
    Text → Text → Text → PairHealth → Server → Bool × PairHealth
unfolding has
should_initiate_relay_probe peer_a peer_b key health s =
    if has s.probes.negotiations key
    then (false, health)
    else elim (forced_mode_of peer_a peer_b health s.db) [
      | some mode ↦ (false, record health { forced_mode = some mode })
      | none ↦ (
        is_peer_connected s peer_a
            && is_peer_connected s peer_b
            && is_relay_enabled_for_peer s peer_a,
        health,
      )
    ]

-- `if (x === undefined) x = now`
abbrev pub or_now : Option ℕ → ℕ → Option ℕ
or_now none now = some now
or_now (some t) now = some t

unfoldable pub record_join : Bool → ℕ → PairHealth → PairHealth
record_join is_from_a now h = record h {
  joined_at_a = if is_from_a then or_now h.joined_at_a now else h.joined_at_a;
  joined_at_b = if is_from_a then h.joined_at_b else or_now h.joined_at_b now;
}

abbrev pub joined_at : Bool → PairHealth → Option ℕ
joined_at is_from_a h = if is_from_a then h.joined_at_a else h.joined_at_b

-- `joinedAt && now - joinedAt < GRACE_PERIOD_MS`: a time of 0 is no time.
abbrev pub in_grace : Option ℕ → ℕ → ℕ → Bool
in_grace none now grace = false
in_grace (some t) now grace = not (t == 0) && ltb now (t + grace)

abbrev pub is_relay : Mode → Bool
is_relay direct = false
is_relay relay = true

-- The streak of the side that reports: back to 0 if it is alive, one more if not.
unfoldable pub update_streak : Bool → Bool → PairHealth → PairHealth
update_streak is_from_a rx_alive h = record h {
  streak_ab = if is_from_a then (if rx_alive then 0 else suc h.streak_ab) else h.streak_ab;
  streak_ba = if is_from_a then h.streak_ba else (if rx_alive then 0 else suc h.streak_ba);
}

-- The pair's health after the report, before a probe is considered.
unfoldable pub health_after : ℕ → Bool → HealthReport → ℕ → PairHealth → PairHealth
unfolding record_join update_streak
health_after now is_from_a report grace h =
    let joined = record_join is_from_a now h in
    if in_grace (joined_at is_from_a joined) now grace || is_relay report.mode
    then joined
    else update_streak is_from_a report.rx_alive joined

-- Does the loop get past both `continue`s and find both streaks long enough?
unfoldable pub reaches_threshold : ℕ → Bool → HealthReport → ℕ → PairHealth → Bool
unfolding health_after
reaches_threshold now is_from_a report grace h =
    let joined = record_join is_from_a now h in
    let after = health_after now is_from_a report grace h in
    not (in_grace (joined_at is_from_a joined) now grace || is_relay report.mode)
    && leb streak_threshold after.streak_ab
    && leb streak_threshold after.streak_ba

-- The end of a round: the probe, if it has to be made.
unfoldable pub consider_relay_probe : ℕ → Text → Text → Text → PairHealth → Server → Server
unfolding put_health should_initiate_relay_probe
consider_relay_probe now from_peer_id peer_id key health s =
    let (initiate, synced) = should_initiate_relay_probe from_peer_id peer_id key health s in
    let noted = put_health s key synced in
    if initiate then initiate_relay_probe now key synced noted else noted

-- One round of the loop over the reports.
unfoldable pub process_report : ℕ → Text → HealthReport → Server → Server
unfolding get_or_create_health health_after reaches_threshold put_health consider_relay_probe
process_report now from_peer_id report s =
    let key = pair_key from_peer_id report.peer_id in
    let health = get_or_create_health s key in
    let is_from_a = text_eq from_peer_id (parse_pair_key key).0 in
    let grace = s.settings.grace_period_ms in
    let after = health_after now is_from_a report grace health in
    let noted = put_health s key after in
    if reaches_threshold now is_from_a report grace health
    then consider_relay_probe now from_peer_id report.peer_id key after noted
    else noted

unfoldable pub process_reports : ℕ → Text → List HealthReport → Server → Server
unfolding process_report
process_reports now from_peer_id [] s = s
process_reports now from_peer_id (report ∷ reports) s =
    process_reports now from_peer_id reports (process_report now from_peer_id report s)

unfoldable pub handle_health_report : ℕ → Text → List HealthReport → Server → Server
unfolding save_reports process_reports
handle_health_report now from_peer_id reports s =
    process_reports now from_peer_id reports
      (record s { db = save_reports now from_peer_id reports s.db })
