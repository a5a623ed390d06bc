-- ===== src/Server/Negotiate/Forcing.antt =====
-- The administrator's forced modes.
use meshezia.Server.Negotiate.Health.{forced_text, get_forced_mode_from_db}
use meshezia.Server.Negotiate.Lifecycle.{get_or_create_health, put_health}
use meshezia.Server.Negotiate.RelayProbe.{reset_streaks}
use meshezia.Server.Negotiate.Lifecycle.Laws.{get-finish}
use meshezia.Server.Negotiate.Keys.{pair_key}
use meshezia.Server.State.{PairHealth, Server, send_msg}
use meshezia.Server.Negotiate.Force.{
  set_forced_mode, force_health, handle_force_mode, forced_value, abort_for_force,
}
use meshezia.Shared.Types.{force_relay, force_direct, auto, forced, ForcedMode, ForceMode}
use meshezia.Server.Db.{is_link, LinkRow}
use meshezia.Common.{
  subst, codes, ◌∙◌, ℕ, Text, text_eq, text_eq_iff, Bool, true, ◌||◌, Option, none, some, List, [],
  ◌∷◌, ◌≡◌, refl, arith, inl, inr, Option-cases, if◌then◌else◌, All, find, map,
}
use meshezia.Common.Dict.{get, get-set}

-- The mode that a pair's health keeps.
abbrev pub mode_option : ForceMode → Option ForcedMode
mode_option (forced mode) = some mode
mode_option auto = none

-- What the database keeps of the mode.
abbrev pub mode_column : ForceMode → Option Text
mode_column (forced force_direct) = some (codes "force-direct")
mode_column (forced force_relay) = some (codes "force-relay")
mode_column auto = none

forced_value_lem : (mode : ForceMode) → forced_value mode ≡ mode_column mode
unfolding forced_value forced_text
forced_value_lem (forced force_direct) = refl
forced_value_lem (forced force_relay) = refl
forced_value_lem auto = refl

-- Is the row of either direction of the pair?
abbrev pub is_link_of : Text → Text → LinkRow → Bool
is_link_of a b l = is_link a b l || is_link b a l

abort_for_force_lem :
    (key : Text) (s : Server) (j : Text)
    → get (abort_for_force key s).probes.negotiations j
      ≡ (if text_eq key j then none else get s.probes.negotiations j)
unfolding abort_for_force send_msg
abort_for_force_lem key s j = elim (Option-cases (get s.probes.negotiations key)) [
  | inl e ↦ rw (e, abort_for_force) (ground (arith, text_eq_iff key j))
  | inr (neg, e) ↦ rw (e, abort_for_force) (get-finish key j s.probes)
]

pair_health-abort_for_force :
    (key : Text) (s : Server) → (abort_for_force key s).pair_health ≡ s.pair_health
unfolding abort_for_force send_msg
pair_health-abort_for_force key s = ground arith

db-abort_for_force : (key : Text) (s : Server) → (abort_for_force key s).db ≡ s.db
unfolding abort_for_force send_msg
db-abort_for_force key s = ground arith

links_forced :
    (a b : Text) (value : Option Text) (links : List LinkRow)
    → All
        (λ l. is_link_of a b l ≡ true → l.forced_mode ≡ value)
        (map (λ l. if is_link_of a b l then record l { forced_mode = value } else l) links)
unfolding is_link
links_forced a b value [] = tt
links_forced a b value (l ∷ ls) = (ground arith, links_forced a b value ls)

pub record IsForced (a b : Text) (mode : ForceMode) (s t : Server) : Type 0 where
  pub ended :
      (j : Text)
      → get t.probes.negotiations j
        ≡ (if text_eq (pair_key a b) j then none else get s.probes.negotiations j)
  pub health : PairHealth
  pub kept :
      (j : Text)
      → get t.pair_health j
        ≡ (if text_eq (pair_key a b) j then some health else get s.pair_health j)
  pub mode_kept : health.forced_mode ≡ mode_option mode
  pub no_streaks : (health.streak_ab ≡ 0) × (health.streak_ba ≡ 0)
  pub saved : All (λ l. is_link_of a b l ≡ true → l.forced_mode ≡ mode_column mode) t.db.peer_links

force_health_lem :
    (init : ℕ) (mode : ForceMode) (h : PairHealth)
    → ((force_health init mode h).forced_mode ≡ mode_option mode)
      × ((force_health init mode h).streak_ab ≡ 0)
      × ((force_health init mode h).streak_ba ≡ 0)
unfolding force_health reset_streaks
force_health_lem init (forced mode) h = (refl, refl, refl)
force_health_lem init auto h = (refl, refl, refl)

-- After a mode is forced, the pair has no negotiation and every other negotiation goes on; the
-- pair's health holds the mode (none for `auto`) with both streaks at 0, and no other health
-- changes; and every saved link of the pair, in either direction, has the text `force-direct` or
-- `force-relay` of the mode, or no mode for `auto`.
pub handle_force_mode-IsForced :
    (a b : Text) (mode : ForceMode) (s : Server)
    → IsForced a b mode s (handle_force_mode a b mode s)
unfolding handle_force_mode send_msg put_health set_forced_mode
handle_force_mode-IsForced a b mode s =
    let key = pair_key a b in
    let aborted = abort_for_force key s in
    let changed =
      force_health aborted.settings.direct_probe_backoff_init_ms mode
        (get_or_create_health aborted key) in
    let (mode_kept, ab, ba) =
      force_health_lem aborted.settings.direct_probe_backoff_init_ms mode
        (get_or_create_health aborted key) in
    record {
      ended = λ j. abort_for_force_lem key s j;
      health = changed;
      kept =
          λ j. get-set aborted.pair_health key j changed ∙ rw (pair_health-abort_for_force key s);
      mode_kept = mode_kept;
      no_streaks = (ab, ba);
      saved =
          subst
            (λ value.
              All (λ l. is_link_of a b l ≡ true → l.forced_mode ≡ value)
                (map
                  (λ l.
                    if is_link_of a b l then record l { forced_mode = forced_value mode } else l)
                  aborted.db.peer_links))
            (forced_value_lem mode) (links_forced a b (forced_value mode) aborted.db.peer_links);
    }

links_same :
    (a b : Text) (value : Option Text) (links : List LinkRow)
    → find (is_link_of a b) links ≡ none
    → map (λ l. if is_link_of a b l then record l { forced_mode = value } else l) links ≡ links
links_same a b value [] e = refl
links_same a b value (l ∷ ls) e = ground (arith, links_same a b value ls)

-- Forcing a mode on a pair for which no link is saved leaves all saved links as they are, so the
-- mode is in memory alone: read from the database, as after a restart, the pair has no forced mode.
pub force_mode_unsaved :
    (a b : Text) (mode : ForceMode) (s : Server)
    → find (is_link_of a b) s.db.peer_links ≡ none
    → ((handle_force_mode a b mode s).db.peer_links ≡ s.db.peer_links)
      × (get_forced_mode_from_db (handle_force_mode a b mode s).db a b ≡ none)
unfolding handle_force_mode send_msg put_health set_forced_mode get_forced_mode_from_db
force_mode_unsaved a b mode s e =
    let same = links_same a b (forced_value mode) s.db.peer_links e in
    rw (db-abort_for_force (pair_key a b) s) (same, rw same (rw (e, get_forced_mode_from_db)))
