-- ===== src/Server/Tests/Endings.antt =====
-- Ends of negotiations, forced modes and saved reports at the states of the two peers.
use meshezia.Server.Negotiate.Timers.{set_with_timeout}
use meshezia.Server.State.{NegotiationState, send_msg}
use meshezia.Common.{
  ◌&&◌, sym, subst, filter, Text, codes, text_eq, text_lt, true, none, some, [], ◌∷◌, ◌+◌, ◌≤◌, ◌≡◌,
  refl, inl, inr, find, is_some, if◌then◌else◌,
}
use meshezia.Server.Negotiate.RelayProbe.{
  client_node_of, server_node_of, new_relay_probe, initiate_relay_probe,
}
use meshezia.Server.Negotiate.DirectProbe.{is_relay_enabled_for_peer}
use meshezia.Server.Negotiate.Keys.{pair_key, parse_pair_key}
use meshezia.Server.Negotiate.Reports.{reported, save_report_found, forced_of, save_reports_unknown}
use meshezia.Server.Negotiate.Endings.{abort_stale-fresh}
use meshezia.Server.Negotiate.Endings.Kept.{get-abort_peer_negotiations, unless_party, IsMap}
use meshezia.Server.Negotiate.Router.{abort_stale, stale_negotiation_ms, handle_negotiate_message}
use meshezia.Server.State.{is_peer_connected, initial}
use meshezia.Shared.Types.{ws_reset, force_relay, forced}
use meshezia.Server.Negotiate.Lifecycle.{
  abort_peer_negotiations, is_relay_enabled_for_network, lookup_peer,
}
use meshezia.Common.Dict.{has, delete, set, get}
use meshezia.Server.Negotiate.Forcing.{
  is_link_of, force_mode_unsaved, handle_force_mode-IsForced, IsForced,
}
use meshezia.Server.Negotiate.Force.{handle_force_mode}
use meshezia.Server.Db.{network_by_id, is_link, peer_by_id}
use meshezia.Server.Relay.{ws_text, ws_open}
use meshezia.Server.Negotiate.Health.{
  forced_mode_of, get_forced_mode_from_db, handle_health_report, save_reports,
}
use meshezia.Server.Reaper.{is_expired, reap}
use meshezia.Server.Reaper.Exact.{IsReaped, reap-IsReaped}
use meshezia.Server.Tests.{a, b, db, down, both_open, probing, key, probe}

abbrev c : Text
c = codes "c0000000-0000-4000-8000-000000000000"

probing-IsMap : IsMap probing.probes.negotiations
unfolding get ws_open ws_text initial handle_negotiate_message handle_health_report text_eq
    parse_pair_key pair_key text_lt set forced_mode_of get_forced_mode_from_db is_peer_connected
    is_relay_enabled_for_peer lookup_peer is_relay_enabled_for_network network_by_id
    initiate_relay_probe send_msg set_with_timeout delete has is_link peer_by_id new_relay_probe
    server_node_of client_node_of
probing-IsMap k n (inl e) =
    subst (λ (entry : Text × NegotiationState). get ((key, probe) ∷ []) entry.0 ≡ some entry.1)
      (sym e) refl
probing-IsMap k n (inr i) = absurd i

get-abort_peer_negotiations_example :
    get (abort_peer_negotiations c ws_reset probing).probes.negotiations key
    ≡ unless_party c (get probing.probes.negotiations key)
get-abort_peer_negotiations_example =
    get-abort_peer_negotiations c ws_reset probing key probing-IsMap

after_sweep : get (abort_stale 4000 probing).probes.negotiations key ≡ some probe
unfolding get ws_open ws_text initial handle_negotiate_message handle_health_report text_eq
    parse_pair_key pair_key text_lt set forced_mode_of get_forced_mode_from_db is_peer_connected
    is_relay_enabled_for_peer lookup_peer is_relay_enabled_for_network network_by_id
    initiate_relay_probe send_msg set_with_timeout delete has is_link peer_by_id new_relay_probe
    server_node_of client_node_of abort_stale
after_sweep = refl

abort_stale-fresh_example :
    (get probing.probes.negotiations key ≡ some probe)
    × (4000 ≤ probe.started_at + stale_negotiation_ms)
abort_stale-fresh_example = abort_stale-fresh 4000 probing key probe after_sweep

handle_force_mode-IsForced_example :
    IsForced a b (forced force_relay) probing (handle_force_mode a b (forced force_relay) probing)
handle_force_mode-IsForced_example = handle_force_mode-IsForced a b (forced force_relay) probing

no_links : find (is_link_of a b) both_open.db.peer_links ≡ none
unfolding ws_open initial
no_links = refl

force_mode_unsaved_example :
    ((handle_force_mode a b (forced force_relay) both_open).db.peer_links ≡ both_open.db.peer_links)
    × (get_forced_mode_from_db (handle_force_mode a b (forced force_relay) both_open).db a b ≡ none)
force_mode_unsaved_example = force_mode_unsaved a b (forced force_relay) both_open no_links

unknown_c : peer_by_id db c ≡ none
unfolding peer_by_id text_eq
unknown_c = refl

save_reports_unknown_example : save_reports 7 a (down b ∷ down c ∷ []) db ≡ db
save_reports_unknown_example =
    save_reports_unknown 7 a (down b ∷ down c ∷ []) db (down c) (inr (inl refl)) unknown_c

known_a : is_some (peer_by_id db a) ≡ true
unfolding peer_by_id text_eq
known_a = refl

known_b : is_some (peer_by_id db b) ≡ true
unfolding peer_by_id text_eq
known_b = refl

save_report_found_example : find (is_link a b) (save_reports 7 a (down b ∷ []) db).peer_links ≡ (
    if text_eq a a && text_eq b b
    then some (reported 7 a (down b) (forced_of (find (is_link a b) db.peer_links)))
    else find (is_link a b) db.peer_links)
save_report_found_example = save_report_found 7 a (down b) db a b known_a known_b

-- Both peers have been silent for longer than their TTL of a minute.
reap-IsReaped_example :
    IsReaped (filter (is_expired 70000) probing.db.peers) probing (reap 70000 true probing)
reap-IsReaped_example = reap-IsReaped 70000 probing
