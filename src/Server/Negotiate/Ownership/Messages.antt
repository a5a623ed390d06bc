-- ===== src/Server/Negotiate/Ownership/Messages.antt =====
-- Every message, the sweep and a forced mode keep timers and negotiations together.
use meshezia.Server.Negotiate.Ownership.{
  abort_negotiation-IsOwned, IsOwned-if, handle_probe_relay_ready-IsOwned,
  handle_probe_relay_result-IsOwned, check_pairs-IsOwned,
}
use meshezia.Server.Negotiate.Ownership.Replies.{
  handle_probe_direct_ready-IsOwned, handle_probe_direct_result-IsOwned, handle_probe_error-IsOwned,
}
use meshezia.Common.{ℕ, ◌+◌, Text, List, [], ◌∷◌, refl, inl, inr, arith, Option-cases, ltb}
use meshezia.Common.Dict.{Dict, get}
use meshezia.Shared.Types.{
  HealthReport, ForceMode, NegotiateMessage, health_report, probe_relay_ready, probe_relay_result,
  probe_direct_ready, probe_direct_result, probe_error, timeout,
}
use meshezia.Server.State.{PairHealth, NegotiationState, relay_timeout, Server, send_msg}
use meshezia.Server.Negotiate.Keys.{pair_key}
use meshezia.Server.Negotiate.Timers.Ownership.{IsOwned, set_with_timeout-IsOwned, finish-IsOwned}
use meshezia.Server.Negotiate.Lifecycle.{cleanup_peer_health}
use meshezia.Server.Negotiate.RelayProbe.{
  initiate_relay_probe, relay_probe_timeout_ms, new_relay_probe,
}
use meshezia.Server.Negotiate.DirectProbe.{relay_pairs, check_direct_probes}
use meshezia.Server.Negotiate.Health.{
  consider_relay_probe, should_initiate_relay_probe, process_report, process_reports,
  handle_health_report,
}
use meshezia.Server.Negotiate.Force.{handle_force_mode}
use meshezia.Server.Negotiate.Router.{
  handle_negotiate_message, stale_sweep, abort_stale, sweep_all, stale_negotiation_ms,
}

consider_relay_probe-IsOwned :
    (now : ℕ) (from peer key : Text) (health : PairHealth) (s : Server)
    → IsOwned s.probes
    → IsOwned (consider_relay_probe now from peer key health s).probes
unfolding consider_relay_probe initiate_relay_probe send_msg
consider_relay_probe-IsOwned now from peer key health s v =
    elim (Option-cases (get s.probes.negotiations key)) [
      | inr (neg, e) ↦ ground arith
      | inl e ↦ ground (
        arith,
        set_with_timeout-IsOwned key
            (new_relay_probe now key (should_initiate_relay_probe from peer key health s).1)
            (now + relay_probe_timeout_ms) (relay_timeout key) s.probes refl e v,
      )
    ]

process_report-IsOwned :
    (now : ℕ) (from : Text) (report : HealthReport) (s : Server)
    → IsOwned s.probes
    → IsOwned (process_report now from report s).probes
unfolding process_report
process_report-IsOwned now from report s v =
    IsOwned-if _ _ _ (consider_relay_probe-IsOwned now from report.peer_id _ _ _ v) v

process_reports-IsOwned :
    (now : ℕ) (from : Text) (reports : List HealthReport) (s : Server)
    → IsOwned s.probes
    → IsOwned (process_reports now from reports s).probes
unfolding process_reports
process_reports-IsOwned now from [] s v = v
process_reports-IsOwned now from (report ∷ reports) s v =
    process_reports-IsOwned now from reports (process_report now from report s)
      (process_report-IsOwned now from report s v)

-- Any message from a peer, of whatever kind and at whatever moment.
pub handle_negotiate_message-IsOwned :
    (now : ℕ) (from : Text) (msg : NegotiateMessage) (s : Server)
    → IsOwned s.probes
    → IsOwned (handle_negotiate_message now from msg s).probes
unfolding handle_negotiate_message handle_health_report
handle_negotiate_message-IsOwned now from (health_report reports) s v =
    process_reports-IsOwned now from reports _ v
handle_negotiate_message-IsOwned now from (probe_relay_ready peer mesh_ipv4 tcp_port nonce) s v =
    handle_probe_relay_ready-IsOwned from peer mesh_ipv4 tcp_port nonce s v
handle_negotiate_message-IsOwned now from (probe_relay_result peer success) s v =
    handle_probe_relay_result-IsOwned from peer success s v
handle_negotiate_message-IsOwned now from (probe_direct_ready peer udp_port nonce) s v =
    handle_probe_direct_ready-IsOwned now from peer udp_port nonce s v
handle_negotiate_message-IsOwned now from (probe_direct_result peer success) s v =
    handle_probe_direct_result-IsOwned from peer success s v
handle_negotiate_message-IsOwned now from (probe_error peer error) s v =
    handle_probe_error-IsOwned from peer s v
handle_negotiate_message-IsOwned now from _ s v = v

sweep_all-IsOwned :
    (now : ℕ) (entries : Dict NegotiationState) (s : Server)
    → IsOwned s.probes
    → IsOwned (sweep_all now entries s).probes
unfolding sweep_all
sweep_all-IsOwned now [] s v = v
sweep_all-IsOwned now ((key, neg) ∷ rest) s v = sweep_all-IsOwned now rest _ (
    IsOwned-if (ltb (neg.started_at + stale_negotiation_ms) now) _ s
      (abort_negotiation-IsOwned key timeout s v) v)

pub stale_sweep-IsOwned :
    (now : ℕ) (s : Server) → IsOwned s.probes → IsOwned (stale_sweep now s).probes
unfolding stale_sweep check_direct_probes
stale_sweep-IsOwned now s v =
    check_pairs-IsOwned now (relay_pairs (abort_stale now s).db.peer_links) (abort_stale now s)
      (unfold abort_stale in sweep_all-IsOwned now s.probes.negotiations s v)

pub handle_force_mode-IsOwned :
    (a b : Text) (mode : ForceMode) (s : Server)
    → IsOwned s.probes
    → IsOwned (handle_force_mode a b mode s).probes
unfolding handle_force_mode send_msg
handle_force_mode-IsOwned a b mode s v = ground (arith, finish-IsOwned (pair_key a b) s.probes v)

pub cleanup_peer_health-IsOwned :
    (peer_id : Text) (s : Server)
    → IsOwned s.probes
    → IsOwned (cleanup_peer_health peer_id s).probes
unfolding cleanup_peer_health
cleanup_peer_health-IsOwned peer_id s v = v
