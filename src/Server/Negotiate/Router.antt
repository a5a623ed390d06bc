-- ===== src/Server/Negotiate/Router.antt =====
-- "Message Router" and "Stale Negotiation Sweep" of negotiate.ts, and the timers that fire.
use meshezia.Common.{ℕ, ◌+◌, Text, none, [], ◌∷◌, ltb, if◌then◌else◌}
use meshezia.Common.Dict.{Dict}
use meshezia.Shared.Types.{
  NegotiateMessage, health_report, probe_relay_ready, probe_relay_result, probe_direct_ready,
  probe_direct_result, probe_error, timeout,
}
use meshezia.Server.State.{
  NegotiationState, Callback, relay_timeout, direct_ready_timeout, direct_result_timeout, Timer,
  Server,
}
use meshezia.Server.Negotiate.Timers.{update}
use meshezia.Server.Negotiate.Lifecycle.{abort_negotiation}
use meshezia.Server.Negotiate.RelayProbe.{handle_probe_relay_ready, handle_probe_relay_result}
use meshezia.Server.Negotiate.DirectProbe.{
  handle_probe_direct_ready, handle_probe_direct_result, handle_probe_error, check_direct_probes,
  on_direct_ready_timeout, on_direct_result_timeout,
}
use meshezia.Server.Negotiate.Health.{handle_health_report}

abbrev pub stale_negotiation_ms : ℕ
stale_negotiation_ms = 30000

unfoldable pub handle_negotiate_message : ℕ → Text → NegotiateMessage → Server → Server
handle_negotiate_message now from (health_report reports) s =
    handle_health_report now from reports s
handle_negotiate_message now from (probe_relay_ready peer mesh_ipv4 tcp_port nonce) s =
    handle_probe_relay_ready from peer mesh_ipv4 tcp_port nonce s
handle_negotiate_message now from (probe_relay_result peer success) s =
    handle_probe_relay_result from peer success s
handle_negotiate_message now from (probe_direct_ready peer udp_port nonce) s =
    handle_probe_direct_ready now from peer udp_port nonce s
handle_negotiate_message now from (probe_direct_result peer success) s =
    handle_probe_direct_result from peer success s
handle_negotiate_message now from (probe_error peer error) s = handle_probe_error from peer s
handle_negotiate_message now from _ s = s

-- One round of the sweep.
unfoldable pub sweep_one : ℕ → Text × NegotiationState → Server → Server
sweep_one now (key, neg) s =
    if ltb (neg.started_at + stale_negotiation_ms) now then abort_negotiation key timeout s else s

unfoldable pub sweep_all : ℕ → Dict NegotiationState → Server → Server
unfolding sweep_one
sweep_all now [] s = s
sweep_all now (entry ∷ rest) s = sweep_all now rest (sweep_one now entry s)

-- The loop deletes no entry but the one that it stands at, so it visits the entries that are there
-- when it starts.
unfoldable pub abort_stale : ℕ → Server → Server
unfolding sweep_all
abort_stale now s = sweep_all now s.probes.negotiations s

-- The callback of `startStaleSweep`.
unfoldable pub stale_sweep : ℕ → Server → Server
unfolding abort_stale
stale_sweep now s = check_direct_probes now (abort_stale now s)

-- The bodies of the three callbacks.
unfoldable pub run_callback : Callback → Server → Server
run_callback (relay_timeout key) s = abort_negotiation key timeout s
run_callback (direct_ready_timeout key) s = on_direct_ready_timeout key s
run_callback (direct_result_timeout key) s = on_direct_result_timeout key s

-- A timer goes off: it is no longer among those that wait, and its callback runs.
unfoldable pub fire : ℕ → Timer → Server → Server
unfolding run_callback
fire i timer s =
    run_callback timer.callback
      (record s { probes = record s.probes { timers = update s.probes.timers i none } })
