-- ===== src/Server/Negotiate/Ownership.antt =====
-- What ends or starts a negotiation keeps timers and negotiations together.
pub mod Replies
pub mod Messages
pub mod Fired
use meshezia.Common.{
  subst, ℕ, ◌+◌, Text, text_eq, text_eq_refl, Bool, true, false, Option, none, some, List, [], ◌∷◌,
  ◌≡◌, refl, inl, inr, arith, Option-cases, if◌then◌else◌, ltb,
}
use meshezia.Common.Dict.{Dict, get, get-set}
use meshezia.Shared.Types.{
  Reason, HealthReport, ForceMode, NegotiateMessage, health_report, probe_relay_ready,
  probe_relay_result, probe_direct_ready, probe_direct_result, probe_error, timeout,
}
use meshezia.Server.State.{
  Callback, PairHealth, NegotiationState, Timer, relay_timeout, direct_ready_timeout,
  direct_result_timeout, Ready, Server, send_msg,
}
use meshezia.Server.Negotiate.Keys.{pair_key, parse_pair_key}
use meshezia.Server.Negotiate.Timers.{update, clear_timeout, negotiations-clear_timeout}
use meshezia.Server.Negotiate.Timers.Ownership.{
  callback_key, IsOwned, set_with_timeout-IsOwned, finish-IsOwned, replace_timeout-IsOwned,
  set_neg-IsOwned, finish-IsOwned_fired, finish-IsOwned_cleared,
}
use meshezia.Server.Negotiate.Lifecycle.{
  finish_negotiation, abort_negotiation, abort_peer_negotiations, cleanup_peer_health,
  abort_if_party, abort_parties,
}
use meshezia.Server.Negotiate.Lifecycle.Laws.{abort_negotiation_idle, abort_negotiation_found}
use meshezia.Server.Negotiate.RelayProbe.{
  initiate_relay_probe, handle_probe_relay_ready, handle_probe_relay_result, relay_probe_timeout_ms,
  new_relay_probe,
}
use meshezia.Server.Negotiate.DirectProbe.{
  relay_pairs, initiate_direct_probe, check_direct_probes, check_direct_probe, check_pairs,
  handle_probe_direct_ready, handle_probe_direct_result, handle_probe_error,
  on_direct_ready_timeout, on_direct_result_timeout, both_ready, direct_result_timeout_ms,
  put_negotiation, set_ready, set_result, go_if_ready, conclude_if_known, is_direct_probe,
}
use meshezia.Server.Negotiate.Health.{
  consider_relay_probe, should_initiate_relay_probe, process_report, process_reports,
  handle_health_report,
}
use meshezia.Server.Negotiate.Force.{handle_force_mode}
use meshezia.Server.Negotiate.Router.{
  run_callback, handle_negotiate_message, stale_sweep, abort_stale, sweep_all, stale_negotiation_ms,
  fire,
}

pub abort_negotiation-IsOwned :
    (key : Text) (reason : Reason) (s : Server)
    → IsOwned s.probes
    → IsOwned (abort_negotiation key reason s).probes
unfolding finish_negotiation send_msg
abort_negotiation-IsOwned key reason s v = elim (Option-cases (get s.probes.negotiations key)) [
  | inl e ↦ rw (abort_negotiation_idle key reason s e) v
  | inr (neg, e) ↦ rw (abort_negotiation_found key reason s neg e) (finish-IsOwned key s.probes v)
]

pub IsOwned-if :
    (test : Bool) (s t : Server)
    → IsOwned s.probes
    → IsOwned t.probes
    → IsOwned (if test then s else t).probes
IsOwned-if true s t v w = v
IsOwned-if false s t v w = w

abort_if_party-IsOwned :
    (peer_id : Text) (reason : Reason) (entry : Text × NegotiationState) (s : Server)
    → IsOwned s.probes
    → IsOwned (abort_if_party peer_id reason entry s).probes
unfolding abort_if_party send_msg
abort_if_party-IsOwned peer_id reason (key, neg) s v = ground (arith, finish-IsOwned key s.probes)

abort_parties-IsOwned :
    (peer_id : Text) (reason : Reason) (entries : Dict NegotiationState) (s : Server)
    → IsOwned s.probes
    → IsOwned (abort_parties peer_id reason entries s).probes
unfolding abort_parties
abort_parties-IsOwned peer_id reason [] s v = v
abort_parties-IsOwned peer_id reason (entry ∷ rest) s v =
    abort_parties-IsOwned peer_id reason rest (abort_if_party peer_id reason entry s)
      (abort_if_party-IsOwned peer_id reason entry s v)

pub abort_peer_negotiations-IsOwned :
    (peer_id : Text) (reason : Reason) (s : Server)
    → IsOwned s.probes
    → IsOwned (abort_peer_negotiations peer_id reason s).probes
unfolding abort_peer_negotiations
abort_peer_negotiations-IsOwned peer_id reason s v =
    abort_parties-IsOwned peer_id reason s.probes.negotiations s v

pub handle_probe_relay_ready-IsOwned :
    (from peer mesh_ipv4 : Text) (tcp_port : ℕ) (nonce : Text) (s : Server)
    → IsOwned s.probes
    → IsOwned (handle_probe_relay_ready from peer mesh_ipv4 tcp_port nonce s).probes
unfolding handle_probe_relay_ready send_msg
handle_probe_relay_ready-IsOwned from peer mesh_ipv4 tcp_port nonce s v =
    ground (arith, abort_negotiation-IsOwned (pair_key from peer) timeout s)

pub handle_probe_relay_result-IsOwned :
    (from peer : Text) (success : Bool) (s : Server)
    → IsOwned s.probes
    → IsOwned (handle_probe_relay_result from peer success s).probes
unfolding handle_probe_relay_result send_msg
handle_probe_relay_result-IsOwned from peer success s v =
    ground (arith, finish-IsOwned (pair_key from peer) s.probes)

initiate_direct_probe-IsOwned :
    (now : ℕ) (key : Text) (health : PairHealth) (s : Server)
    → get s.probes.negotiations key ≡ none
    → IsOwned s.probes
    → IsOwned (initiate_direct_probe now key health s).probes
unfolding initiate_direct_probe send_msg
initiate_direct_probe-IsOwned now key health s idle v =
    set_with_timeout-IsOwned key _ _ (direct_ready_timeout key) s.probes refl idle v

check_direct_probe-IsOwned :
    (now : ℕ) (row : Text × Text) (s : Server)
    → IsOwned s.probes
    → IsOwned (check_direct_probe now row s).probes
unfolding check_direct_probe
check_direct_probe-IsOwned now (peer_a, peer_b) s v =
    elim (Option-cases (get s.pair_health (pair_key peer_a peer_b))) [
      | inl e ↦ rw (e, check_direct_probe) v
      | inr (health, e) ↦
          rw (e, check_direct_probe)
            (ground (arith, initiate_direct_probe-IsOwned now (pair_key peer_a peer_b) health s))
    ]

pub check_pairs-IsOwned :
    (now : ℕ) (rows : List (Text × Text)) (s : Server)
    → IsOwned s.probes
    → IsOwned (check_pairs now rows s).probes
unfolding check_pairs
check_pairs-IsOwned now [] s v = v
check_pairs-IsOwned now (row ∷ rows) s v =
    check_pairs-IsOwned now rows (check_direct_probe now row s)
      (check_direct_probe-IsOwned now row s v)
