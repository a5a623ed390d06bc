-- ===== src/Server/Negotiate/Ownership/Replies.antt =====
-- The replies to a direct probe keep timers and negotiations together.
use meshezia.Server.Negotiate.Ownership.{abort_negotiation-IsOwned, IsOwned-if}
use meshezia.Common.{
  ℕ, ◌+◌, Text, text_eq, text_eq_refl, Bool, Option, some, ◌≡◌, refl, inl, inr, arith, Option-cases,
}
use meshezia.Common.Dict.{get, get-set}
use meshezia.Shared.Types.{Reason, timeout}
use meshezia.Server.State.{NegotiationState, direct_result_timeout, Ready, Server, send_msg}
use meshezia.Server.Negotiate.Keys.{pair_key, parse_pair_key}
use meshezia.Server.Negotiate.Timers.{clear_timeout, negotiations-clear_timeout}
use meshezia.Server.Negotiate.Timers.Ownership.{
  IsOwned, finish-IsOwned, replace_timeout-IsOwned, set_neg-IsOwned, finish-IsOwned_cleared,
}
use meshezia.Server.Negotiate.Lifecycle.{finish_negotiation, abort_negotiation}
use meshezia.Server.Negotiate.Lifecycle.Laws.{abort_negotiation_found}
use meshezia.Server.Negotiate.DirectProbe.{
  handle_probe_direct_ready, handle_probe_direct_result, handle_probe_error, both_ready,
  direct_result_timeout_ms, put_negotiation, set_ready, set_result, go_if_ready, conclude_if_known,
  is_direct_probe,
}

-- In a state where the negotiation's timer is cleared already.
abort_negotiation-IsOwned_cleared :
    (key : Text) (reason : Reason) (neg : NegotiationState) (s : Server)
    → get s.probes.negotiations key ≡ some neg
    → IsOwned s.probes
    → IsOwned
        (abort_negotiation key reason
          (record s { probes = clear_timeout neg.timeout_id s.probes })).probes
unfolding finish_negotiation send_msg
abort_negotiation-IsOwned_cleared key reason neg s e v =
    rw
      (abort_negotiation_found key reason
        (record s { probes = clear_timeout neg.timeout_id s.probes }) neg
        (rw negotiations-clear_timeout e))
      (finish-IsOwned_cleared key neg s.probes e v)

both_ready-IsOwned :
    (now : ℕ) (key : Text) (neg : NegotiationState) (ready_a ready_b : Ready) (s : Server)
    → get s.probes.negotiations key ≡ some neg
    → IsOwned s.probes
    → IsOwned (both_ready now key neg ready_a ready_b s).probes
unfolding both_ready send_msg
both_ready-IsOwned now key neg ready_a ready_b s e v = ground (
  arith,
  abort_negotiation-IsOwned_cleared key timeout neg s e v,
  replace_timeout-IsOwned key neg neg (now + direct_result_timeout_ms) (direct_result_timeout key)
      s.probes refl e v,
)

-- A negotiation whose fields but the timer change, in a server.
put_negotiation-IsOwned :
    (key : Text) (neg neg' : NegotiationState) (s : Server)
    → get s.probes.negotiations key ≡ some neg
    → neg'.timeout_id ≡ neg.timeout_id
    → IsOwned s.probes
    → IsOwned (put_negotiation key neg' s).probes
unfolding put_negotiation
put_negotiation-IsOwned key neg neg' s e same v = set_neg-IsOwned key neg neg' s.probes e same v

get-put_negotiation :
    (key : Text) (neg : NegotiationState) (s : Server)
    → get (put_negotiation key neg s).probes.negotiations key ≡ some neg
unfolding put_negotiation
get-put_negotiation key neg s = rw (get-set, text_eq_refl key)

go_if_ready-IsOwned :
    (now : ℕ) (key : Text) (neg : NegotiationState) (a b : Option Ready) (s : Server)
    → get s.probes.negotiations key ≡ some neg
    → IsOwned s.probes
    → IsOwned (go_if_ready now key neg a b s).probes
unfolding go_if_ready
go_if_ready-IsOwned now key neg (some a) (some b) s e v = both_ready-IsOwned now key neg a b s e v
go_if_ready-IsOwned now key neg _ _ s e v = v

pub handle_probe_direct_ready-IsOwned :
    (now : ℕ) (from peer : Text) (udp_port : ℕ) (nonce : Text) (s : Server)
    → IsOwned s.probes
    → IsOwned (handle_probe_direct_ready now from peer udp_port nonce s).probes
unfolding handle_probe_direct_ready
handle_probe_direct_ready-IsOwned now from peer udp_port nonce s v =
    let key = pair_key from peer in
    elim (Option-cases (get s.probes.negotiations key)) [
      | inl e ↦ rw (e, handle_probe_direct_ready) v
      | inr (neg, e) ↦
          let neg' =
            set_ready (text_eq from (parse_pair_key key).0)
              (record { udp_port = udp_port; nonce = nonce }) neg in
          let kept = put_negotiation-IsOwned key neg neg' s e (unfold set_ready in refl) v in
          rw (e, handle_probe_direct_ready)
            (IsOwned-if (is_direct_probe neg.type) _ s
              (go_if_ready-IsOwned now key neg' neg'.ready_a neg'.ready_b
                (put_negotiation key neg' s) (get-put_negotiation key neg' s) kept)
              v)
    ]

conclude_if_known-IsOwned :
    (key : Text) (neg : NegotiationState) (a b : Option Bool) (s : Server)
    → IsOwned s.probes
    → IsOwned (conclude_if_known key neg a b s).probes
unfolding conclude_if_known send_msg
conclude_if_known-IsOwned key neg (some a) (some b) s v = finish-IsOwned key s.probes v
conclude_if_known-IsOwned key neg _ _ s v = v

pub handle_probe_direct_result-IsOwned :
    (from peer : Text) (success : Bool) (s : Server)
    → IsOwned s.probes
    → IsOwned (handle_probe_direct_result from peer success s).probes
unfolding handle_probe_direct_result
handle_probe_direct_result-IsOwned from peer success s v =
    let key = pair_key from peer in
    elim (Option-cases (get s.probes.negotiations key)) [
      | inl e ↦ rw (e, handle_probe_direct_result) v
      | inr (neg, e) ↦
          let neg' = set_result (text_eq from (parse_pair_key key).0) success neg in
          let kept = put_negotiation-IsOwned key neg neg' s e (unfold set_result in refl) v in
          rw (e, handle_probe_direct_result)
            (IsOwned-if (is_direct_probe neg.type) _ s
              (conclude_if_known-IsOwned key neg' neg'.result_a neg'.result_b
                (put_negotiation key neg' s) kept)
              v)
    ]

pub handle_probe_error-IsOwned :
    (from peer : Text) (s : Server)
    → IsOwned s.probes
    → IsOwned (handle_probe_error from peer s).probes
unfolding handle_probe_error
handle_probe_error-IsOwned from peer s v =
    elim (Option-cases (get s.probes.negotiations (pair_key from peer))) [
      | inl e ↦ rw (e, handle_probe_error) v
      | inr (neg, e) ↦
          rw (e, handle_probe_error) (abort_negotiation-IsOwned (pair_key from peer) timeout _ v)
    ]
