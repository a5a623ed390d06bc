-- ===== src/Server/Negotiate/Lifecycle/Laws.antt =====
-- What the lifecycle functions compute to, on each branch.
use mathlib.Core.Option
use meshezia.Server.Negotiate.Timers.{finish}
use meshezia.Common.{
  text_eq_iff, arith, Text, text_eq, none, some, ◌≡◌, inl, inr, ap, ◌∙◌, Bool-cases, Option-cases,
  if◌then◌else◌,
}
use meshezia.Common.Dict.{get-set, get-delete, Dict, get}
use meshezia.Shared.Types.{NegotiateMessage, negotiate_abort, Reason}
use meshezia.Server.State.{
  Probes, PairHealth, NegotiationState, Server, is_peer_connected, send_msg,
}
use meshezia.Server.Negotiate.Lifecycle.{
  change_health, send_if_connected, finish_negotiation, abort_negotiation,
}

-- The test before a send changes nothing: a message to a peer that is not connected is dropped.
send_if_connected_lem :
    (s : Server) (peer_id : Text) (msg : NegotiateMessage)
    → send_if_connected s peer_id msg ≡ send_msg s peer_id msg
unfolding send_if_connected send_msg
send_if_connected_lem s peer_id msg = elim (Bool-cases (is_peer_connected s peer_id)) [
  | inl e ↦ rw e
  | inr e ↦ rw e
]

-- Both sides of a negotiation are sent a message, first `peer_a`.
abbrev pub tell_both : NegotiationState → (Text → NegotiateMessage) → Server → Server
tell_both neg msg s = send_msg (send_msg s neg.peer_a (msg neg.peer_b)) neg.peer_b (msg neg.peer_a)

pub abort_negotiation_idle :
    (key : Text) (reason : Reason) (s : Server)
    → get s.probes.negotiations key ≡ none
    → abort_negotiation key reason s ≡ s
unfolding abort_negotiation
abort_negotiation_idle key reason s e = rw (e, abort_negotiation)

pub abort_negotiation_found :
    (key : Text) (reason : Reason) (s : Server) (neg : NegotiationState)
    → get s.probes.negotiations key ≡ some neg
    → abort_negotiation key reason s
      ≡ finish_negotiation key (tell_both neg (λ peer. negotiate_abort peer reason) s)
unfolding abort_negotiation
abort_negotiation_found key reason s neg e =
    rw (e, abort_negotiation)
      (ap (finish_negotiation key) (
        send_if_connected_lem _ neg.peer_b (negotiate_abort neg.peer_a reason)
        ∙ ap (λ told. send_msg told neg.peer_b (negotiate_abort neg.peer_a reason))
            (send_if_connected_lem s neg.peer_a (negotiate_abort neg.peer_b reason))))

-- A negotiation that is finished is gone, and no other is.
pub get-finish :
    (key j : Text) (p : Probes)
    → get (finish key p).negotiations j ≡ (if text_eq key j then none else get p.negotiations j)
unfolding finish
get-finish key j p = elim (Option-cases (get p.negotiations key)) [
  | inl e ↦ rw (e, finish) (ground (arith, text_eq_iff key j))
  | inr (neg, e) ↦ rw (e, finish) (get-delete p.negotiations key j)
]

-- The health under a key after a change of the one under another.
pub get-change_health :
    (f : PairHealth → PairHealth) (key j : Text) (m : Dict PairHealth)
    → get (change_health f key m) j ≡ (if text_eq key j then Option.map f (get m j) else get m j)
unfolding change_health
get-change_health f key j m = elim (Option-cases (get m key)) [
  | inl e ↦ rw (e, change_health) (ground (arith, text_eq_iff key j))
  | inr (h, e) ↦ rw (e, change_health) (ground (arith, text_eq_iff key j, get-set m key j (f h)))
]
