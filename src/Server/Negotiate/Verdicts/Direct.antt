-- ===== src/Server/Negotiate/Verdicts/Direct.antt =====
-- How a direct probe is concluded.
use meshezia.Server.Negotiate.Lifecycle.{back_off}
use meshezia.Server.Negotiate.DirectProbe.{
  set_result, is_direct_probe, conclude_if_known, put_negotiation, direct_outcome, direct_verdict,
  handle_probe_direct_result,
}
use meshezia.Server.Negotiate.Lifecycle.Laws.{get-change_health, get-finish}
use meshezia.Server.Negotiate.Keys.{parse_pair_key, pair_key}
use meshezia.Shared.Types.{stay, switch_direct, Action}
use meshezia.Server.State.{
  NegotiationType, direct_probe, send_msg, Server, PairHealth, NegotiationState,
}
use meshezia.Server.Negotiate.RelayProbe.{conclude}
use meshezia.Common.{
  ◌*◌, min, ℕ, ◌∙◌, sym, subst, Text, text_eq, Bool, true, false, ◌&&◌, Option, none, some, ◌≡◌,
  refl, arith, if◌then◌else◌,
}
use meshezia.Common.Dict.{get-set, get}
use meshezia.Server.Negotiate.Verdicts.{IsConcluded}

conclude_noted-IsConcluded :
    (key : Text) (b ok : Bool) (neg : NegotiationState) (action : Action)
    (change : PairHealth → PairHealth) (s : Server)
    → IsConcluded key neg action change s (
        conclude key
          (set_result b ok neg)
          action
          change
          (put_negotiation key (set_result b ok neg) s))
unfolding conclude send_msg set_result put_negotiation
conclude_noted-IsConcluded key b ok neg action change s = record {
  told = refl;
  ended = λ j. ground (
    arith,
    get-finish key j (put_negotiation key (set_result b ok neg) s).probes,
    get-set s.probes.negotiations key j (set_result b ok neg),
  );
  changed = λ j. get-change_health change key j s.pair_health;
  same_db = refl;
  same_connections = refl;
}

direct_accepted :
    (type : NegotiationType) (x y : Server)
    → type ≡ direct_probe
    → (if is_direct_probe type then x else y) ≡ x
direct_accepted type x y e = rw e

both_known :
    (key : Text) (neg : NegotiationState) (ra rb : Option Bool) (a b both : Bool) (s : Server)
    → ra ≡ some a
    → rb ≡ some b
    → (a && b) ≡ both
    → conclude_if_known key neg ra rb s
      ≡ conclude key neg
          (direct_verdict both)
          (direct_outcome s.settings.direct_probe_backoff_init_ms both)
          s
unfolding conclude_if_known
both_known key neg ra rb a b both s e f g = rw (e, f) (rw g)

and_comm : (a b : Bool) → (a && b) ≡ (b && a)
and_comm a b = ground arith

-- The result that a negotiation holds from the other side than the sender's.
abbrev pub other_result : Bool → NegotiationState → Option Bool
other_result is_from_a neg = if is_from_a then neg.result_b else neg.result_a

set_result_known :
    (key : Text) (is_from_a success other : Bool) (neg : NegotiationState) (s : Server)
    → other_result is_from_a neg ≡ some other
    → conclude_if_known key
        (set_result is_from_a success neg)
        (set_result is_from_a success neg).result_a
        (set_result is_from_a success neg).result_b
        s
      ≡ conclude key
          (set_result is_from_a success neg)
          (direct_verdict (success && other))
          (direct_outcome s.settings.direct_probe_backoff_init_ms (success && other))
          s
unfolding set_result
set_result_known key true success other neg s known =
    both_known key _ _ _ success other (success && other) s refl known refl
set_result_known key false success other neg s known =
    both_known key _ _ _ other success (success && other) s known refl (and_comm other success)

handle_probe_direct_result_lem :
    (from peer : Text) (success other : Bool) (s : Server) (neg : NegotiationState)
    → get s.probes.negotiations (pair_key from peer) ≡ some neg
    → neg.type ≡ direct_probe
    → other_result (text_eq from (parse_pair_key (pair_key from peer)).0) neg ≡ some other
    → IsConcluded
        (pair_key from peer)
        neg
        (direct_verdict (success && other))
        (direct_outcome s.settings.direct_probe_backoff_init_ms (success && other))
        s
        (handle_probe_direct_result from peer success s)
unfolding handle_probe_direct_result
handle_probe_direct_result_lem from peer success other s neg e direct known =
    let key = pair_key from peer in
    let b = text_eq from (parse_pair_key key).0 in
    let action = direct_verdict (success && other) in
    let change = direct_outcome s.settings.direct_probe_backoff_init_ms (success && other) in
    rw (e, handle_probe_direct_result)
      (subst (IsConcluded key neg action change s)
        (sym (
          direct_accepted neg.type _ s direct
          ∙ set_result_known key b success other neg
              (put_negotiation key (set_result b success neg) s) known))
        (conclude_noted-IsConcluded key b success neg action change s))

spelled_direct :
    (key : Text) (neg : NegotiationState) (init : ℕ) (s t : Server) (both : Bool)
    → IsConcluded key neg (direct_verdict both) (direct_outcome init both) s t
    → IsConcluded key neg
        (if both then switch_direct else stay)
        (λ h. record h {
          direct_probe_backoff = if both then init else min (h.direct_probe_backoff * 2) 240000;
        })
        s
        t
unfolding direct_verdict direct_outcome back_off
spelled_direct key neg init s t true v = v
spelled_direct key neg init s t false v = v

-- When the second of the two peers reports on an active direct probe, both are told to switch to
-- the direct path if both succeeded and to stay if one did not, the negotiation ends, and the
-- pair's backoff returns to its first value if both succeeded, or else doubles up to 240 seconds;
-- all other negotiations and healths, the database and the connections stay.
pub direct_result-IsConcluded :
    (from peer : Text) (success other : Bool) (s : Server) (neg : NegotiationState)
    → get s.probes.negotiations (pair_key from peer) ≡ some neg
    → neg.type ≡ direct_probe
    → other_result (text_eq from (parse_pair_key (pair_key from peer)).0) neg ≡ some other
    → IsConcluded
        (pair_key from peer)
        neg
        (if success && other then switch_direct else stay)
        (λ h. record h {
          direct_probe_backoff =
              if success && other
              then s.settings.direct_probe_backoff_init_ms
              else min (h.direct_probe_backoff * 2) 240000;
        })
        s
        (handle_probe_direct_result from peer success s)
direct_result-IsConcluded from peer success other s neg e direct known =
    spelled_direct (pair_key from peer) neg s.settings.direct_probe_backoff_init_ms s _
      (success && other)
      (handle_probe_direct_result_lem from peer success other s neg e direct known)

-- The first of the two results is noted, and nothing else changes: no message is sent.
pub direct_result_noted :
    (from peer : Text) (success : Bool) (s : Server) (neg : NegotiationState)
    → get s.probes.negotiations (pair_key from peer) ≡ some neg
    → neg.type ≡ direct_probe
    → other_result (text_eq from (parse_pair_key (pair_key from peer)).0) neg ≡ none
    → handle_probe_direct_result from peer success s
      ≡ put_negotiation
          (pair_key from peer)
          (set_result (text_eq from (parse_pair_key (pair_key from peer)).0) success neg)
          s
unfolding handle_probe_direct_result
direct_result_noted from peer success s neg e direct unknown =
    rw (e, handle_probe_direct_result)
      (direct_accepted neg.type _ s direct
        ∙ first_noted (text_eq from (parse_pair_key (pair_key from peer)).0) unknown)
  where
    first_noted :
        (b : Bool)
        → other_result b neg ≡ none
        → conclude_if_known
            (pair_key from peer)
            (set_result b success neg)
            (set_result b success neg).result_a
            (set_result b success neg).result_b
            (put_negotiation (pair_key from peer) (set_result b success neg) s)
          ≡ put_negotiation (pair_key from peer) (set_result b success neg) s
    first_noted true u = unfold set_result conclude_if_known in rw u
    first_noted false u = unfold set_result conclude_if_known in rw u
