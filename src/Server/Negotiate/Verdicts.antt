-- ===== src/Server/Negotiate/Verdicts.antt =====
-- How a probe is concluded: who is told what, and what is left.
pub mod Direct
use meshezia.Server.Negotiate.Lifecycle.Laws.{get-change_health, tell_both, get-finish}
use meshezia.Server.Negotiate.Keys.{pair_key}
use meshezia.Shared.Types.{stay, switch_relay, probe_verdict, Action}
use meshezia.Server.State.{
  NegotiationType, direct_probe, relay_probe, send_msg, Server, PairHealth, NegotiationState,
}
use meshezia.Server.Negotiate.RelayProbe.{
  reset_streaks, is_node, is_relay_probe, relay_verdict, conclude, handle_probe_relay_result,
}
use mathlib.Core.Option
use meshezia.Common.{
  ap, text_ne, sym, subst, Text, text_eq, text_eq_refl, Bool, true, false, Option, none, some, ◌≡◌,
  ◌≢◌, refl, inl, inr, Option-cases, if◌then◌else◌,
}
use meshezia.Common.Dict.{get}

-- What a verdict leaves: both peers of the negotiation were sent the action, it is over, every other
-- negotiation goes on, the health of the pair is changed and that of no other pair, and the
-- database and the connections stay.
pub record IsConcluded (key : Text) (neg : NegotiationState) (action : Action)
    (change : PairHealth → PairHealth) (s t : Server) : Type 0 where
  pub told : t.outbox ≡ (tell_both neg (λ peer. probe_verdict peer action) s).outbox
  pub ended :
      (j : Text)
      → get t.probes.negotiations j ≡ (if text_eq key j then none else get s.probes.negotiations j)
  pub changed :
      (j : Text)
      → get t.pair_health j
        ≡ (if text_eq key j then Option.map change (get s.pair_health j) else get s.pair_health j)
  pub same_db : t.db ≡ s.db
  pub same_connections : t.connections ≡ s.connections

conclude-IsConcluded :
    (key : Text) (neg : NegotiationState) (action : Action) (change : PairHealth → PairHealth)
    (s : Server)
    → IsConcluded key neg action change s (conclude key neg action change s)
unfolding conclude send_msg
conclude-IsConcluded key neg action change s = record {
  told = refl;
  ended = λ j. get-finish key j s.probes;
  changed = λ j. get-change_health change key j s.pair_health;
  same_db = refl;
  same_connections = refl;
}

-- The two tests on the sender, passed and not passed.
module _ (from : Text) (accepted ignored : Server) where
  abbrev from_client : NegotiationType → Option Text → Server
  from_client type client =
      if is_relay_probe type then (if is_node client from then accepted else ignored) else ignored

  from_client_accepted :
      (type : NegotiationType) (client : Option Text)
      → type ≡ relay_probe
      → client ≡ some from
      → from_client type client ≡ accepted
  from_client_accepted type client e f = rw (e, f) (rw (text_eq_refl from))

  from_client_ignored :
      (type : NegotiationType) (client : Option Text)
      → (type ≡ relay_probe → client ≢ some from)
      → from_client type client ≡ ignored
  from_client_ignored direct_probe client no_client = refl
  from_client_ignored relay_probe none no_client = refl
  from_client_ignored relay_probe (some id) no_client =
      rw (text_ne from id (λ e. no_client refl (ap some (sym e))))

handle_probe_relay_result_lem :
    (from peer : Text) (success : Bool) (s : Server) (neg : NegotiationState)
    → get s.probes.negotiations (pair_key from peer) ≡ some neg
    → neg.type ≡ relay_probe
    → neg.client_node ≡ some from
    → IsConcluded
        (pair_key from peer)
        neg
        (relay_verdict success)
        reset_streaks
        s
        (handle_probe_relay_result from peer success s)
unfolding handle_probe_relay_result
handle_probe_relay_result_lem from peer success s neg e relay client =
    rw (e, handle_probe_relay_result)
      (subst (IsConcluded (pair_key from peer) neg (relay_verdict success) reset_streaks s)
        (sym (from_client_accepted from _ s neg.type neg.client_node relay client))
        (conclude-IsConcluded (pair_key from peer) neg (relay_verdict success) reset_streaks s))

spelled_relay :
    (key : Text) (neg : NegotiationState) (s t : Server) (success : Bool)
    → IsConcluded key neg (relay_verdict success) reset_streaks s t
    → IsConcluded key neg
        (if success then switch_relay else stay)
        (λ h. record h { streak_ab = 0; streak_ba = 0 })
        s
        t
unfolding relay_verdict reset_streaks
spelled_relay key neg s t true v = v
spelled_relay key neg s t false v = v

-- When the client of an active relay probe reports, the negotiation ends at once, without the
-- result of the server node: both peers are told to switch to the relay if the client reached the
-- server node and to stay if not, and the pair's two streaks are 0; all other negotiations and
-- healths, the database and the connections stay.
pub relay_result-IsConcluded :
    (from peer : Text) (success : Bool) (s : Server) (neg : NegotiationState)
    → get s.probes.negotiations (pair_key from peer) ≡ some neg
    → neg.type ≡ relay_probe
    → neg.client_node ≡ some from
    → IsConcluded
        (pair_key from peer)
        neg
        (if success then switch_relay else stay)
        (λ h. record h { streak_ab = 0; streak_ba = 0 })
        s
        (handle_probe_relay_result from peer success s)
relay_result-IsConcluded from peer success s neg e relay client =
    spelled_relay (pair_key from peer) neg s _ success
      (handle_probe_relay_result_lem from peer success s neg e relay client)

-- A relay result changes nothing at all, unless a relay probe of the pair is active and the sender
-- is its client node; the result of the server node is not used.
pub relay_result_ignored :
    (from peer : Text) (success : Bool) (s : Server)
    → ((neg : NegotiationState)
        → get s.probes.negotiations (pair_key from peer) ≡ some neg
        → neg.type ≡ relay_probe
        → neg.client_node ≢ some from)
    → handle_probe_relay_result from peer success s ≡ s
unfolding handle_probe_relay_result
relay_result_ignored from peer success s other =
    elim (Option-cases (get s.probes.negotiations (pair_key from peer))) [
      | inl e ↦ rw (e, handle_probe_relay_result)
      | inr (neg, e) ↦
          rw (e, handle_probe_relay_result)
            (from_client_ignored from _ s neg.type neg.client_node (other neg e))
    ]
