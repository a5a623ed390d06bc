-- ===== src/Server/Steps/Everywhere/Replies.antt =====
-- Each operation keeps what its parts keep: the replies to a direct probe, errors and timers.
use meshezia.Server.Steps.Everywhere.Handlers.{Holds-if}
use meshezia.Server.Negotiate.Lifecycle.{back_off, change_health, lookup_peer, PeerInfo}
use meshezia.Server.Negotiate.Keys.{parse_pair_key, pair_key}
use meshezia.Server.Negotiate.Timers.{
  finish, negotiations-clear_timeout, set_with_timeout, clear_timeout,
}
use meshezia.Shared.Types.{timeout}
use meshezia.Server.Negotiate.DirectProbe.{
  set_result, set_ready, is_direct_probe, direct_verdict, conclude_if_known, put_negotiation,
  go_if_ready, handle_probe_direct_result, on_direct_result_timeout, direct_outcome, both_ready,
  on_direct_ready_timeout, send_go, handle_probe_direct_ready, back_off_if_direct,
  handle_probe_error,
}
use meshezia.Server.Steps.Everywhere.{
  finish-negs, change_health-all, abort_negotiation-Holds, conclude-Holds, set-AllEntries, Holds,
  Rules,
}
use meshezia.Server.State.{
  direct_probe, relay_probe, NegotiationType, send_msg, Ready, Server, PairHealth, NegotiationState,
  Settings,
}
use meshezia.Common.{
  ◌∙◌, ℕ, Text, text_eq, Bool, true, false, ◌&&◌, Option, some, ◌≡◌, refl, arith, inl, inr,
  Option-cases,
}
use meshezia.Common.Dict.{get}

module _ (st : Settings) (P : Text → NegotiationState → Type 0) (Q : Text → PairHealth → Type 0)
    (r : Rules st P Q) where
  put_negotiation-Holds :
      (key : Text) (neg : NegotiationState) (s : Server)
      → P key neg
      → Holds st P Q s
      → Holds st P Q (put_negotiation key neg s)
  unfolding put_negotiation
  put_negotiation-Holds key neg s p v = record {
    fixed = v.fixed;
    negs = set-AllEntries P s.probes.negotiations key neg p v.negs;
    healths = v.healths;
  }

  cleared-Holds :
      (i : Option ℕ) (s : Server)
      → Holds st P Q s
      → Holds st P Q (record s { probes = clear_timeout i s.probes })
  cleared-Holds i s v = record {
    fixed = v.fixed;
    negs = rw negotiations-clear_timeout v.negs;
    healths = v.healths;
  }

  send_go-Holds :
      (now : ℕ) (key : Text) (neg : NegotiationState) (a b : Ready) (info_a info_b : PeerInfo)
      (s : Server)
      → P key neg
      → Holds st P Q s
      → Holds st P Q (send_go now key neg a b info_a info_b s)
  unfolding send_go send_msg set_with_timeout
  send_go-Holds now key neg a b info_a info_b s p v = record {
    fixed = v.fixed;
    negs =
        set-AllEntries P s.probes.negotiations key _ (r.retimed key neg s.probes.next_timer p)
          v.negs;
    healths = v.healths;
  }

  both_ready-Holds :
      (now : ℕ) (key : Text) (neg : NegotiationState) (a b : Ready) (s : Server)
      → P key neg
      → Holds st P Q s
      → Holds st P Q (both_ready now key neg a b s)
  unfolding both_ready
  both_ready-Holds now key neg a b s p v =
      let cleared = record s { probes = clear_timeout neg.timeout_id s.probes } in
      let held = cleared-Holds neg.timeout_id s v in
      let aborted = abort_negotiation-Holds st P Q r key timeout cleared held in
      elim (Option-cases (lookup_peer cleared neg.peer_a)) [
        | inl e ↦ rw (e, both_ready) aborted
        | inr (info_a, e) ↦ elim (Option-cases (lookup_peer cleared neg.peer_b)) [
          | inl e' ↦ rw (e, both_ready) (rw (e', both_ready) aborted)
          | inr (info_b, e') ↦
              rw (e, both_ready)
                (rw (e', both_ready) (send_go-Holds now key neg a b info_a info_b cleared p held))
        ]
      ]

  go_if_ready-Holds :
      (now : ℕ) (key : Text) (neg : NegotiationState) (a b : Option Ready) (s : Server)
      → P key neg
      → Holds st P Q s
      → Holds st P Q (go_if_ready now key neg a b s)
  unfolding go_if_ready
  go_if_ready-Holds now key neg (some a) (some b) s p v = both_ready-Holds now key neg a b s p v
  go_if_ready-Holds now key neg _ _ s p v = v

  pub handle_probe_direct_ready-Holds :
      (now : ℕ) (from peer : Text) (udp_port : ℕ) (nonce : Text) (s : Server)
      → Holds st P Q s
      → Holds st P Q (handle_probe_direct_ready now from peer udp_port nonce s)
  unfolding handle_probe_direct_ready
  handle_probe_direct_ready-Holds now from peer udp_port nonce s v =
      let key = pair_key from peer in
      let b = text_eq from (parse_pair_key key).0 in
      let ready : Ready = record { udp_port = udp_port; nonce = nonce } in
      elim (Option-cases (get s.probes.negotiations key)) [
        | inl e ↦ rw (e, handle_probe_direct_ready) v
        | inr (neg, e) ↦
            let p = r.ready key neg b ready (v.negs key neg e) in
            rw (e, handle_probe_direct_ready)
              (Holds-if st P Q r (is_direct_probe neg.type) _ s
                (go_if_ready-Holds now key (set_ready b ready neg) _ _ _ p
                  (put_negotiation-Holds key (set_ready b ready neg) s p v))
                v)
      ]

  direct_outcome-keeps :
      (key : Text) (ok : Bool) (h : PairHealth)
      → Q key h
      → Q key (direct_outcome st.direct_probe_backoff_init_ms ok h)
  unfolding direct_outcome
  direct_outcome-keeps key true h q = r.restored key h q
  direct_outcome-keeps key false h q = r.backed key h q

  conclude_if_known-Holds :
      (key : Text) (neg : NegotiationState) (a b : Option Bool) (s : Server)
      → Holds st P Q s
      → Holds st P Q (conclude_if_known key neg a b s)
  unfolding conclude_if_known
  conclude_if_known-Holds key neg (some a) (some b) s v =
      conclude-Holds st P Q r key neg (direct_verdict (a && b)) _ s
        (λ h q. rw v.fixed (direct_outcome-keeps key (a && b) h q)) v
  conclude_if_known-Holds key neg _ _ s v = v

  pub handle_probe_direct_result-Holds :
      (from peer : Text) (success : Bool) (s : Server)
      → Holds st P Q s
      → Holds st P Q (handle_probe_direct_result from peer success s)
  unfolding handle_probe_direct_result
  handle_probe_direct_result-Holds from peer success s v =
      let key = pair_key from peer in
      let b = text_eq from (parse_pair_key key).0 in
      elim (Option-cases (get s.probes.negotiations key)) [
        | inl e ↦ rw (e, handle_probe_direct_result) v
        | inr (neg, e) ↦
            let p = r.result key neg b success (v.negs key neg e) in
            rw (e, handle_probe_direct_result)
              (Holds-if st P Q r (is_direct_probe neg.type) _ s
                (conclude_if_known-Holds key (set_result b success neg) _ _ _
                  (put_negotiation-Holds key (set_result b success neg) s p v))
                v)
      ]

  back_off_if_direct-keeps :
      (key : Text) (type : NegotiationType) (h : PairHealth)
      → Q key h
      → Q key (back_off_if_direct type h)
  unfolding back_off_if_direct
  back_off_if_direct-keeps key relay_probe h q = q
  back_off_if_direct-keeps key direct_probe h q = r.backed key h q

  pub handle_probe_error-Holds :
      (from peer : Text) (s : Server)
      → Holds st P Q s
      → Holds st P Q (handle_probe_error from peer s)
  unfolding handle_probe_error
  handle_probe_error-Holds from peer s v =
      let key = pair_key from peer in
      elim (Option-cases (get s.probes.negotiations key)) [
        | inl e ↦ rw (e, handle_probe_error) v
        | inr (neg, e) ↦
            rw (e, handle_probe_error)
              (abort_negotiation-Holds st P Q r key timeout _ (record {
                fixed = v.fixed;
                negs = v.negs;
                healths =
                    change_health-all st P Q _ key s.pair_health
                      (back_off_if_direct-keeps key neg.type) v.healths;
              }))
      ]

  module _ (key : Text) (s : Server) (v : Holds st P Q s) where
    backed_off :
        (t : Server)
        → t.settings ≡ s.settings
        → t.probes ≡ finish key s.probes
        → t.pair_health ≡ s.pair_health
        → Holds st P Q (record t { pair_health = change_health back_off key t.pair_health })
    backed_off t e p h = record {
      fixed = e ∙ v.fixed;
      negs = rw p (finish-negs st P Q key s.probes v.negs);
      healths = rw h (change_health-all st P Q back_off key s.pair_health (r.backed key) v.healths);
    }

    pub on_direct_ready_timeout-Holds : Holds st P Q (on_direct_ready_timeout key s)
    unfolding on_direct_ready_timeout send_msg
    on_direct_ready_timeout-Holds = backed_off _ (ground arith) (ground arith) (ground arith)

    pub on_direct_result_timeout-Holds : Holds st P Q (on_direct_result_timeout key s)
    unfolding on_direct_result_timeout send_msg
    on_direct_result_timeout-Holds = backed_off _ refl refl refl
