-- ===== src/Server/Steps/Everywhere/Handlers.antt =====
-- Each operation keeps what its parts keep.
use meshezia.Server.Negotiate.Keys.{pair_key}
use meshezia.Server.Negotiate.Timers.{set_with_timeout}
use meshezia.Shared.Types.{timeout, Reason}
use meshezia.Server.Negotiate.RelayProbe.{
  reset_streaks, relay_verdict, is_node, is_relay_probe, handle_probe_relay_result,
  handle_probe_relay_ready,
}
use meshezia.Server.Negotiate.DirectProbe.{
  is_relay_enabled_for_peer, is_probe_due, check_direct_probe, check_pairs, initiate_direct_probe,
}
use meshezia.Server.Negotiate.Lifecycle.{
  abort_parties, delete_keys_of, abort_peer_negotiations, cleanup_peer_health, abort_if_party,
}
use meshezia.Server.Steps.Everywhere.{
  conclude-Holds, set-AllEntries, delete-AllEntries, abort_negotiation-Holds, finish-negs, Holds,
  AllEntries, Rules,
}
use meshezia.Server.State.{send_msg, Server, PairHealth, NegotiationState, Settings}
use meshezia.Common.{
  ℕ, Text, Bool, true, false, ◌&&◌, List, [], ◌∷◌, refl, arith, inl, inr, Option-cases,
  if◌then◌else◌, subst,
}
use meshezia.Common.Dict.{Dict, get, keys}

module _ (st : Settings) (P : Text → NegotiationState → Type 0) (Q : Text → PairHealth → Type 0)
    (r : Rules st P Q) where
  pub Holds-if :
      (test : Bool) (s t : Server)
      → Holds st P Q s
      → Holds st P Q t
      → Holds st P Q (if test then s else t)
  Holds-if true s t v w = v
  Holds-if false s t v w = w

  abort_if_party-Holds :
      (peer_id : Text) (reason : Reason) (key : Text) (neg : NegotiationState) (s : Server)
      → Holds st P Q s
      → Holds st P Q (abort_if_party peer_id reason (key, neg) s)
  unfolding abort_if_party send_msg
  abort_if_party-Holds peer_id reason key neg s v =
      ground (arith, finish-negs st P Q key s.probes v.negs)

  abort_parties-Holds :
      (peer_id : Text) (reason : Reason) (entries : Dict NegotiationState) (s : Server)
      → Holds st P Q s
      → Holds st P Q (abort_parties peer_id reason entries s)
  unfolding abort_parties
  abort_parties-Holds peer_id reason [] s v = v
  abort_parties-Holds peer_id reason ((key, neg) ∷ rest) s v =
      abort_parties-Holds peer_id reason rest _ (abort_if_party-Holds peer_id reason key neg s v)

  pub abort_peer_negotiations-Holds :
      (peer_id : Text) (reason : Reason) (s : Server)
      → Holds st P Q s
      → Holds st P Q (abort_peer_negotiations peer_id reason s)
  unfolding abort_peer_negotiations
  abort_peer_negotiations-Holds peer_id reason s v =
      abort_parties-Holds peer_id reason s.probes.negotiations s v

  delete_keys_of-all :
      (peer_id : Text) (ks : List Text) (m : Dict PairHealth)
      → AllEntries Q m
      → AllEntries Q (delete_keys_of peer_id ks m)
  unfolding delete_keys_of
  delete_keys_of-all peer_id [] m a = a
  delete_keys_of-all peer_id (k ∷ ks) m a =
      delete_keys_of-all peer_id ks _
        (subst (AllEntries Q) refl (ground (arith, delete-AllEntries Q m k a)))

  pub cleanup_peer_health-Holds :
      (peer_id : Text) (s : Server) → Holds st P Q s → Holds st P Q (cleanup_peer_health peer_id s)
  unfolding cleanup_peer_health
  cleanup_peer_health-Holds peer_id s v = record {
    fixed = v.fixed;
    negs = v.negs;
    healths = delete_keys_of-all peer_id (keys s.pair_health) s.pair_health v.healths;
  }

  pub handle_probe_relay_ready-Holds :
      (from peer mesh_ipv4 : Text) (tcp_port : ℕ) (nonce : Text) (s : Server)
      → Holds st P Q s
      → Holds st P Q (handle_probe_relay_ready from peer mesh_ipv4 tcp_port nonce s)
  unfolding handle_probe_relay_ready send_msg
  handle_probe_relay_ready-Holds from peer mesh_ipv4 tcp_port nonce s v =
      ground (arith, abort_negotiation-Holds st P Q r (pair_key from peer) timeout s v)

  pub handle_probe_relay_result-Holds :
      (from peer : Text) (success : Bool) (s : Server)
      → Holds st P Q s
      → Holds st P Q (handle_probe_relay_result from peer success s)
  unfolding handle_probe_relay_result
  handle_probe_relay_result-Holds from peer success s v =
      let key = pair_key from peer in
      elim (Option-cases (get s.probes.negotiations key)) [
        | inl e ↦ rw (e, handle_probe_relay_result) v
        | inr (neg, e) ↦
            rw (e, handle_probe_relay_result)
              (Holds-if (is_relay_probe neg.type) _ s
                (Holds-if (is_node neg.client_node from) _ s
                  (conclude-Holds st P Q r key neg (relay_verdict success) reset_streaks s
                    (r.reset key) v)
                  v)
                v)
      ]

  initiate_direct_probe-Holds :
      (now : ℕ) (key : Text) (health : PairHealth) (s : Server)
      → Q key health
      → Holds st P Q s
      → Holds st P Q (initiate_direct_probe now key health s)
  unfolding initiate_direct_probe send_msg set_with_timeout
  initiate_direct_probe-Holds now key health s q v = record {
    fixed = v.fixed;
    negs =
        set-AllEntries P s.probes.negotiations key _ (r.direct now key s.probes.next_timer) v.negs;
    healths = set-AllEntries Q s.pair_health key _ (r.marked key health now q) v.healths;
  }

  pub check_pairs-Holds :
      (now : ℕ) (rows : List (Text × Text)) (s : Server)
      → Holds st P Q s
      → Holds st P Q (check_pairs now rows s)
  unfolding check_pairs
  check_pairs-Holds now [] s v = v
  check_pairs-Holds now ((a, b) ∷ rows) s v =
      check_pairs-Holds now rows _ (elim (Option-cases (get s.pair_health (pair_key a b))) [
        | inl e ↦ rw (e, check_direct_probe) v
        | inr (h, e) ↦
            rw (e, check_direct_probe)
              (Holds-if (is_probe_due now (a, b) h s && is_relay_enabled_for_peer s a) _ s
                (initiate_direct_probe-Holds now (pair_key a b) h s (v.healths (pair_key a b) h e)
                  v)
                v)
      ])
