-- ===== src/Agent/Poll/Ports.antt =====
-- The rounds of a poll.
use meshezia.Agent.Poll.Relays.{ensured, ensured-agent, init_state-new, round-IsRelayed, IsRelayed}
use meshezia.Agent.Negotiate.{Agent}
use meshezia.Common.{
  sym, subst, ℕ, suc, Text, Bool, true, false, Option, none, some, List, [], ◌∷◌, ◌≡◌, refl, ap,
  ◌∙◌, arith, In, inl, inr, Option-cases, Bool-cases,
}
use meshezia.Common.Dict.{get}
use meshezia.Shared.Entities.{PeerEndpoint}
use meshezia.Agent.RelayProxy.{Proxy, ensure_relay_proxy}
use meshezia.Agent.Poll.{opts_for, init_state, Known, is_empty, poll_peers}

-- The rounds of the loop: no interface, no key, an error, and a relay.
module _ (bind : ℕ → Option ℕ) (known : Known) (idx : ℕ) (peer : PeerEndpoint)
    (rest : List PeerEndpoint) (p : Proxy) where
  no_interface :
      known.get_if_name_for_peer peer.id ≡ none
      → poll_peers bind known idx (peer ∷ rest) p ≡ poll_peers bind known idx rest p
  unfolding poll_peers
  no_interface e = rw (e, poll_peers) refl

  no_key :
      (if_name : Text)
      → known.get_if_name_for_peer peer.id ≡ some if_name
      → is_empty peer.pubkey ≡ true
      → poll_peers bind known idx (peer ∷ rest) p ≡ poll_peers bind known idx rest p
  unfolding poll_peers
  no_key if_name e k = rw (e, k, poll_peers) refl

  pub thrown :
      (if_name : Text)
      → known.get_if_name_for_peer peer.id ≡ some if_name
      → is_empty peer.pubkey ≡ false
      → ensure_relay_proxy bind (opts_for known idx peer) p ≡ none
      → poll_peers bind known idx (peer ∷ rest) p ≡ (false, p)
  unfolding poll_peers
  thrown if_name e k f = rw (e, k, f, poll_peers) refl

  pub relayed :
      (if_name : Text) (port : ℕ) (q : Proxy)
      → known.get_if_name_for_peer peer.id ≡ some if_name
      → is_empty peer.pubkey ≡ false
      → ensure_relay_proxy bind (opts_for known idx peer) p ≡ some (port, q)
      → poll_peers bind known idx (peer ∷ rest) p
        ≡ poll_peers bind known (suc idx) rest (init_state peer if_name port q)
  unfolding poll_peers
  relayed if_name port q e k f = rw (e, k, f, poll_peers) refl

pub poll_peers-old :
    (bind : ℕ → Option ℕ) (known : Known) (peers : List PeerEndpoint) (idx : ℕ) (p : Proxy)
    (id : Text)
    → IsRelayed p id
    → IsRelayed (poll_peers bind known idx peers p).1 id
unfolding poll_peers
poll_peers-old bind known [] idx p id v = v
poll_peers-old bind known (peer ∷ rest) idx p id v =
    let later = poll_peers-old bind known rest in
    let to : (r : Bool × Proxy)
        → poll_peers bind known idx (peer ∷ rest) p ≡ r
        → IsRelayed r.1 id
        → IsRelayed (poll_peers bind known idx (peer ∷ rest) p).1 id =
      λ r e w. subst (λ (r : Bool × Proxy). IsRelayed r.1 id) (sym e) w in
    elim (Option-cases (known.get_if_name_for_peer peer.id)) [
      | inl none_yet ↦ to _ (no_interface bind known idx peer rest p none_yet) (later idx p id v)
      | inr (if_name, e) ↦ elim (Bool-cases (is_empty peer.pubkey)) [
        | inl keyless ↦
            to _ (no_key bind known idx peer rest p if_name e keyless) (later idx p id v)
        | inr keyed ↦ elim (Option-cases (ensure_relay_proxy bind (opts_for known idx peer) p)) [
          | inl f ↦ to _ (thrown bind known idx peer rest p if_name e keyed f) v
          | inr ((port, q), made) ↦
              to _ (relayed bind known idx peer rest p if_name port q e keyed made) (
                later (suc idx) (init_state peer if_name port q) id (
                  round-IsRelayed bind known idx peer if_name port p q id made
                    (ap (λ (a : Agent). get a.monitor.peer_states id)
                      (ensured-agent bind (opts_for known idx peer) p q port made))
                    v))
        ]
      ]
    ]

-- The round of a peer with a key and an interface, of a poll that no error ends early.
own-IsRelayed :
    (bind : ℕ → Option ℕ) (known : Known) (idx : ℕ) (peer : PeerEndpoint) (rest : List PeerEndpoint)
    (p : Proxy) (if_name : Text)
    → is_empty peer.pubkey ≡ false
    → known.get_if_name_for_peer peer.id ≡ some if_name
    → (poll_peers bind known idx (peer ∷ rest) p).0 ≡ true
    → IsRelayed (poll_peers bind known idx (peer ∷ rest) p).1 peer.id
own-IsRelayed bind known idx peer rest p if_name keyed e done =
    elim (Option-cases (ensure_relay_proxy bind (opts_for known idx peer) p)) [
      | inl f ↦ absurd (
          ground (
            arith,
            done,
            ap (λ (r : Bool × Proxy). r.0) (thrown bind known idx peer rest p if_name e keyed f),
          ))
      | inr ((port, q), made) ↦
          subst (λ (r : Bool × Proxy). IsRelayed r.1 peer.id)
            (sym (relayed bind known idx peer rest p if_name port q e keyed made))
            (poll_peers-old bind known rest (suc idx) (init_state peer if_name port q) peer.id (
              init_state-new peer if_name port q
                (ensured bind (opts_for known idx peer) p q port made)))
    ]

-- After a first loop that no error ends early, every peer of the configuration that has a key and an
-- interface has a relay, and the tunnel's relay port is the relay's local port, whichever relays were
-- there before.
pub poll_peers-IsRelayed :
    (bind : ℕ → Option ℕ) (known : Known) (peers : List PeerEndpoint) (idx : ℕ) (p : Proxy)
    (peer : PeerEndpoint) (if_name : Text)
    → In peer peers
    → is_empty peer.pubkey ≡ false
    → known.get_if_name_for_peer peer.id ≡ some if_name
    → (poll_peers bind known idx peers p).0 ≡ true
    → IsRelayed (poll_peers bind known idx peers p).1 peer.id
poll_peers-IsRelayed bind known [] idx p peer if_name i keyed e done = absurd i
poll_peers-IsRelayed bind known (x ∷ rest) idx p peer if_name (inl same) keyed e done =
    let poll = poll_peers bind known idx (x ∷ rest) p in
    subst (λ (y : PeerEndpoint). IsRelayed poll.1 y.id) (sym same)
      (own-IsRelayed bind known idx x rest p if_name
        (sym (ap (λ (y : PeerEndpoint). is_empty y.pubkey) same) ∙ keyed)
        (sym (ap (λ (y : PeerEndpoint). known.get_if_name_for_peer y.id) same) ∙ e) done)
poll_peers-IsRelayed bind known (x ∷ rest) idx p peer if_name (inr i) keyed e done =
    let later = poll_peers-IsRelayed bind known rest in
    let to : (r : Bool × Proxy)
        → poll_peers bind known idx (x ∷ rest) p ≡ r
        → (r.0 ≡ true → IsRelayed r.1 peer.id)
        → IsRelayed (poll_peers bind known idx (x ∷ rest) p).1 peer.id =
      λ r h w.
        subst (λ (r : Bool × Proxy). IsRelayed r.1 peer.id) (sym h)
          (w (sym (ap (λ (r : Bool × Proxy). r.0) h) ∙ done)) in
    elim (Option-cases (known.get_if_name_for_peer x.id)) [
      | inl none_yet ↦
          to _ (no_interface bind known idx x rest p none_yet) (later idx p peer if_name i keyed e)
      | inr (name, f) ↦ elim (Bool-cases (is_empty x.pubkey)) [
        | inl keyless ↦
            to _ (no_key bind known idx x rest p name f keyless)
              (later idx p peer if_name i keyed e)
        | inr k ↦ elim (Option-cases (ensure_relay_proxy bind (opts_for known idx x) p)) [
          | inl g ↦
              to _ (thrown bind known idx x rest p name f k g)
                (λ wrong. absurd (ground (arith, wrong)))
          | inr ((port, q), made) ↦
              to _ (relayed bind known idx x rest p name port q f k made)
                (later (suc idx) (init_state x name port q) peer if_name i keyed e)
        ]
      ]
    ]
