-- ===== src/Agent/Poll/Active.antt =====
-- What a whole poll leaves, the removal of peers that are not in the configuration included.
use meshezia.Common.{
  ℕ, Text, text_eq, text_eq_iff, text_eq_refl, true, false, Option, none, some, List, [], ◌∷◌, ◌≡◌,
  ◌∙◌, refl, subst, ap, arith, In, inl, inr, Bool-cases,
}
use meshezia.Common.Dict.{get, keys, get-delete, In-keys}
use meshezia.Shared.Entities.{PeerEndpoint}
use meshezia.Agent.Monitor.{remove_peer_state}
use meshezia.Agent.RelayProxy.{Proxy, remove_relay_proxy}
use meshezia.Agent.Poll.{Known, is_active, is_empty, remove_inactive, poll_peers, poll_relays}
use meshezia.Agent.Poll.Relays.{IsRelayed}
use meshezia.Agent.Poll.Ports.{poll_peers-IsRelayed, poll_peers-old}

-- The peer has neither a relay nor a state.
abbrev pub IsGone : Proxy → Text → Type 0
IsGone p id = (get p.relays id ≡ none) × (get p.agent.monitor.peer_states id ≡ none)

In-is_active :
    (peers : List PeerEndpoint) (peer : PeerEndpoint)
    → In peer peers
    → is_empty peer.pubkey ≡ false
    → is_active peers peer.id ≡ true
unfolding is_active
In-is_active [] peer i keyed = absurd i
In-is_active (x ∷ rest) peer (inl same) keyed =
    subst (λ (y : PeerEndpoint). is_active (y ∷ rest) peer.id ≡ true) same
      (ground (arith, keyed, text_eq_refl peer.id))
In-is_active (x ∷ rest) peer (inr i) keyed = ground (arith, In-is_active rest peer i keyed)

-- A peer that no peer with a key of the configuration is.
absent-is_active :
    (peers : List PeerEndpoint) (id : Text)
    → ((peer : PeerEndpoint) → In peer peers → peer.id ≡ id → is_empty peer.pubkey ≡ true)
    → is_active peers id ≡ false
unfolding is_active
absent-is_active [] id absent = refl
absent-is_active (x ∷ rest) id absent =
    let later = absent-is_active rest id (λ peer i. absent peer (inr i)) in
    elim (Bool-cases (text_eq x.id id)) [
      | inl same ↦ ground (arith, same, absent x (inl refl) ((text_eq_iff x.id id).0 same), later)
      | inr other ↦ ground (arith, other, later)
    ]

-- The round of the second loop for a peer that is not active.
abbrev removed : Text → Proxy → Proxy
removed id p =
    let q = remove_relay_proxy id p in
    record q { agent = record q.agent { monitor = remove_peer_state id q.agent.monitor } }

removed-IsGone : (id : Text) (p : Proxy) → IsGone (removed id p) id
unfolding remove_relay_proxy remove_peer_state
removed-IsGone id p = (
  get-delete p.relays id id ∙ rw (text_eq_refl id) refl,
  get-delete p.agent.monitor.peer_states id id ∙ rw (text_eq_refl id) refl,
)

removed-old :
    (k id : Text) (p : Proxy)
    → text_eq k id ≡ false
    → (get (removed k p).relays id ≡ get p.relays id)
      × (get (removed k p).agent.monitor.peer_states id ≡ get p.agent.monitor.peer_states id)
unfolding remove_relay_proxy remove_peer_state
removed-old k id p other = (
  get-delete p.relays k id ∙ rw other refl,
  get-delete p.agent.monitor.peer_states k id ∙ rw other refl,
)

remove_inactive-IsRelayed :
    (peers : List PeerEndpoint) (ids : List Text) (p : Proxy) (id : Text)
    → is_active peers id ≡ true
    → IsRelayed p id
    → IsRelayed (remove_inactive peers ids p) id
unfolding remove_inactive
remove_inactive-IsRelayed peers [] p id active v = v
remove_inactive-IsRelayed peers (k ∷ rest) p id active v = elim (Bool-cases (is_active peers k)) [
  | inl stays ↦ rw stays (remove_inactive-IsRelayed peers rest p id active v)
  | inr goes ↦
      let (relays, states) = removed-old k id p (apart k goes) in
      rw goes (
        remove_inactive-IsRelayed peers rest (removed k p) id active (record {
          entry = v.entry;
          state = v.state;
          found = relays ∙ v.found;
          known = states ∙ v.known;
          same_port = v.same_port;
        }))
]
  where
    apart : (j : Text) → is_active peers j ≡ false → text_eq j id ≡ false
    apart j goes = elim (Bool-cases (text_eq j id)) [
      | inr other ↦ other
      | inl same ↦
          absurd (ground (arith, goes, active, ap (is_active peers) ((text_eq_iff j id).0 same)))
    ]

removed_keeps_IsGone : (k id : Text) (p : Proxy) → IsGone p id → IsGone (removed k p) id
removed_keeps_IsGone k id p gone = elim (Bool-cases (text_eq k id)) [
  | inl same ↦ subst (λ j. IsGone (removed k p) j) ((text_eq_iff k id).0 same) (removed-IsGone k p)
  | inr other ↦
      let (relays, states) = removed-old k id p other in (relays ∙ gone.0, states ∙ gone.1)
]

remove_inactive_keeps_IsGone :
    (peers : List PeerEndpoint) (ids : List Text) (p : Proxy) (id : Text)
    → IsGone p id
    → IsGone (remove_inactive peers ids p) id
unfolding remove_inactive
remove_inactive_keeps_IsGone peers [] p id gone = gone
remove_inactive_keeps_IsGone peers (k ∷ rest) p id gone = elim (Bool-cases (is_active peers k)) [
  | inl stays ↦ rw (stays, remove_inactive) (remove_inactive_keeps_IsGone peers rest p id gone)
  | inr goes ↦
      rw (goes, remove_inactive)
        (remove_inactive_keeps_IsGone peers rest (removed k p) id
          (removed_keeps_IsGone k id p gone))
]

remove_inactive-IsGone :
    (peers : List PeerEndpoint) (ids : List Text) (p : Proxy) (id : Text)
    → is_active peers id ≡ false
    → In id ids
    → IsGone (remove_inactive peers ids p) id
unfolding remove_inactive
remove_inactive-IsGone peers [] p id goes i = absurd i
remove_inactive-IsGone peers (k ∷ rest) p id goes (inl own) =
    subst (λ j. IsGone (remove_inactive peers (j ∷ rest) p) id) own
      (rw (goes, remove_inactive)
        (remove_inactive_keeps_IsGone peers rest (removed id p) id (removed-IsGone id p)))
remove_inactive-IsGone peers (k ∷ rest) p id goes (inr i) =
    remove_inactive-IsGone peers rest _ id goes i

poll_done :
    (bind : ℕ → Option ℕ) (known : Known) (peers : List PeerEndpoint) (p : Proxy)
    → (poll_peers bind known 0 peers p).0 ≡ true
    → poll_relays bind known peers p
      ≡ remove_inactive peers
          (keys (poll_peers bind known 0 peers p).1.agent.monitor.peer_states)
          (poll_peers bind known 0 peers p).1
unfolding poll_relays
poll_done bind known peers p done = rw done refl

-- After a whole poll whose first loop no error ends early, every peer of the configuration that has
-- a key and an interface has a relay, and the tunnel's relay port is the relay's local port,
-- whichever relays were there before.
pub poll_relays-IsRelayed :
    (bind : ℕ → Option ℕ) (known : Known) (peers : List PeerEndpoint) (p : Proxy)
    (peer : PeerEndpoint) (if_name : Text)
    → In peer peers
    → is_empty peer.pubkey ≡ false
    → known.get_if_name_for_peer peer.id ≡ some if_name
    → (poll_peers bind known 0 peers p).0 ≡ true
    → IsRelayed (poll_relays bind known peers p) peer.id
poll_relays-IsRelayed bind known peers p peer if_name i keyed e done =
    rw (poll_done bind known peers p done) (
      remove_inactive-IsRelayed peers _ _ peer.id (In-is_active peers peer i keyed)
        (poll_peers-IsRelayed bind known peers 0 p peer if_name i keyed e done))

-- After a whole poll whose first loop no error ends early, a peer that had a relay and a state and
-- that is not in the configuration with a key has neither any more.
pub poll_relays-IsGone :
    (bind : ℕ → Option ℕ) (known : Known) (peers : List PeerEndpoint) (p : Proxy) (id : Text)
    → IsRelayed p id
    → ((peer : PeerEndpoint) → In peer peers → peer.id ≡ id → is_empty peer.pubkey ≡ true)
    → (poll_peers bind known 0 peers p).0 ≡ true
    → IsGone (poll_relays bind known peers p) id
poll_relays-IsGone bind known peers p id v absent done =
    let polled = (poll_peers bind known 0 peers p).1 in
    let w = poll_peers-old bind known peers 0 p id v in
    rw (poll_done bind known peers p done) (
      remove_inactive-IsGone peers (keys polled.agent.monitor.peer_states) polled id
        (absent-is_active peers id absent)
        (In-keys polled.agent.monitor.peer_states id w.state w.known))
