-- ===== src/Agent/Poll/Relays.antt =====
-- The relays of peers in a round of a poll.
use meshezia.Common.{
  sym, subst, ℕ, ◌+◌, Text, text_eq, text_eq_refl, text_eq_iff, false, Option, some, ◌≡◌, refl, ◌∙◌,
  arith, inl, inr, Option-cases, Bool-cases,
}
use meshezia.Common.Dict.{get, get-set}
use meshezia.Shared.Entities.{PeerEndpoint}
use meshezia.Agent.Monitor.{
  PeerState, InitPeerOpts, Monitor, init_peer_state, new_peer_state, refreshed,
}
use meshezia.Agent.RelayProxy.{
  relay_entry, Proxy, RelayEntry, EnsureRelayProxyOpts, ensure_relay_proxy, relay_base_port,
}
use meshezia.Agent.Poll.{opts_for, init_state, Known}

-- The peer has a relay, and its tunnel knows the relay's port.
pub record IsRelayed (p : Proxy) (id : Text) : Type 0 where
  pub entry : RelayEntry
  pub state : PeerState
  pub found : get p.relays id ≡ some entry
  pub known : get p.agent.monitor.peer_states id ≡ some state
  pub same_port : state.relay_port ≡ entry.local_port

-- The peer has a relay at the port.
abbrev HasRelay : Proxy → Text → ℕ → Type 0
HasRelay p id port =
    (entry : RelayEntry) × (get p.relays id ≡ some entry) × (entry.local_port ≡ port)

pub ensured :
    (bind : ℕ → Option ℕ) (opts : EnsureRelayProxyOpts) (p q : Proxy) (port : ℕ)
    → ensure_relay_proxy bind opts p ≡ some (port, q)
    → HasRelay q opts.peer_id port
unfolding ensure_relay_proxy
ensured bind opts p q port e = elim (Option-cases (get p.relays opts.peer_id)) [
  | inr (entry, there) ↦ (entry, ground (arith, there, e), ground (arith, there, e))
  | inl none_yet ↦ elim (Option-cases (bind (relay_base_port + opts.index))) [
    | inl thrown ↦ absurd (ground (arith, none_yet, thrown, e))
    | inr (socket, opened) ↦ (
      relay_entry socket opts,
      ground (
        arith,
        none_yet,
        opened,
        e,
        get-set p.relays opts.peer_id opts.peer_id (relay_entry socket opts),
        text_eq_refl opts.peer_id,
      ),
      ground (arith, none_yet, opened, e),
    )
  ]
]

ensured-get :
    (bind : ℕ → Option ℕ) (opts : EnsureRelayProxyOpts) (p q : Proxy) (port : ℕ) (id : Text)
    (entry : RelayEntry)
    → ensure_relay_proxy bind opts p ≡ some (port, q)
    → get p.relays id ≡ some entry
    → get q.relays id ≡ some entry
unfolding ensure_relay_proxy
ensured-get bind opts p q port id entry e f = elim (Option-cases (get p.relays opts.peer_id)) [
  | inr (old, there) ↦ ground (arith, there, e, f)
  | inl none_yet ↦ elim (Option-cases (bind (relay_base_port + opts.index))) [
    | inl thrown ↦ absurd (ground (arith, none_yet, thrown, e))
    | inr (socket, opened) ↦ ground (
      arith,
      none_yet,
      opened,
      e,
      f,
      text_eq_iff opts.peer_id id,
      get-set p.relays opts.peer_id id (relay_entry socket opts),
    )
  ]
]

init_peer_state-port :
    (opts : InitPeerOpts) (m : Monitor)
    → (state : PeerState) × (get (init_peer_state opts m).peer_states opts.peer_id ≡ some state)
      × (state.relay_port ≡ opts.relay_port)
unfolding init_peer_state new_peer_state refreshed
init_peer_state-port opts m = elim (Option-cases (get m.peer_states opts.peer_id)) [
  | inl unknown ↦ (
    new_peer_state opts,
    ground (
      arith,
      unknown,
      get-set m.peer_states opts.peer_id opts.peer_id (new_peer_state opts),
      text_eq_refl opts.peer_id,
    ),
    refl,
  )
  | inr (old, there) ↦ (
    refreshed opts old,
    ground (
      arith,
      there,
      get-set m.peer_states opts.peer_id opts.peer_id (refreshed opts old),
      text_eq_refl opts.peer_id,
    ),
    refl,
  )
]

init_peer_state-other :
    (opts : InitPeerOpts) (m : Monitor) (id : Text)
    → text_eq opts.peer_id id ≡ false
    → get (init_peer_state opts m).peer_states id ≡ get m.peer_states id
unfolding init_peer_state
init_peer_state-other opts m id e = elim (Option-cases (get m.peer_states opts.peer_id)) [
  | inl unknown ↦
      ground (arith, unknown, e, get-set m.peer_states opts.peer_id id (new_peer_state opts))
  | inr (old, there) ↦
      ground (arith, there, e, get-set m.peer_states opts.peer_id id (refreshed opts old))
]

pub init_state-new :
    (peer : PeerEndpoint) (if_name : Text) (port : ℕ) (p : Proxy)
    → HasRelay p peer.id port
    → IsRelayed (init_state peer if_name port p) peer.id
unfolding init_state
init_state-new peer if_name port p r =
    let s =
      init_peer_state-port
        (record {
          peer_id = peer.id;
          if_name = if_name;
          pubkey = peer.pubkey;
          peer_ipv4 = peer.mesh_ipv4;
          endpoint = peer.endpoint;
          relay_port = port;
        })
        p.agent.monitor in
    record { entry = r.0; state = s.0; found = r.1; known = s.1; same_port = s.2 ∙ sym r.2 }

init_state-old :
    (peer : PeerEndpoint) (if_name : Text) (port : ℕ) (p : Proxy) (id : Text)
    → text_eq peer.id id ≡ false
    → IsRelayed p id
    → IsRelayed (init_state peer if_name port p) id
unfolding init_state
init_state-old peer if_name port p id e v = record {
  entry = v.entry;
  state = v.state;
  found = v.found;
  known = init_peer_state-other _ p.agent.monitor id e ∙ v.known;
  same_port = v.same_port;
}

-- A relay that is there stays the peer's, also in the peer's own round.
pub round-IsRelayed :
    (bind : ℕ → Option ℕ) (known : Known) (idx : ℕ) (peer : PeerEndpoint) (if_name : Text)
    (port : ℕ) (p q : Proxy) (id : Text)
    → ensure_relay_proxy bind (opts_for known idx peer) p ≡ some (port, q)
    → get q.agent.monitor.peer_states id ≡ get p.agent.monitor.peer_states id
    → IsRelayed p id
    → IsRelayed (init_state peer if_name port q) id
round-IsRelayed bind known idx peer if_name port p q id e same v =
    elim (Bool-cases (text_eq peer.id id)) [
      | inl own ↦
          subst (λ i. IsRelayed (init_state peer if_name port q) i) ((text_eq_iff peer.id id).0 own)
            (init_state-new peer if_name port q (ensured bind (opts_for known idx peer) p q port e))
      | inr other ↦ init_state-old peer if_name port q id other (record {
        entry = v.entry;
        state = v.state;
        found = ensured-get bind (opts_for known idx peer) p q port id v.entry e v.found;
        known = same ∙ v.known;
        same_port = v.same_port;
      })
    ]

pub ensured-agent :
    (bind : ℕ → Option ℕ) (opts : EnsureRelayProxyOpts) (p q : Proxy) (port : ℕ)
    → ensure_relay_proxy bind opts p ≡ some (port, q)
    → q.agent ≡ p.agent
unfolding ensure_relay_proxy
ensured-agent bind opts p q port e = ground (arith, e)
