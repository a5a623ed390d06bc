-- ===== src/Agent/Poll/Collision.antt =====
-- Two peers for one port.
use meshezia.Common.{sym, ℕ, ◌+◌, Text, false, Option, none, some, List, ◌∷◌, ◌≡◌, refl, ap, ◌∙◌}
use meshezia.Common.Dict.{get}
use meshezia.Shared.Entities.{PeerEndpoint}
use meshezia.Agent.RelayProxy.{Proxy, RelayEntry, ensure_relay_proxy, relay_base_port}
use meshezia.Agent.Poll.{Known, is_empty, poll_relays, init_state, opts_for}
use meshezia.Agent.Poll.Ports.{thrown, relayed}

-- The platform opens no second socket on a port that a relay holds.
abbrev pub IsExclusive : (bind : ℕ → Option ℕ) → Proxy → Type 0
IsExclusive bind p =
    (id : Text) (entry : RelayEntry) → get p.relays id ≡ some entry → bind entry.local_port ≡ none

-- The peer has a key and an interface.
pub record IsReady (known : Known) (peer : PeerEndpoint) : Type 0 where
  pub keyed : is_empty peer.pubkey ≡ false
  pub if_name : Text
  pub named : known.get_if_name_for_peer peer.id ≡ some if_name

ensured_old :
    (bind : ℕ → Option ℕ) (known : Known) (idx : ℕ) (peer : PeerEndpoint) (p : Proxy)
    (entry : RelayEntry)
    → get p.relays peer.id ≡ some entry
    → ensure_relay_proxy bind (opts_for known idx peer) p ≡ some (entry.local_port, p)
unfolding ensure_relay_proxy
ensured_old bind known idx peer p entry e = rw (e, ensure_relay_proxy) refl

refused :
    (bind : ℕ → Option ℕ) (known : Known) (idx : ℕ) (peer : PeerEndpoint) (p : Proxy)
    → get p.relays peer.id ≡ none
    → bind (relay_base_port + idx) ≡ none
    → ensure_relay_proxy bind (opts_for known idx peer) p ≡ none
unfolding ensure_relay_proxy
refused bind known idx peer p e f = rw (e, f, ensure_relay_proxy) refl

-- Where the first peer of the configuration has kept the relay port that goes with the second place,
-- a poll gives the second peer, if it is new, no relay, and removes nobody's: the relays stay as they
-- are, in this poll and so in every later one with these two in front.
pub poll_relays-collision :
    (bind : ℕ → Option ℕ) (known : Known) (first second : PeerEndpoint) (rest : List PeerEndpoint)
    (p : Proxy) (entry : RelayEntry)
    → IsExclusive bind p
    → IsReady known first
    → IsReady known second
    → get p.relays first.id ≡ some entry
    → entry.local_port ≡ relay_base_port + 1
    → get p.relays second.id ≡ none
    → (poll_relays bind known (first ∷ second ∷ rest) p).relays ≡ p.relays
unfolding poll_relays init_state
poll_relays-collision bind known first second rest p entry only r1 r2 held at fresh =
    let q = init_state first r1.if_name entry.local_port p in
    let one =
      relayed bind known 0 first (second ∷ rest) p r1.if_name entry.local_port p r1.named r1.keyed
        (ensured_old bind known 0 first p entry held) in
    let two =
      thrown bind known 1 second rest q r2.if_name r2.named r2.keyed
        (refused bind known 1 second q fresh (sym (ap bind at) ∙ only first.id entry held)) in
    rw (one ∙ two, poll_relays) refl
