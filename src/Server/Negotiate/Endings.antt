-- ===== src/Server/Negotiate/Endings.antt =====
-- When negotiations end: with a peer, and by age.
pub mod Kept
use meshezia.Server.Negotiate.Lifecycle.Laws.{
  abort_negotiation_found, abort_negotiation_idle, get-finish,
}
use meshezia.Server.Negotiate.Router.{stale_negotiation_ms, sweep_one, abort_stale, sweep_all}
use meshezia.Shared.Types.{timeout, Reason}
use meshezia.Server.Negotiate.Lifecycle.{
  abort_negotiation, abort_if_party, abort_parties, abort_peer_negotiations, is_party,
  delete_keys_of, cleanup_peer_health, finish_negotiation,
}
use meshezia.Server.State.{PairHealth, send_msg, NegotiationState, Server}
use meshezia.Common.{
  [], ◌⊎◌, ℕ, ◌+◌, ◌≤◌, Text, text_eq, text_eq_iff, Bool, true, false, ◌||◌, none, some, List, ◌∷◌,
  ◌≡◌, ◌≢◌, refl, arith, inl, inr, Option-cases, Bool-cases, if◌then◌else◌, In, ltb, ◌∙◌,
}
use meshezia.Common.Dict.{Dict, get, keys, In-get, In-keys, get-delete}

-- Is the peer one of the two of a negotiation?
abbrev pub is_party_of : Text → NegotiationState → Bool
is_party_of peer_id neg = text_eq neg.peer_a peer_id || text_eq neg.peer_b peer_id

-- `t` has no negotiation that `s` does not have.
abbrev pub OnlyFewer : Server → Server → Type 0
OnlyFewer s t =
    (k : Text) (n : NegotiationState)
    → get t.probes.negotiations k ≡ some n
    → get s.probes.negotiations k ≡ some n

module _ (peer_id : Text) (reason : Reason) where
  abort_if_party_lem :
      (key : Text) (neg : NegotiationState) (s : Server) (j : Text)
      → get (abort_if_party peer_id reason (key, neg) s).probes.negotiations j ≡ (
          if is_party_of peer_id neg
          then (if text_eq key j then none else get s.probes.negotiations j)
          else get s.probes.negotiations j)
  unfolding abort_if_party send_msg
  abort_if_party_lem key neg s j = ground (arith, get-finish key j s.probes)

  abort_parties-OnlyFewer :
      (entries : Dict NegotiationState) (s : Server)
      → OnlyFewer s (abort_parties peer_id reason entries s)
  unfolding abort_parties
  abort_parties-OnlyFewer [] s k n h = h
  abort_parties-OnlyFewer ((key, neg) ∷ rest) s k n h = ground (
    arith,
    abort_if_party_lem key neg s k,
    abort_parties-OnlyFewer rest (abort_if_party peer_id reason (key, neg) s) k n h,
  )

  abort_parties_none :
      (entries : Dict NegotiationState) (s : Server) (k : Text) (n m : NegotiationState)
      → In (k, n) entries
      → is_party_of peer_id n ≡ true
      → get (abort_parties peer_id reason entries s).probes.negotiations k ≢ some m
  unfolding abort_parties
  abort_parties_none [] s k n m i p h = absurd i
  abort_parties_none ((key, neg) ∷ rest) s k n m (inl e) p h = ground (
    arith,
    abort_if_party_lem key neg s k,
    text_eq_iff key k,
    abort_parties-OnlyFewer rest (abort_if_party peer_id reason (key, neg) s) k m h,
  )
  abort_parties_none ((key, neg) ∷ rest) s k n m (inr i) p h = abort_parties_none rest _ k n m i p h

  -- After the negotiations of a peer are aborted, none is left in which it is one of the two, and
  -- every one that is left was there before, unchanged.
  pub abort_peer_negotiations-no_party :
      (s : Server) (k : Text) (n : NegotiationState)
      → get (abort_peer_negotiations peer_id reason s).probes.negotiations k ≡ some n
      → (get s.probes.negotiations k ≡ some n) × (is_party_of peer_id n ≡ false)
  unfolding abort_peer_negotiations
  abort_peer_negotiations-no_party s k n h =
      let before = abort_parties-OnlyFewer s.probes.negotiations s k n h in
      elim (Bool-cases (is_party_of peer_id n)) [
        | inr e ↦ (before, e)
        | inl e ↦ absurd (
            abort_parties_none s.probes.negotiations s k n n
              (In-get s.probes.negotiations k n before) e h)
      ]

abbrev pub is_stale : ℕ → NegotiationState → Bool
is_stale now neg = ltb (neg.started_at + stale_negotiation_ms) now

get-abort_negotiation :
    (key : Text) (reason : Reason) (s : Server) (j : Text)
    → get (abort_negotiation key reason s).probes.negotiations j
      ≡ (if text_eq key j then none else get s.probes.negotiations j)
unfolding finish_negotiation send_msg
get-abort_negotiation key reason s j = elim (Option-cases (get s.probes.negotiations key)) [
  | inl e ↦ rw (abort_negotiation_idle key reason s e) (ground (arith, text_eq_iff key j))
  | inr (neg, e) ↦ rw (abort_negotiation_found key reason s neg e) (get-finish key j s.probes)
]

sweep_one_lem :
    (now : ℕ) (key : Text) (neg : NegotiationState) (s : Server) (j : Text)
    → get (sweep_one now (key, neg) s).probes.negotiations j ≡ (
        if is_stale now neg
        then (if text_eq key j then none else get s.probes.negotiations j)
        else get s.probes.negotiations j)
unfolding sweep_one
sweep_one_lem now key neg s j = ground (arith, get-abort_negotiation key timeout s j)

sweep_all-OnlyFewer :
    (now : ℕ) (entries : Dict NegotiationState) (s : Server) → OnlyFewer s (sweep_all now entries s)
unfolding sweep_all
sweep_all-OnlyFewer now [] s k n h = h
sweep_all-OnlyFewer now ((key, neg) ∷ rest) s k n h = ground (
  arith,
  sweep_one_lem now key neg s k,
  sweep_all-OnlyFewer now rest (sweep_one now (key, neg) s) k n h,
)

sweep_all_none :
    (now : ℕ) (entries : Dict NegotiationState) (s : Server) (k : Text) (n m : NegotiationState)
    → In (k, n) entries
    → is_stale now n ≡ true
    → get (sweep_all now entries s).probes.negotiations k ≢ some m
unfolding sweep_all
sweep_all_none now [] s k n m i p h = absurd i
sweep_all_none now ((key, neg) ∷ rest) s k n m (inl e) p h = ground (
  arith,
  sweep_one_lem now key neg s k,
  text_eq_iff key k,
  sweep_all-OnlyFewer now rest (sweep_one now (key, neg) s) k m h,
)
sweep_all_none now ((key, neg) ∷ rest) s k n m (inr i) p h = sweep_all_none now rest _ k n m i p h

-- After the sweep's first part, no negotiation is left that began more than 30 seconds ago, and
-- every one that is left was there before, unchanged.
pub abort_stale-fresh :
    (now : ℕ) (s : Server) (k : Text) (n : NegotiationState)
    → get (abort_stale now s).probes.negotiations k ≡ some n
    → (get s.probes.negotiations k ≡ some n) × (now ≤ n.started_at + stale_negotiation_ms)
unfolding abort_stale
abort_stale-fresh now s k n h =
    let before = sweep_all-OnlyFewer now s.probes.negotiations s k n h in
    elim (Bool-cases (is_stale now n)) [
      | inr e ↦ (before, ground arith)
      | inl e ↦ absurd (
          sweep_all_none now s.probes.negotiations s k n n (In-get s.probes.negotiations k n before)
            e h)
    ]

delete_keys_of_lem :
    (peer_id : Text) (ks : List Text) (m : Dict PairHealth) (j : Text)
    → is_party peer_id j ≡ false
    → get (delete_keys_of peer_id ks m) j ≡ get m j
unfolding delete_keys_of
delete_keys_of_lem peer_id [] m j h = refl
delete_keys_of_lem peer_id (k ∷ ks) m j h =
    delete_keys_of_lem peer_id ks _ j h ∙ ground (arith, get-delete m k j, text_eq_iff k j)

delete_keys_of-none :
    (peer_id : Text) (ks : List Text) (m : Dict PairHealth) (j : Text)
    → is_party peer_id j ≡ true
    → (get m j ≡ none) ⊎ In j ks
    → get (delete_keys_of peer_id ks m) j ≡ none
unfolding delete_keys_of
delete_keys_of-none peer_id [] m j h (inl e) = e
delete_keys_of-none peer_id [] m j h (inr i) = absurd i
delete_keys_of-none peer_id (k ∷ ks) m j h (inl e) =
    delete_keys_of-none peer_id ks _ j h (inl (ground (arith, get-delete m k j)))
delete_keys_of-none peer_id (k ∷ ks) m j h (inr (inl e)) =
    delete_keys_of-none peer_id ks _ j h (inl (ground (arith, get-delete m k j, text_eq_iff k j)))
delete_keys_of-none peer_id (k ∷ ks) m j h (inr (inr i)) =
    delete_keys_of-none peer_id ks _ j h (inr i)

-- The clean-up of a peer forgets the health of every pair whose key names the peer, and keeps that
-- of every other pair.
pub get-cleanup_peer_health :
    (peer_id : Text) (s : Server) (j : Text)
    → get (cleanup_peer_health peer_id s).pair_health j
      ≡ (if is_party peer_id j then none else get s.pair_health j)
unfolding cleanup_peer_health
get-cleanup_peer_health peer_id s j = elim (Bool-cases (is_party peer_id j)) [
  | inr other ↦ rw (other) (delete_keys_of_lem peer_id (keys s.pair_health) s.pair_health j other)
  | inl party ↦ elim (Option-cases (get s.pair_health j)) [
    | inl e ↦
        rw (party) (delete_keys_of-none peer_id (keys s.pair_health) s.pair_health j party (inl e))
    | inr (h, e) ↦ rw (party) (
        delete_keys_of-none peer_id (keys s.pair_health) s.pair_health j party
          (inr (In-keys s.pair_health j h e)))
  ]
]
