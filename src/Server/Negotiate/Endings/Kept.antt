-- ===== src/Server/Negotiate/Endings/Kept.antt =====
-- Which negotiations stay when those of a peer end.
use meshezia.Shared.Types.{Reason}
use meshezia.Server.Negotiate.Lifecycle.{abort_if_party, abort_parties, abort_peer_negotiations}
use meshezia.Server.State.{NegotiationState, Server}
use meshezia.Common.{
  ap, sym, Option, Text, text_eq, text_eq_iff, true, false, ◌||◌, none, some, [], ◌∷◌, ◌≡◌, ◌≢◌,
  refl, arith, inl, inr, Option-cases, Bool-cases, if◌then◌else◌, In, ◌∙◌,
}
use meshezia.Common.Dict.{Dict, get}
use meshezia.Server.Negotiate.Endings.{
  is_party_of, abort_if_party_lem, abort_peer_negotiations-no_party,
}

-- What the end of a peer's negotiations leaves of an entry.
abbrev pub unless_party : Text → Option NegotiationState → Option NegotiationState
unless_party peer_id none = none
unless_party peer_id (some neg) =
    if text_eq neg.peer_a peer_id || text_eq neg.peer_b peer_id then none else some neg

-- A map holds one entry under a key.
abbrev pub IsMap : Dict NegotiationState → Type 0
IsMap m = (k : Text) (n : NegotiationState) → In (k, n) m → get m k ≡ some n

module _ (peer_id : Text) (reason : Reason) where
  abort_parties_keeps :
      (entries : Dict NegotiationState) (s : Server) (k : Text) (n : NegotiationState)
      → ((m : NegotiationState) → In (k, m) entries → is_party_of peer_id m ≡ false)
      → get s.probes.negotiations k ≡ some n
      → get (abort_parties peer_id reason entries s).probes.negotiations k ≡ some n
  unfolding abort_parties
  abort_parties_keeps [] s k n apart h = h
  abort_parties_keeps ((key, neg) ∷ rest) s k n apart h =
      abort_parties_keeps rest (abort_if_party peer_id reason (key, neg) s) k n
        (λ m i. apart m (inr i))
        (abort_if_party_lem peer_id reason key neg s k
          ∙ elim (Bool-cases (is_party_of peer_id neg)) [
            | inr other ↦ rw other h
            | inl party ↦ elim (Bool-cases (text_eq key k)) [
              | inr apart_keys ↦ rw (party, apart_keys) h
              | inl same ↦ absurd (own ((text_eq_iff key k).0 same) party)
            ]
          ])
    where
      own : key ≡ k → is_party_of peer_id neg ≢ true
      own same party =
          ground (arith, party, apart neg (inl (ap (λ (j : Text). (j, neg)) (sym same))))

  -- When the negotiations of a peer are aborted, those in which it is one of the two are gone, and
  -- every other one is under its key as before; the list of negotiations is a map, with one under a
  -- key.
  pub get-abort_peer_negotiations :
      (s : Server) (k : Text)
      → IsMap s.probes.negotiations
      → get (abort_peer_negotiations peer_id reason s).probes.negotiations k
        ≡ unless_party peer_id (get s.probes.negotiations k)
  unfolding abort_peer_negotiations
  get-abort_peer_negotiations s k one =
      let after = abort_peer_negotiations peer_id reason s in
      let left = abort_peer_negotiations-no_party peer_id reason s k in
      elim (Option-cases (get after.probes.negotiations k)) [
        | inr (n, e) ↦ rw (e, (left n e).0, (left n e).1) refl
        | inl gone ↦ elim (Option-cases (get s.probes.negotiations k)) [
          | inl e ↦ rw (gone, e) refl
          | inr (n, e) ↦ elim (Bool-cases (is_party_of peer_id n)) [
            | inl party ↦ rw (gone, e, party) refl
            | inr other ↦
                rw (e, other)
                  (abort_parties_keeps s.probes.negotiations s k n
                    (λ m i. ap (is_party_of peer_id) (some-inj m n (sym (one k m i) ∙ e)) ∙ other)
                    e)
          ]
        ]
      ]
    where
      some-inj : (m n : NegotiationState) → some m ≡ some n → m ≡ n
      some-inj m n e = cc
