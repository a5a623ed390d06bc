-- ===== src/Agent/Reconciler/Distinct.antt =====
-- Interfaces are not shared.
use meshezia.Common.{
  ℕ, zero, suc, ◌≤◌, ◌<◌, Text, text_eq_iff, true, false, ◌||◌, some, List, [], ◌∷◌, ◌≡◌, ◌≢◌, refl,
  leb, length, filter, arith, Bool-cases, Option-cases, inl, inr, ◌∙◌, In,
}
use meshezia.Common.Dict.{Dict, get, keys, get-set, get-delete, In-keys}
use meshezia.Agent.Monitor.{Monitor}
use meshezia.Shared.Entities.{PeerEndpoint}
use meshezia.Agent.Reconciler.{
  Mappings, System, Run, values, is_used, first_free, free_index, get_if_name, get_port,
  listen_port_for, remember_port, set_up, reconcile_peer, reconcile_peers, forget_peer, remove_gone,
  reconcile, is_desired, is_empty,
}

-- How many of the numbers are not below another.
abbrev room : ℕ → List ℕ → ℕ
room idx used = length (filter (leb idx) used)

room_less : (idx : ℕ) (used : List ℕ) → room (suc idx) used ≤ room idx used
room_less idx [] = omega arith
room_less idx (m ∷ used) = ground (arith, room_less idx used)

room_used :
    (idx : ℕ) (used : List ℕ) → is_used used idx ≡ true → room (suc idx) used < room idx used
room_used idx [] h = absurd (ground arith)
room_used idx (m ∷ used) h = ground (arith, room_less idx used, room_used idx used)

room_all : (used : List ℕ) → room 0 used ≤ length used
room_all [] = omega arith
room_all (m ∷ used) = ground (arith, room_all used)

first_free_lem :
    (fuel : ℕ) (used : List ℕ) (idx : ℕ)
    → room idx used ≤ fuel
    → is_used used (first_free fuel used idx) ≡ false
unfolding first_free
first_free_lem zero used idx h = ground (arith, room_used idx used)
first_free_lem (suc fuel) used idx h =
    ground (arith, room_used idx used, first_free_lem fuel used (suc idx))

get-values : (d : Dict ℕ) (k : Text) (i : ℕ) → get d k ≡ some i → is_used (values d) i ≡ true
unfolding get values
get-values [] k i h = absurd (ground arith)
get-values ((j, v) ∷ d) k i h = ground (arith, get-values d k i)

-- The index that the search finds, in at most as many rounds as there are mapped peers, is one that
-- no peer has.
pub free_index-unused : (d : Dict ℕ) (k : Text) → get d k ≢ some (free_index d)
unfolding free_index
free_index-unused d k h = ground (
  arith,
  get-values d k (free_index d) h,
  first_free_lem (length (values d)) (values d) 0 (room_all (values d)),
)

-- No two peers have the same interface.
abbrev pub AreDistinct : Dict ℕ → Type 0
AreDistinct d = (p q : Text) (i : ℕ) → get d p ≡ some i → get d q ≡ some i → p ≡ q

get_if_name-AreDistinct :
    (peer_id : Text) (m : Mappings)
    → AreDistinct m.peer_to_if
    → AreDistinct (get_if_name peer_id m).1.peer_to_if
unfolding get_if_name
get_if_name-AreDistinct peer_id m v p q i hp hq = ground (
  arith,
  v p q i,
  get-set m.peer_to_if peer_id p (free_index m.peer_to_if),
  get-set m.peer_to_if peer_id q (free_index m.peer_to_if),
  free_index-unused m.peer_to_if p,
  free_index-unused m.peer_to_if q,
  text_eq_iff peer_id p,
  text_eq_iff peer_id q,
)

get_port-peer_to_if :
    (draw : ℕ → ℕ) (peer_id : Text) (m m' : Mappings) (port : ℕ)
    → get_port draw peer_id m ≡ some (port, m')
    → m'.peer_to_if ≡ m.peer_to_if
unfolding get_port
get_port-peer_to_if draw peer_id m m' port e = ground arith

listen_port_for-peer_to_if :
    (system : System) (peer : PeerEndpoint) (m m' : Mappings) (port : ℕ)
    → listen_port_for system peer m ≡ some (port, m')
    → m'.peer_to_if ≡ m.peer_to_if
unfolding listen_port_for
listen_port_for-peer_to_if system peer m m' port e =
    ground (arith, get_port-peer_to_if (system.draw peer.id) peer.id m m' port)

remember_port-peer_to_if :
    (peer_id : Text) (port : ℕ) (m : Mappings)
    → (remember_port peer_id port m).peer_to_if ≡ m.peer_to_if
unfolding remember_port
remember_port-peer_to_if peer_id port m = ground arith

peer_to_if-set_up :
    (system : System) (monitor : Monitor) (peer : PeerEndpoint) (i : ℕ) (run : Run)
    → (set_up system monitor peer i run).mappings.peer_to_if ≡ run.mappings.peer_to_if
unfolding set_up
peer_to_if-set_up system monitor peer i run =
    elim (Option-cases (listen_port_for system peer run.mappings)) [
      | inl failed ↦ rw (failed, set_up) refl
      | inr ((port, m), found) ↦
          rw (found, set_up)
            (remember_port-peer_to_if peer.id port m
              ∙ listen_port_for-peer_to_if system peer run.mappings m port found)
    ]

reconcile_peer-AreDistinct :
    (system : System) (monitor : Monitor) (peer : PeerEndpoint) (run : Run)
    → AreDistinct run.mappings.peer_to_if
    → AreDistinct (reconcile_peer system monitor peer run).mappings.peer_to_if
unfolding reconcile_peer
reconcile_peer-AreDistinct system monitor peer run v =
    let (i, named) = get_if_name peer.id run.mappings in
    elim (Bool-cases (run.threw || is_empty peer.pubkey)) [
      | inl skip ↦ rw (skip) v
      | inr go ↦
          rw (go, peer_to_if-set_up system monitor peer i (record run { mappings = named }))
            (get_if_name-AreDistinct peer.id run.mappings v)
    ]

reconcile_peers-AreDistinct :
    (system : System) (monitor : Monitor) (peers : List PeerEndpoint) (run : Run)
    → AreDistinct run.mappings.peer_to_if
    → AreDistinct (reconcile_peers system monitor peers run).mappings.peer_to_if
unfolding reconcile_peers
reconcile_peers-AreDistinct system monitor [] run v = v
reconcile_peers-AreDistinct system monitor (peer ∷ rest) run v =
    reconcile_peers-AreDistinct system monitor rest (reconcile_peer system monitor peer run)
      (reconcile_peer-AreDistinct system monitor peer run v)

get-remove_gone :
    (peers : List PeerEndpoint) (ids : List Text) (m : Mappings) (p : Text) (i : ℕ)
    → get (remove_gone peers ids m).peer_to_if p ≡ some i
    → get m.peer_to_if p ≡ some i
unfolding remove_gone forget_peer
get-remove_gone peers [] m p i h = h
get-remove_gone peers (id ∷ rest) m p i h = ground (
  arith,
  get-delete m.peer_to_if id p,
  get-remove_gone peers rest m p i,
  get-remove_gone peers rest (forget_peer id m) p i,
)

remove_gone_none :
    (peers : List PeerEndpoint) (ids : List Text) (m : Mappings) (p : Text) (i : ℕ)
    → is_desired peers p ≡ false
    → In p ids
    → get (remove_gone peers ids m).peer_to_if p ≢ some i
unfolding remove_gone forget_peer
remove_gone_none peers [] m p i gone here h = absurd here
remove_gone_none peers (id ∷ rest) m p i gone (inl same) h = ground (
  arith,
  get-delete m.peer_to_if id p,
  get-remove_gone peers rest (forget_peer id m) p i,
  text_eq_iff id p,
)
remove_gone_none peers (id ∷ rest) m p i gone (inr later) h =
    remove_gone_none peers rest _ p i gone later h

AreDistinct-remove_gone :
    (peers : List PeerEndpoint) (ids : List Text) (m : Mappings)
    → AreDistinct m.peer_to_if
    → AreDistinct (remove_gone peers ids m).peer_to_if
AreDistinct-remove_gone peers ids m v p q i hp hq =
    v p q i (get-remove_gone peers ids m p i hp) (get-remove_gone peers ids m q i hq)

-- Reconciling keeps the interfaces of different peers different, whatever the configuration is,
-- whichever setups fail and also where no port is left.
pub reconcile-AreDistinct :
    (system : System) (monitor : Monitor) (peers : List PeerEndpoint) (m : Mappings)
    → AreDistinct m.peer_to_if
    → AreDistinct (reconcile system monitor peers m).mappings.peer_to_if
unfolding reconcile
reconcile-AreDistinct system monitor peers m v =
    let run =
      reconcile_peers system monitor peers
        (record { mappings = m; ports = []; setups = []; threw = false }) in
    let kept = reconcile_peers-AreDistinct system monitor peers _ v in
    elim (Bool-cases run.threw) [
      | inl threw ↦ rw threw kept
      | inr done ↦
          rw done (AreDistinct-remove_gone peers (keys run.mappings.peer_to_if) run.mappings kept)
    ]

-- After a run that no error has left, only peers of the configuration have an interface.
pub reconcile-is_desired :
    (system : System) (monitor : Monitor) (peers : List PeerEndpoint) (m : Mappings) (p : Text)
    (i : ℕ)
    → (reconcile system monitor peers m).threw ≡ false
    → get (reconcile system monitor peers m).mappings.peer_to_if p ≡ some i
    → is_desired peers p ≡ true
unfolding reconcile
reconcile-is_desired system monitor peers m p i done mapped =
    let run =
      reconcile_peers system monitor peers
        (record { mappings = m; ports = []; setups = []; threw = false }) in
    elim (Bool-cases (is_desired peers p)) [
      | inl desired ↦ desired
      | inr gone ↦ elim (Bool-cases run.threw) [
        | inl threw ↦ absurd (ground arith)
        | inr ran ↦
            let left = remove_gone peers (keys run.mappings.peer_to_if) run.mappings in
            let still : get left.peer_to_if p ≡ some i = rw ran at mapped in
            let before =
              get-remove_gone peers (keys run.mappings.peer_to_if) run.mappings p i still in
            absurd (
              remove_gone_none peers (keys run.mappings.peer_to_if) run.mappings p i gone
                (In-keys run.mappings.peer_to_if p i before) still)
      ]
    ]
