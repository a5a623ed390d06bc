-- ===== src/Agent/Monitor/Ticks.antt =====
-- What a tick makes of the count of a peer's received bytes.
use meshezia.Common.{
  subst, ap, ◌∙◌, ℕ, suc, Text, text_eq, text_eq_iff, Bool, false, Option, none, some, [], ◌∷◌,
  ◌++◌, ◌≡◌, arith, inl, inr, Bool-cases, Option-cases, ltb, if◌then◌else◌,
}
use meshezia.Common.Dict.{Dict, get, has}
use meshezia.Shared.Types.{direct}
use meshezia.Agent.Monitor.{
  PeerState, PeerStats, Monitor, get_cached_peer_stats, is_frozen, map_states, track, tick_peer,
  track_peers, rx_of, stats_key, is_direct,
}
use meshezia.Agent.Monitor.Alive.{IsRight, Reached-IsRight, track-IsRight, mode-track, HasAlive}
use meshezia.Agent.Monitor.Reports.{cached_lem, statistic}
use meshezia.Agent.Monitor.Steps.{Reached}

get-map_states :
    (f : Text → PeerState → PeerState) (d : Dict PeerState) (id : Text) (s : PeerState)
    → get d id ≡ some s
    → get (map_states f d) id ≡ some (f id s)
unfolding map_states get
get-map_states f [] id s e = absurd (ground arith)
get-map_states f ((k, v) ∷ rest) id s e = elim (Bool-cases (text_eq k id)) [
  | inl same ↦
      let here : some v ≡ some s = rw same at e in
      let own : k ≡ id = (text_eq_iff k id).0 same in rw same cc
  | inr other ↦ rw other (get-map_states f rest id s (rw other at e))
]

-- The bytes that the statistics have for a peer's tunnel, which are under the interface, a tab and
-- the key; 0 where they have none.
abbrev pub received : Dict PeerStats → PeerState → ℕ
received stats s = statistic (λ p. p.rx_bytes) 0 (get stats (s.if_name ++ 9 ∷ s.pubkey))

-- The count of silent ticks after a tick: the first count of bytes says nothing; later, a tick is
-- silent unless the bytes grew and none of them came over the relay.
abbrev pub silent_ticks : (last : Option ℕ) → (forwarded : Bool) → (rx silent : ℕ) → ℕ
silent_ticks none forwarded rx silent = silent
silent_ticks (some last) forwarded rx silent =
    if forwarded then suc silent else (if ltb last rx then 0 else suc silent)

-- What a tick with a count of bytes makes of a peer.
pub record IsTicked (forwarded : Bool) (rx : ℕ) (s t : PeerState) : Type 0 where
  pub counted : t.last_rx_bytes ≡ some rx
  pub missed : t.direct_missed ≡ silent_ticks s.last_rx_bytes forwarded rx s.direct_missed
  pub alive : t.rx_alive ≡ ltb t.direct_missed 3
  pub same_mode : t.mode ≡ s.mode

track_counts :
    (forwarded : Bool) (rx : ℕ) (s : PeerState)
    → ((track forwarded rx s).last_rx_bytes ≡ some rx)
      × ((track forwarded rx s).direct_missed
          ≡ silent_ticks s.last_rx_bytes forwarded rx s.direct_missed)
unfolding track
track_counts forwarded rx s = elim (Option-cases s.last_rx_bytes) [
  | inl e ↦ (ground (arith, e), ground (arith, e))
  | inr (last, e) ↦ (ground (arith, e), ground (arith, e))
]

track-IsTicked :
    (forwarded : Bool) (rx : ℕ) (s : PeerState)
    → s.mode ≡ direct
    → IsRight s
    → IsTicked forwarded rx s (track forwarded rx s)
track-IsTicked forwarded rx s e right =
    let t = track forwarded rx s in
    let (counted, missed) = track_counts forwarded rx s in
    record {
      counted = counted;
      missed = missed;
      alive =
          subst (λ mode. HasAlive mode t.rx_alive t.direct_missed) (mode-track forwarded rx s ∙ e)
            (track-IsRight forwarded rx s e right);
      same_mode = mode-track forwarded rx s;
    }

rx_of-received : (stats : Dict PeerStats) (s : PeerState) → rx_of stats s ≡ received stats s
unfolding rx_of stats_key
rx_of-received stats s = elim (Option-cases (get stats (s.if_name ++ 9 ∷ s.pubkey))) [
  | inl e ↦ ground (arith, e)
  | inr (p, e) ↦ ground (arith, e)
]

tick_peer_direct :
    (frozen : Dict (Unit {0})) (stats : Dict PeerStats) (relay_forwarded : Dict (Unit {0}))
    (id : Text) (s : PeerState)
    → has frozen id ≡ false
    → s.mode ≡ direct
    → tick_peer frozen stats relay_forwarded id s
      ≡ track (has relay_forwarded id) (received stats s) s
unfolding tick_peer
tick_peer_direct frozen stats relay_forwarded id s warm on_direct =
    rw (warm, ap is_direct on_direct)
      (ap (λ rx. track (has relay_forwarded id) rx s) (rx_of-received stats s))

-- In every reached state, the second part of a tick notes for a direct peer that is not frozen the
-- bytes that the statistics have for it, adds one to its silent ticks unless these bytes are more
-- than those of the last tick and none came over the relay, which sets the silent ticks to 0 (the
-- first tick adds nothing), and leaves it alive just if its silent ticks are fewer than three.
pub track_peers-IsTicked :
    {m : Monitor} (now : ℕ) (fetched : Dict PeerStats) (relay_forwarded : Dict (Unit {0}))
    (peer_id : Text) (s : PeerState)
    → Reached m
    → get m.peer_states peer_id ≡ some s
    → s.mode ≡ direct
    → is_frozen m peer_id ≡ false
    → (t : PeerState) × (get (track_peers now fetched relay_forwarded m).peer_states peer_id
        ≡ some t)
      × IsTicked
          (has relay_forwarded peer_id)
          (received (get_cached_peer_stats now fetched m).0 s)
          s
          t
unfolding track_peers is_frozen
track_peers-IsTicked {m} now fetched relay_forwarded peer_id s reached known on_direct warm =
    let stats = (get_cached_peer_stats now fetched m).0 in
    let forwarded = has relay_forwarded peer_id in
    let (states, frozen) = cached_lem now fetched m in
    let cached = (get_cached_peer_stats now fetched m).1 in
    (
      track forwarded (received stats s) s,
      get-map_states (tick_peer cached.frozen_peers stats relay_forwarded) cached.peer_states
            peer_id s (ap (λ d. get d peer_id) states ∙ known)
          ∙ ap some (
              tick_peer_direct cached.frozen_peers stats relay_forwarded peer_id s
                (ap (λ d. has d peer_id) frozen ∙ warm) on_direct),
      track-IsTicked forwarded (received stats s) s on_direct
          (Reached-IsRight peer_id s reached known),
    )
