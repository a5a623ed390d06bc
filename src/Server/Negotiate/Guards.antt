-- ===== src/Server/Negotiate/Guards.antt =====
-- When a health report starts a relay probe.
use meshezia.Server.Negotiate.Keys.{parse_pair_key, pair_key}
use meshezia.Shared.Types.{probe_relay_serve, HealthReport}
use meshezia.Server.Negotiate.DirectProbe.{is_relay_enabled_for_peer}
use meshezia.Server.Negotiate.Timers.{set_with_timeout}
use meshezia.Server.Negotiate.Lifecycle.{
  get_or_create_health, is_relay_enabled_for_network, lookup_peer, put_health,
}
use meshezia.Server.Negotiate.RelayProbe.{
  client_node_of, server_node_of, new_relay_probe, initiate_relay_probe,
}
use meshezia.Server.Negotiate.Health.{
  is_relay, record_join, joined_at, health_after, reaches_threshold, in_grace, process_report,
  forced_mode_of, should_initiate_relay_probe, consider_relay_probe,
}
use meshezia.Server.State.{is_peer_connected, NegotiationState, send_msg, Server, PairHealth}
use meshezia.Common.{
  ◌↔◌, ℕ, ◌≤◌, Text, text_eq, text_eq_iff, text_eq_refl, Bool, true, false, none, some, ◌≡◌, refl,
  arith, inl, inr, Bool-cases, if◌then◌else◌,
}
use meshezia.Common.Dict.{get, has, get-set}

-- Both peers are connected, the relay is enabled in the network of the first, and the pair has no
-- forced mode, in its health or else in the database.
pub record IsClear (peer_a peer_b : Text) (h : PairHealth) (s : Server) : Type 0 where
  pub unforced : forced_mode_of peer_a peer_b h s.db ≡ none
  pub here : is_peer_connected s peer_a ≡ true
  pub there : is_peer_connected s peer_b ≡ true
  pub enabled : is_relay_enabled_for_peer s peer_a ≡ true

-- The negotiation that a relay probe begins with.
abbrev pub started : ℕ → Text → PairHealth → Server → NegotiationState
started now key h s = record (new_relay_probe now key h) { timeout_id = some s.probes.next_timer }

should_initiate-IsClear :
    (a b key : Text) (h : PairHealth) (s : Server)
    → (should_initiate_relay_probe a b key h s).0 ≡ true
    → (get s.probes.negotiations key ≡ none)
      × IsClear a b h s
      × ((should_initiate_relay_probe a b key h s).1 ≡ h)
unfolding should_initiate_relay_probe has
should_initiate-IsClear a b key h s e = ground arith

IsClear-should_initiate :
    (a b key : Text) (h : PairHealth) (s : Server)
    → get s.probes.negotiations key ≡ none
    → IsClear a b h s
    → should_initiate_relay_probe a b key h s ≡ (true, h)
unfolding should_initiate_relay_probe has
IsClear-should_initiate a b key h s idle c =
    rw idle (rw (c.unforced, should_initiate_relay_probe) (rw (c.here, c.there) (rw c.enabled)))

get-initiate :
    (now : ℕ) (key : Text) (h : PairHealth) (s : Server) (j : Text)
    → get (initiate_relay_probe now key h s).probes.negotiations j
      ≡ (if text_eq key j then some (started now key h s) else get s.probes.negotiations j)
unfolding initiate_relay_probe send_msg set_with_timeout
get-initiate now key h s j = get-set s.probes.negotiations key j (started now key h s)

consider_starts :
    (now : ℕ) (a b key : Text) (h : PairHealth) (s : Server) (j : Text) (n : NegotiationState)
    → get s.probes.negotiations j ≡ none
    → get (consider_relay_probe now a b key h s).probes.negotiations j ≡ some n
    → (j ≡ key) × IsClear a b h s × (n ≡ started now key h s)
unfolding consider_relay_probe put_health
consider_starts now a b key h s j n idle found =
    elim (Bool-cases (should_initiate_relay_probe a b key h s).0) [
      | inr no_probe ↦ absurd (ground arith)
      | inl probe ↦
          let (free, clear, same) = should_initiate-IsClear a b key h s probe in
          ground (
            arith,
            text_eq_iff key j,
            get-initiate now key (should_initiate_relay_probe a b key h s).1
                (put_health s key (should_initiate_relay_probe a b key h s).1) j,
          )
    ]

-- The health of a pair does not matter to the guards that read the server.
IsClear-put_health :
    (a b key : Text) (h h' : PairHealth) (s : Server)
    → IsClear a b h (put_health s key h') ↔ IsClear a b h s
unfolding put_health is_peer_connected is_relay_enabled_for_peer lookup_peer
    is_relay_enabled_for_network
IsClear-put_health a b key h h' s = (
  (λ c. record { unforced = c.unforced; here = c.here; there = c.there; enabled = c.enabled }),
  (λ c. record { unforced = c.unforced; here = c.here; there = c.there; enabled = c.enabled }),
)

module _ (now : ℕ) (from : Text) (report : HealthReport) (s : Server) where
  abbrev pub report_key : Text
  report_key = pair_key from report.peer_id

  abbrev pub report_side : Bool
  report_side = text_eq from (parse_pair_key report_key).0

  -- The pair's health once the report is counted.
  abbrev pub counted : PairHealth
  counted =
      health_after now report_side report s.settings.grace_period_ms
        (get_or_create_health s report_key)

  -- What has to be so for the report to start a relay probe.
  pub record Starts : Type 0 where
    pub no_grace :
        in_grace
          (joined_at report_side (record_join report_side now (get_or_create_health s report_key)))
          now
          s.settings.grace_period_ms
        ≡ false
    pub on_direct : is_relay report.mode ≡ false
    pub streak_ab : 3 ≤ counted.streak_ab
    pub streak_ba : 3 ≤ counted.streak_ba
    pub clear : IsClear from report.peer_id counted s

  reaches_threshold-Starts :
      reaches_threshold now report_side report s.settings.grace_period_ms
          (get_or_create_health s report_key)
        ≡ true
      → IsClear from report.peer_id counted s
      → Starts
  unfolding reaches_threshold
  reaches_threshold-Starts e c = ground arith

  Starts-reaches_threshold :
      Starts
      → reaches_threshold now report_side report s.settings.grace_period_ms
          (get_or_create_health s report_key)
        ≡ true
  unfolding reaches_threshold
  Starts-reaches_threshold c = ground arith

-- A health report starts a negotiation only for the pair of its sender and the peer that it is
-- about, only as a relay probe that begins now, and only if the grace period of the sender is over,
-- the report is of direct mode, both streaks, with the report counted, have come to 3, both peers
-- are connected, the relay is enabled in the sender's network and no mode is forced.
pub process_report-Starts :
    (now : ℕ) (from : Text) (report : HealthReport) (s : Server) (k : Text) (n : NegotiationState)
    → get s.probes.negotiations k ≡ none
    → get (process_report now from report s).probes.negotiations k ≡ some n
    → (k ≡ report_key now from report s)
      × Starts now from report s
      × (n ≡ started now k (counted now from report s) s)
unfolding process_report put_health
process_report-Starts now from report s k n idle found =
    let key = pair_key from report.peer_id in
    let h = counted now from report s in
    let noted = put_health s key h in
    elim (Bool-cases (
      reaches_threshold now (report_side now from report s) report s.settings.grace_period_ms
        (get_or_create_health s key))) [
          | inr short ↦ absurd (ground arith)
          | inl reached ↦
              let (here, clear, new) =
                consider_starts now from report.peer_id key h noted k n idle
                  (rw reached at found) in
              (
                here,
                reaches_threshold-Starts now from report s reached
                    ((IsClear-put_health from report.peer_id key h h s).0 clear),
                ground arith,
              )
        ]

-- Where the grace period of the sender is over, the report is of direct mode, both streaks have come
-- to 3, both peers are connected, the relay is enabled, no mode is forced and the pair has no
-- negotiation, the report does start the probe, and the one message that is sent, if the server node
-- is connected, tells it to serve the client node.
pub Starts-process_report :
    (now : ℕ) (from : Text) (report : HealthReport) (s : Server)
    → Starts now from report s
    → get s.probes.negotiations (report_key now from report s) ≡ none
    → (get (process_report now from report s).probes.negotiations (report_key now from report s)
        ≡ some (started now (report_key now from report s) (counted now from report s) s))
      × ((process_report now from report s).outbox
          ≡ (send_msg s
              (server_node_of (report_key now from report s) (counted now from report s))
              (probe_relay_serve (
                client_node_of (report_key now from report s) (counted now from report s)))).outbox)
unfolding process_report put_health consider_relay_probe initiate_relay_probe send_msg
    set_with_timeout
Starts-process_report now from report s c idle =
    let key = pair_key from report.peer_id in
    let h = counted now from report s in
    rw (Starts-reaches_threshold now from report s c) (
      rw
        (IsClear-should_initiate from report.peer_id key h (put_health s key h) idle
          ((IsClear-put_health from report.peer_id key h h s).1 c.clear))
        (rw get-set (rw (text_eq_refl key)), refl))
