-- ===== src/Server/Steps/Everywhere/Starts.antt =====
-- Each operation keeps what its parts keep: health reports and forced modes.
use meshezia.Server.Steps.Everywhere.Handlers.{Holds-if}
use meshezia.Server.Negotiate.Lifecycle.{put_health, get_or_create_health}
use meshezia.Server.Negotiate.Keys.{parse_pair_key, pair_key}
use meshezia.Server.Negotiate.Timers.{set_with_timeout}
use meshezia.Shared.Types.{ForceMode, HealthReport}
use meshezia.Server.Negotiate.Force.{abort_for_force, handle_force_mode}
use meshezia.Server.Negotiate.RelayProbe.{initiate_relay_probe}
use meshezia.Server.Negotiate.Health.{
  reaches_threshold, record_join, forced_mode_of, process_report, consider_relay_probe,
  health_after, should_initiate_relay_probe, process_reports,
}
use meshezia.Server.Steps.Everywhere.{
  finish-negs, get_or_create-all, put_health-Holds, set-AllEntries, Holds, Rules,
}
use meshezia.Server.State.{send_msg, Server, PairHealth, NegotiationState, Settings}
use meshezia.Common.{
  ℕ, Text, text_eq, Bool, List, [], ◌∷◌, arith, inl, inr, Option-cases, Bool-cases,
}
use meshezia.Common.Dict.{has, get}

module _ (st : Settings) (P : Text → NegotiationState → Type 0) (Q : Text → PairHealth → Type 0)
    (r : Rules st P Q) where
  initiate_relay_probe-Holds :
      (now : ℕ) (key : Text) (h : PairHealth) (s : Server)
      → Holds st P Q s
      → Holds st P Q (initiate_relay_probe now key h s)
  unfolding initiate_relay_probe send_msg set_with_timeout
  initiate_relay_probe-Holds now key h s v = record {
    fixed = v.fixed;
    negs =
        set-AllEntries P s.probes.negotiations key _ (r.relay now key h s.probes.next_timer) v.negs;
    healths = v.healths;
  }

  synced-keeps :
      (from peer key : Text) (h : PairHealth) (s : Server)
      → Q key h
      → Q key (should_initiate_relay_probe from peer key h s).1
  unfolding should_initiate_relay_probe
  synced-keeps from peer key h s q = elim (Bool-cases (has s.probes.negotiations key)) [
    | inl busy ↦ rw busy q
    | inr idle ↦ elim (Option-cases (forced_mode_of from peer h s.db)) [
      | inl e ↦ rw idle (rw (e, should_initiate_relay_probe) q)
      | inr (mode, e) ↦ rw idle (rw (e, should_initiate_relay_probe) (r.synced key h mode q))
    ]
  ]

  consider_relay_probe-Holds :
      (now : ℕ) (from peer key : Text) (h : PairHealth) (s : Server)
      → Q key h
      → Holds st P Q s
      → Holds st P Q (consider_relay_probe now from peer key h s)
  unfolding consider_relay_probe
  consider_relay_probe-Holds now from peer key h s q v =
      let noted = put_health-Holds st P Q r s key _ (synced-keeps from peer key h s q) v in
      Holds-if st P Q r (should_initiate_relay_probe from peer key h s).0 _ _
        (initiate_relay_probe-Holds now key _ _ noted) noted

  health_after-keeps :
      (now : ℕ) (b : Bool) (report : HealthReport) (grace : ℕ) (key : Text) (h : PairHealth)
      → Q key h
      → Q key (health_after now b report grace h)
  unfolding health_after
  health_after-keeps now b report grace key h q =
      let joined = r.joined key h b now q in
      ground (arith, joined, r.streaked key (record_join b now h) b report.rx_alive joined)

  pub process_reports-Holds :
      (now : ℕ) (from : Text) (reports : List HealthReport) (s : Server)
      → Holds st P Q s
      → Holds st P Q (process_reports now from reports s)
  unfolding process_reports process_report
  process_reports-Holds now from [] s v = v
  process_reports-Holds now from (report ∷ reports) s v =
      let key = pair_key from report.peer_id in
      let b = text_eq from (parse_pair_key key).0 in
      let q =
        health_after-keeps now b report s.settings.grace_period_ms key _
          (get_or_create-all st P Q r s key v) in
      let noted = put_health-Holds st P Q r s key _ q v in
      process_reports-Holds now from reports (process_report now from report s) (
        Holds-if st P Q r
          (reaches_threshold now b report s.settings.grace_period_ms (get_or_create_health s key)) _
          _ (consider_relay_probe-Holds now from report.peer_id key _ _ q noted) noted)

  abort_for_force-Holds :
      (key : Text) (s : Server) → Holds st P Q s → Holds st P Q (abort_for_force key s)
  unfolding abort_for_force send_msg
  abort_for_force-Holds key s v = elim (Option-cases (get s.probes.negotiations key)) [
    | inl e ↦ rw (e, abort_for_force) v
    | inr (neg, e) ↦
        rw (e, abort_for_force)
          (record {
            fixed = v.fixed;
            negs = finish-negs st P Q key s.probes v.negs;
            healths = v.healths;
          })
  ]

  pub handle_force_mode-Holds :
      (a b : Text) (mode : ForceMode) (s : Server)
      → Holds st P Q s
      → Holds st P Q (handle_force_mode a b mode s)
  unfolding handle_force_mode send_msg put_health
  handle_force_mode-Holds a b mode s v =
      let key = pair_key a b in
      let w = abort_for_force-Holds key s v in
      let q = r.imposed key _ mode (get_or_create-all st P Q r (abort_for_force key s) key w) in
      record {
        fixed = w.fixed;
        negs = w.negs;
        healths =
            set-AllEntries Q (abort_for_force key s).pair_health key _ (rw w.fixed q) w.healths;
      }
