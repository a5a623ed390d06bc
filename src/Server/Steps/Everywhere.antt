-- ===== src/Server/Steps/Everywhere.antt =====
-- A property of every negotiation and one of every pair's health hold in every reachable state, if
-- what the program does to a single negotiation or health keeps them.
pub mod Handlers
pub mod Replies
pub mod Starts
pub mod Reached
use meshezia.Server.Negotiate.Lifecycle.Laws.{abort_negotiation_found, abort_negotiation_idle}
use meshezia.Common.{
  ℕ, Text, text_eq_iff, Bool, true, false, Option, none, some, List, [], ◌∷◌, ◌≡◌, refl, arith, inl,
  inr, Option-cases,
}
use meshezia.Common.Dict.{Dict, get, set, delete, get-set, get-delete}
use meshezia.Server.State.{
  send_msg, Settings, PairHealth, NegotiationState, Ready, Callback, Probes, Server,
}
use meshezia.Server.Negotiate.Timers.{finish, set_with_timeout, clear_timeout}
use meshezia.Server.Negotiate.Lifecycle.{
  abort_negotiation, finish_negotiation, change_health, put_health, get_or_create_health,
  new_health, back_off,
}
use meshezia.Server.Negotiate.RelayProbe.{conclude, new_relay_probe, reset_streaks}
use meshezia.Server.Negotiate.DirectProbe.{new_direct_probe, set_ready, set_result}
use meshezia.Server.Negotiate.Health.{record_join, update_streak}
use meshezia.Server.Negotiate.Force.{force_health}
use meshezia.Shared.Types.{Reason, Action, ForcedMode, ForceMode}

abbrev pub AllEntries {κ} : {V : Type 0} → (Text → V → Type κ) → Dict V → Type κ
AllEntries {V} P m = (k : Text) (v : V) → get m k ≡ some v → P k v

module _ {V : Type 0} (P : Text → V → Type 0) where
  pub set-AllEntries :
      (m : Dict V) (k : Text) (v : V) → P k v → AllEntries P m → AllEntries P (set m k v)
  set-AllEntries m k v p a j w h = ground (arith, get-set m k j v, text_eq_iff k j, a j w)

  pub delete-AllEntries : (m : Dict V) (k : Text) → AllEntries P m → AllEntries P (delete m k)
  delete-AllEntries m k a j w h = ground (arith, get-delete m k j, a j w)

module _ (st : Settings) (P : Text → NegotiationState → Type 0)
    (Q : Text → PairHealth → Type 0) where
  -- What the program does to one negotiation and to one health.
  pub record Rules : Type 0 where
    pub relay :
        (now : ℕ) (k : Text) (h : PairHealth) (i : ℕ)
        → P k (record (new_relay_probe now k h) { timeout_id = some i })
    pub direct :
        (now : ℕ) (k : Text) (i : ℕ) → P k (record (new_direct_probe now k) { timeout_id = some i })
    pub retimed :
        (k : Text) (n : NegotiationState) (i : ℕ) → P k n → P k (record n { timeout_id = some i })
    pub ready :
        (k : Text) (n : NegotiationState) (b : Bool) (r : Ready) → P k n → P k (set_ready b r n)
    pub result : (k : Text) (n : NegotiationState) (b r : Bool) → P k n → P k (set_result b r n)
    pub fresh : (k : Text) (s : Server) → s.settings ≡ st → Q k (new_health s)
    pub backed : (k : Text) (h : PairHealth) → Q k h → Q k (back_off h)
    pub restored :
        (k : Text) (h : PairHealth)
        → Q k h
        → Q k (record h { direct_probe_backoff = st.direct_probe_backoff_init_ms })
    pub reset : (k : Text) (h : PairHealth) → Q k h → Q k (reset_streaks h)
    pub imposed :
        (k : Text) (h : PairHealth) (mode : ForceMode)
        → Q k h
        → Q k (force_health st.direct_probe_backoff_init_ms mode h)
    pub synced :
        (k : Text) (h : PairHealth) (mode : ForcedMode)
        → Q k h
        → Q k (record h { forced_mode = some mode })
    pub marked :
        (k : Text) (h : PairHealth) (now : ℕ)
        → Q k h
        → Q k (record h { last_direct_probe_at = now })
    pub joined :
        (k : Text) (h : PairHealth) (b : Bool) (now : ℕ) → Q k h → Q k (record_join b now h)
    pub streaked :
        (k : Text) (h : PairHealth) (b alive : Bool) → Q k h → Q k (update_streak b alive h)

  pub record Holds (s : Server) : Type 0 where
    pub fixed : s.settings ≡ st
    pub negs : AllEntries P s.probes.negotiations
    pub healths : AllEntries Q s.pair_health

  pub finish-negs :
      (key : Text) (p : Probes)
      → AllEntries P p.negotiations
      → AllEntries P (finish key p).negotiations
  unfolding finish
  finish-negs key p a = elim (Option-cases (get p.negotiations key)) [
    | inl e ↦ rw (e, finish) a
    | inr (n, e) ↦ rw (e, finish) (delete-AllEntries P p.negotiations key a)
  ]

  pub change_health-all :
      (f : PairHealth → PairHealth) (key : Text) (m : Dict PairHealth)
      → ((h : PairHealth) → Q key h → Q key (f h))
      → AllEntries Q m
      → AllEntries Q (change_health f key m)
  unfolding change_health
  change_health-all f key m keeps a = elim (Option-cases (get m key)) [
    | inl e ↦ rw (e, change_health) a
    | inr (h, e) ↦ rw (e, change_health) (set-AllEntries Q m key (f h) (keeps h (a key h e)) a)
  ]

  module _ (r : Rules) where
    pub get_or_create-all : (s : Server) (key : Text) → Holds s → Q key (get_or_create_health s key)
    unfolding get_or_create_health
    get_or_create-all s key v = elim (Option-cases (get s.pair_health key)) [
      | inl e ↦ rw (e, get_or_create_health) (r.fresh key s v.fixed)
      | inr (h, e) ↦ rw (e, get_or_create_health) (v.healths key h e)
    ]

    pub put_health-Holds :
        (s : Server) (key : Text) (h : PairHealth) → Q key h → Holds s → Holds (put_health s key h)
    unfolding put_health
    put_health-Holds s key h q v = record {
      fixed = v.fixed;
      negs = v.negs;
      healths = set-AllEntries Q s.pair_health key h q v.healths;
    }

    pub conclude-Holds :
        (key : Text) (neg : NegotiationState) (action : Action) (f : PairHealth → PairHealth)
        (s : Server)
        → ((h : PairHealth) → Q key h → Q key (f h))
        → Holds s
        → Holds (conclude key neg action f s)
    unfolding conclude send_msg
    conclude-Holds key neg action f s keeps v = record {
      fixed = v.fixed;
      negs = finish-negs key s.probes v.negs;
      healths = change_health-all f key s.pair_health keeps v.healths;
    }

    pub abort_negotiation-Holds :
        (key : Text) (reason : Reason) (s : Server)
        → Holds s
        → Holds (abort_negotiation key reason s)
    unfolding finish_negotiation send_msg
    abort_negotiation-Holds key reason s v = elim (Option-cases (get s.probes.negotiations key)) [
      | inl e ↦ rw (abort_negotiation_idle key reason s e) v
      | inr (neg, e) ↦
          rw (abort_negotiation_found key reason s neg e) (record {
            fixed = v.fixed;
            negs = finish-negs key s.probes v.negs;
            healths = v.healths;
          })
    ]
