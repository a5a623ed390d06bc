-- ===== src/Server/Steps/Backoff.antt =====
-- The backoff of direct probes stays in its range.
use meshezia.Server.Steps.Everywhere.Reached.{Reach-Holds}
use meshezia.Server.Steps.Everywhere.{Rules}
use meshezia.Server.Steps.{Reach}
use meshezia.Shared.Types.{auto, forced, ForceMode}
use meshezia.Server.Negotiate.Health.{update_streak, record_join}
use meshezia.Server.Negotiate.RelayProbe.{reset_streaks}
use meshezia.Server.Db.{Db}
use meshezia.Server.Negotiate.Lifecycle.{direct_probe_backoff_max_ms, back_off, new_health}
use meshezia.Server.State.{initial, Server, PairHealth, Settings}
use meshezia.Server.Negotiate.Force.{force_health}
use meshezia.Shared.Protocol.{Utf8}
use meshezia.Common.{◌≤◌, min, max, Text, some, ◌≡◌, arith}
use meshezia.Common.Dict.{get}

-- Between the first value and the cap, in whichever order the settings put them.
abbrev pub IsBackoff : Settings → PairHealth → Type 0
IsBackoff st h =
    (min st.direct_probe_backoff_init_ms direct_probe_backoff_max_ms ≤ h.direct_probe_backoff)
    × (h.direct_probe_backoff ≤ max st.direct_probe_backoff_init_ms direct_probe_backoff_max_ms)

forced-IsBackoff :
    (st : Settings) (h : PairHealth) (mode : ForceMode)
    → IsBackoff st h
    → IsBackoff st (force_health st.direct_probe_backoff_init_ms mode h)
unfolding force_health reset_streaks
forced-IsBackoff st h (forced mode) q = q
forced-IsBackoff st h auto q = omega arith

IsBackoff-rules : (st : Settings) → Rules st (λ k n. Unit {0}) (λ k h. IsBackoff st h)
unfolding new_health back_off reset_streaks force_health record_join update_streak
IsBackoff-rules st = record {
  relay = λ now k h i. tt;
  direct = λ now k i. tt;
  retimed = λ k n i p. tt;
  ready = λ k n b r p. tt;
  result = λ k n b r p. tt;
  fresh = λ k s e. rw e (omega arith);
  backed = λ k h q. omega arith;
  restored = λ k h q. omega arith;
  reset = λ k h q. q;
  imposed = λ k h mode q. forced-IsBackoff st h mode q;
  synced = λ k h mode q. q;
  marked = λ k h now q. q;
  joined = λ k h b now q. q;
  streaked = λ k h b alive q. q;
}

-- In every reachable state, the backoff of every pair lies between the smaller and the larger of
-- its first value and the cap of 240 seconds.
pub Reach-IsBackoff :
    (utf8 : Utf8) (st : Settings) (db : Db) {t : Server} (key : Text) (h : PairHealth)
    → Reach utf8 (initial st db) t
    → get t.pair_health key ≡ some h
    → IsBackoff st h
Reach-IsBackoff utf8 st db key h reached found =
    (Reach-Holds st _ _ (IsBackoff-rules st) utf8 db reached).healths key h found
