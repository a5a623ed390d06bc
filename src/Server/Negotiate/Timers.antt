-- ===== src/Server/Negotiate/Timers.antt =====
-- `setTimeout`, `clearTimeout` and `activeNegotiations`, as the module uses them together.
pub mod Ownership
use meshezia.Common.{◌≡◌, refl, ℕ, suc, Text, Option, none, some, ◌==◌, if◌then◌else◌}
use meshezia.Common.Dict.{get, set, delete}
use meshezia.Server.State.{NegotiationState, Callback, Timer, Probes}

abbrev pub update : (ℕ → Option Timer) → ℕ → Option Timer → ℕ → Option Timer
update f i t j = if i == j then t else f j

-- `if (neg.timeoutId) clearTimeout(neg.timeoutId)`
unfoldable pub clear_timeout : Option ℕ → Probes → Probes
clear_timeout none p = p
clear_timeout (some i) p = record p { timers = update p.timers i none }

pub negotiations-clear_timeout :
    (timeout_id : Option ℕ) (p : Probes)
    → (clear_timeout timeout_id p).negotiations ≡ p.negotiations
unfolding clear_timeout
negotiations-clear_timeout none p = refl
negotiations-clear_timeout (some i) p = refl

-- `activeNegotiations.set(key, neg)` with `neg.timeoutId = setTimeout(callback, due - now)`. The
-- object is shared with the map, so the map holds it with its timer.
unfoldable pub set_with_timeout : Text → NegotiationState → ℕ → Callback → Probes → Probes
set_with_timeout key neg due callback p = record p {
  negotiations = set p.negotiations key (record neg { timeout_id = some p.next_timer });
  timers = update p.timers p.next_timer (some (record { due = due; callback = callback }));
  next_timer = suc p.next_timer;
}

-- `finishNegotiation`
unfoldable pub finish : Text → Probes → Probes
unfolding clear_timeout
finish key p = elim (get p.negotiations key) [
  | none ↦ p
  | some neg ↦ record (clear_timeout neg.timeout_id p) { negotiations = delete p.negotiations key }
]
