-- ===== src/Server/Negotiate/Ownership/Fired.antt =====
-- A timer that goes off keeps timers and negotiations together.
use meshezia.Common.{subst, ℕ, none, some, ◌≡◌, refl, inl, inr, arith, Option-cases}
use meshezia.Common.Dict.{get}
use meshezia.Shared.Types.{timeout}
use meshezia.Server.State.{
  Callback, Timer, relay_timeout, direct_ready_timeout, direct_result_timeout, Server, send_msg,
}
use meshezia.Server.Negotiate.Timers.{update}
use meshezia.Server.Negotiate.Timers.Ownership.{callback_key, IsOwned, finish-IsOwned_fired}
use meshezia.Server.Negotiate.Lifecycle.{finish_negotiation, abort_negotiation}
use meshezia.Server.Negotiate.Lifecycle.Laws.{abort_negotiation_found}
use meshezia.Server.Negotiate.DirectProbe.{on_direct_ready_timeout, on_direct_result_timeout}
use meshezia.Server.Negotiate.Router.{run_callback, fire}

module _ (i : ℕ) (t : Timer) (s : Server) (waits : s.probes.timers i ≡ some t)
    (v : IsOwned s.probes) where
  -- The server in which the callback runs.
  abbrev fired : Server
  fired = record s { probes = record s.probes { timers = update s.probes.timers i none } }

  -- The callback of a relay probe finds its negotiation.
  relay_timeout-IsOwned : IsOwned (abort_negotiation (callback_key t.callback) timeout fired).probes
  unfolding finish_negotiation send_msg
  relay_timeout-IsOwned =
      elim (Option-cases (get s.probes.negotiations (callback_key t.callback))) [
        | inl lost ↦ absurd (ground (arith, v.owner i (callback_key t.callback)))
        | inr (neg, e) ↦
            rw (abort_negotiation_found (callback_key t.callback) timeout fired neg e)
              (finish-IsOwned_fired i t s.probes waits v)
      ]

  direct_ready_timeout-IsOwned :
      IsOwned (on_direct_ready_timeout (callback_key t.callback) fired).probes
  unfolding on_direct_ready_timeout send_msg
  direct_ready_timeout-IsOwned = ground (arith, finish-IsOwned_fired i t s.probes waits v)

  direct_result_timeout-IsOwned :
      IsOwned (on_direct_result_timeout (callback_key t.callback) fired).probes
  unfolding on_direct_result_timeout send_msg
  direct_result_timeout-IsOwned = finish-IsOwned_fired i t s.probes waits v

  run_callback-IsOwned :
      (cb : Callback)
      → callback_key t.callback ≡ callback_key cb
      → IsOwned (run_callback cb fired).probes
  unfolding run_callback
  run_callback-IsOwned (relay_timeout key) e =
      subst (λ k. IsOwned (abort_negotiation k timeout fired).probes) e relay_timeout-IsOwned
  run_callback-IsOwned (direct_ready_timeout key) e =
      subst (λ k. IsOwned (on_direct_ready_timeout k fired).probes) e direct_ready_timeout-IsOwned
  run_callback-IsOwned (direct_result_timeout key) e =
      subst (λ k. IsOwned (on_direct_result_timeout k fired).probes) e direct_result_timeout-IsOwned

-- A timer that goes off.
pub fire-IsOwned :
    (i : ℕ) (t : Timer) (s : Server)
    → s.probes.timers i ≡ some t
    → IsOwned s.probes
    → IsOwned (fire i t s).probes
unfolding fire
fire-IsOwned i t s e v = run_callback-IsOwned i t s e v t.callback refl
