-- ===== src/Server/Negotiate/Timers/Ownership.antt =====
-- Timers and negotiations go together.
use meshezia.Common.{
  ℕ, ◌≤◌, Text, text_eq_iff, Option, none, some, ◌≡◌, arith, is_some, true, Option-cases, inl, inr,
}
use meshezia.Common.Dict.{get, set, delete, get-set, get-delete}
use meshezia.Server.State.{
  NegotiationState, Callback, relay_timeout, direct_ready_timeout, direct_result_timeout, Timer,
  Probes,
}
use meshezia.Server.Negotiate.Timers.{update, clear_timeout, set_with_timeout, finish}

-- The pair that a callback is about.
abbrev pub callback_key : Callback → Text
callback_key (relay_timeout k) = k
callback_key (direct_ready_timeout k) = k
callback_key (direct_result_timeout k) = k

abbrev pub timer_key : Option Timer → Option Text
timer_key none = none
timer_key (some t) = some (callback_key t.callback)

abbrev pub timer_key_at : (ℕ → Option Timer) → Option ℕ → Option Text
timer_key_at f none = none
timer_key_at f (some i) = timer_key (f i)

abbrev pub timeout_of : Option NegotiationState → Option ℕ
timeout_of none = none
timeout_of (some n) = n.timeout_id

-- Each negotiation has a timer that waits and is about its pair; each timer that waits is that of
-- the negotiation of its pair; and the next number is free.
pub record IsOwned (p : Probes) : Type 0 where
  pub kept :
      (k : Text)
      → is_some (get p.negotiations k) ≡ true
      → timer_key_at p.timers (timeout_of (get p.negotiations k)) ≡ some k
  pub owner :
      (i : ℕ) (k : Text)
      → timer_key (p.timers i) ≡ some k
      → timeout_of (get p.negotiations k) ≡ some i
  pub fresh : (i : ℕ) → p.next_timer ≤ i → p.timers i ≡ none

pub set_with_timeout-IsOwned :
    (key : Text) (neg : NegotiationState) (due : ℕ) (cb : Callback) (p : Probes)
    → callback_key cb ≡ key
    → get p.negotiations key ≡ none
    → IsOwned p
    → IsOwned (set_with_timeout key neg due cb p)
unfolding set_with_timeout
set_with_timeout-IsOwned key neg due cb p about idle v = record {
  kept = λ k h. ground (
    arith,
    get-set p.negotiations key k (record neg { timeout_id = some p.next_timer }),
    text_eq_iff key k,
    v.kept k,
    v.fresh p.next_timer,
    v.owner p.next_timer k,
  );
  owner = λ i k h. ground (
    arith,
    get-set p.negotiations key k (record neg { timeout_id = some p.next_timer }),
    text_eq_iff key k,
    v.owner i k,
    v.fresh p.next_timer,
  );
  fresh = λ i h. ground (arith, v.fresh i);
}

-- The negotiation's timer goes with it.
finish-IsOwned_found :
    (key : Text) (neg : NegotiationState) (p : Probes)
    → get p.negotiations key ≡ some neg
    → IsOwned p
    → IsOwned (record (clear_timeout neg.timeout_id p) { negotiations = delete p.negotiations key })
unfolding clear_timeout
finish-IsOwned_found key neg p e v = record {
  kept = λ k h.
      ground (arith, get-delete p.negotiations key k, text_eq_iff key k, v.kept key, v.kept k);
  owner = λ i k h.
      ground (arith, get-delete p.negotiations key k, text_eq_iff key k, v.kept key, v.owner i k);
  fresh = λ i h. ground (arith, v.fresh i, v.kept key);
}

pub finish-IsOwned : (key : Text) (p : Probes) → IsOwned p → IsOwned (finish key p)
unfolding finish
finish-IsOwned key p v = elim (Option-cases (get p.negotiations key)) [
  | inl e ↦ rw (e, finish) v
  | inr (neg, e) ↦ rw (e, finish) (finish-IsOwned_found key neg p e v)
]

-- A negotiation whose timer is replaced by a new one.
pub replace_timeout-IsOwned :
    (key : Text) (neg neg' : NegotiationState) (due : ℕ) (cb : Callback) (p : Probes)
    → callback_key cb ≡ key
    → get p.negotiations key ≡ some neg
    → IsOwned p
    → IsOwned (set_with_timeout key neg' due cb (clear_timeout neg.timeout_id p))
unfolding set_with_timeout clear_timeout
replace_timeout-IsOwned key neg neg' due cb p about e v = record {
  kept = λ k h. ground (
    arith,
    get-set p.negotiations key k (record neg' { timeout_id = some p.next_timer }),
    text_eq_iff key k,
    v.kept k,
    v.kept key,
    v.fresh p.next_timer,
    v.owner p.next_timer k,
  );
  owner = λ i k h. ground (
    arith,
    get-set p.negotiations key k (record neg' { timeout_id = some p.next_timer }),
    text_eq_iff key k,
    v.owner i k,
    v.kept key,
    v.fresh p.next_timer,
  );
  fresh = λ i h. ground (arith, v.fresh i, v.kept key);
}

-- A negotiation whose other fields change.
pub set_neg-IsOwned :
    (key : Text) (neg neg' : NegotiationState) (p : Probes)
    → get p.negotiations key ≡ some neg
    → neg'.timeout_id ≡ neg.timeout_id
    → IsOwned p
    → IsOwned (record p { negotiations = set p.negotiations key neg' })
set_neg-IsOwned key neg neg' p e same v = record {
  kept = λ k h.
      ground (arith, get-set p.negotiations key k neg', text_eq_iff key k, v.kept k, v.kept key);
  owner = λ i k h.
      ground (arith, get-set p.negotiations key k neg', text_eq_iff key k, v.owner i k, v.kept key);
  fresh = v.fresh;
}

-- A timer that fires is gone, and ending the negotiation of its pair leaves no trace of either.
pub finish-IsOwned_fired :
    (i : ℕ) (t : Timer) (p : Probes)
    → p.timers i ≡ some t
    → IsOwned p
    → IsOwned (finish (callback_key t.callback) (record p { timers = update p.timers i none }))
unfolding finish clear_timeout
finish-IsOwned_fired i t p e v =
    elim (Option-cases (get p.negotiations (callback_key t.callback))) [
      | inl lost ↦ absurd (ground (arith, v.owner i (callback_key t.callback)))
      | inr (neg, found) ↦
          let held : neg.timeout_id ≡ some i =
            ground (arith, v.owner i (callback_key t.callback)) in
          rw (found, finish)
            (rw (held, clear_timeout)
              (record {
                kept = λ k h. ground (
                  arith,
                  get-delete p.negotiations (callback_key t.callback) k,
                  text_eq_iff (callback_key t.callback) k,
                  v.kept k,
                  v.owner i k,
                );
                owner = λ j k h. ground (
                  arith,
                  get-delete p.negotiations (callback_key t.callback) k,
                  text_eq_iff (callback_key t.callback) k,
                  v.owner j k,
                  v.kept k,
                );
                fresh = λ j h. ground (arith, v.fresh j);
              }))
    ]

-- A negotiation that ends when its timer is cleared already.
pub finish-IsOwned_cleared :
    (key : Text) (neg : NegotiationState) (p : Probes)
    → get p.negotiations key ≡ some neg
    → IsOwned p
    → IsOwned (finish key (clear_timeout neg.timeout_id p))
unfolding finish clear_timeout
finish-IsOwned_cleared key neg p e v = elim (Option-cases neg.timeout_id) [
  | inl idle ↦ rw (idle, clear_timeout) (finish-IsOwned key p v)
  | inr (i, held) ↦
      rw (held, clear_timeout)
        (rw (e, finish)
          (rw (held, clear_timeout)
            (record {
              kept = λ k h.
                  ground (
                    arith,
                    get-delete p.negotiations key k,
                    text_eq_iff key k,
                    v.kept key,
                    v.kept k,
                  );
              owner = λ j k h. ground (
                arith,
                get-delete p.negotiations key k,
                text_eq_iff key k,
                v.kept key,
                v.owner j k,
              );
              fresh = λ j h. ground (arith, v.fresh j, v.kept key);
            })))
]
