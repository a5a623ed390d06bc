-- ===== src/Server/RateLimit/Window.antt =====
-- How many requests of an address pass in one window.
use meshezia.Common.{
  ℕ, suc, ◌-◌, ◌≤◌, Text, text_eq, text_eq_iff, true, some, List, [], ◌∷◌, ◌≡◌, ◌∙◌, refl, ltb, All,
  if◌then◌else◌, arith, Bool-cases, inl, inr,
}
use meshezia.Common.Dict.{Dict, get, get-set}
use meshezia.Server.RateLimit.{RateEntry, RateSettings, check_rate_limit, current_entry}

-- Of a sequence of requests, each with its time and its address, the number of those of one address
-- that are let through.
unfoldable pub let_through : RateSettings → Text → List (ℕ × Text) → Dict RateEntry → ℕ
let_through r ip [] m = 0
let_through r ip ((now, from) ∷ rest) m =
    let (m', turned_away) = check_rate_limit r now from m in
    let others = let_through r ip rest m' in
    if text_eq from ip then (if turned_away then others else suc others) else others

get-check_rate_limit :
    (r : RateSettings) (now : ℕ) (from : Text) (m : Dict RateEntry) (ip : Text) (e : RateEntry)
    → get m ip ≡ some e
    → now ≤ e.reset_at
    → get (check_rate_limit r now from m).0 ip
      ≡ some (if text_eq from ip then record e { count = suc e.count } else e)
unfolding check_rate_limit current_entry
get-check_rate_limit r now from m ip e h t = ground (
  arith,
  text_eq_iff from ip,
  get-set m from ip (record (current_entry r now (get m from)) {
    count = suc (current_entry r now (get m from)).count;
  }),
)

turned_away_lem :
    (r : RateSettings) (now : ℕ) (from : Text) (m : Dict RateEntry) (ip : Text) (e : RateEntry)
    → text_eq from ip ≡ true
    → get m ip ≡ some e
    → now ≤ e.reset_at
    → (check_rate_limit r now from m).1 ≡ ltb r.rate_max_requests (suc e.count)
unfolding check_rate_limit current_entry
turned_away_lem r now from m ip e own h t = ground (arith, text_eq_iff from ip)

-- While the window of an address's entry lasts, no more of the address's requests pass than its
-- count leaves of the maximum, whatever other addresses request in between.
pub let_through_bound :
    (r : RateSettings) (ip : Text) (events : List (ℕ × Text)) (m : Dict RateEntry) (e : RateEntry)
    → get m ip ≡ some e
    → All (λ (event : ℕ × Text). event.0 ≤ e.reset_at) events
    → let_through r ip events m ≤ r.rate_max_requests - e.count
unfolding let_through
let_through_bound r ip [] m e h t = omega arith
let_through_bound r ip ((now, from) ∷ rest) m e h t = elim (Bool-cases (text_eq from ip)) [
  | inr other ↦ rw other (
      let_through_bound r ip rest _ e (get-check_rate_limit r now from m ip e h t.0 ∙ rw other refl)
        t.1)
  | inl own ↦
      let counted = record e { count = suc e.count } in
      let rest_bound =
        let_through_bound r ip rest (check_rate_limit r now from m).0 counted
          (get-check_rate_limit r now from m ip e h t.0 ∙ rw own refl) t.1 in
      rw (own, turned_away_lem r now from m ip e own h t.0) (ground arith)
]
