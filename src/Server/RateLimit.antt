-- ===== src/Server/RateLimit.antt =====
-- The rate limit of packages/server/src/index.ts: a fixed window for each address.
pub mod Window
use meshezia.Common.{
  ℕ, suc, zero, ◌+◌, Text, Bool, true, false, Option, none, some, List, [], ◌∷◌, ltb, if◌then◌else◌,
}
use meshezia.Common.Dict.{Dict, get, set, delete}

pub record RateEntry : Type 0 where
  pub count : ℕ
  pub reset_at : ℕ

-- `RATE_WINDOW_MS` and `RATE_MAX_REQUESTS`, which the environment may set.
pub record RateSettings : Type 0 where
  pub rate_window_ms : ℕ
  pub rate_max_requests : ℕ

fresh_entry : RateSettings → ℕ → RateEntry
fresh_entry r now = record { count = 0; reset_at = now + r.rate_window_ms }

-- The entry that counts the request: a new one if there is none or its window is over.
unfoldable pub current_entry : RateSettings → ℕ → Option RateEntry → RateEntry
unfolding fresh_entry
current_entry r now none = fresh_entry r now
current_entry r now (some entry) = if ltb entry.reset_at now then fresh_entry r now else entry

-- The new map, and whether the request is turned away (429).
unfoldable pub check_rate_limit :
    RateSettings → ℕ → (ip : Text) → Dict RateEntry → Dict RateEntry × Bool
unfolding current_entry
check_rate_limit r now ip rate_map =
    let entry = current_entry r now (get rate_map ip) in
    (
      set rate_map ip (record entry { count = suc entry.count }),
      ltb r.rate_max_requests (suc entry.count),
    )

delete_over : ℕ → Dict RateEntry → Dict RateEntry → Dict RateEntry
delete_over now [] rate_map = rate_map
delete_over now ((ip, entry) ∷ rest) rate_map =
    delete_over now rest (if ltb entry.reset_at now then delete rate_map ip else rate_map)

-- The callback of `rateLimitCleanupTimer`.
unfoldable pub cleanup_rate_map : ℕ → Dict RateEntry → Dict RateEntry
unfolding delete_over
cleanup_rate_map now rate_map = delete_over now rate_map rate_map
