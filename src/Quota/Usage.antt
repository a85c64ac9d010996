-- ===== src/Quota/Usage.antt =====
-- quota_fetch.go: `usageQuotaWindow` and `parseUsageBody`. The body comes decoded: `none` where
-- `json.Unmarshal` fails, and an `Option` for each pointer.
use codex_daily_prewarm.Base.{
  Bool, Option, String, abs_ℤ, if◌then◌else◌, ltb, ltb_ℤ, none, pos, some, ℕ, ℤ, ◌*◌, ◌+ℤ◌, ◌+◌,
  ◌-ℤ◌, ◌==◌, ◌>>=◌, ◌^◌, ◌||◌,
}
use codex_daily_prewarm.Clock.{Time, of_unix, unix}
use codex_daily_prewarm.Float.{Float64, finite, percent}
use codex_daily_prewarm.Notify.Windows.{window}
use codex_daily_prewarm.Quota.{QuotaObservation, QuotaWindow, five_hour_minutes, weekly_minutes}

pub record UsageWindow : Type 0 where
  pub used_percent : Option Float64
  pub reset_after_seconds : Option ℤ
  pub reset_at : Option ℤ

pub record UsageRateLimit : Type 0 where
  pub allowed : Option Bool
  pub primary_window : Option UsageWindow
  pub secondary_window : Option UsageWindow

-- The checks on a window whose three fields are there, once the percentage is finite.
unfoldable pub finite_window : ℤ → ℤ → ℤ → ℕ → Time → Option QuotaWindow
finite_window used seconds at minutes now =
    let limit = minutes * 60 in
    if ltb_ℤ used (pos 0)
      || ltb_ℤ (percent 100) used
      || ltb_ℤ seconds (pos 0)
      || ltb_ℤ (pos (limit + 60)) seconds
      || ltb_ℤ at (unix now -ℤ pos 60)
      || ltb_ℤ (unix now +ℤ pos (limit + 60)) at
    then none
    else if ltb 60 (abs_ℤ (at -ℤ unix now -ℤ seconds))
    then none
    else some (record {
      window_minutes = minutes;
      used_percent = used;
      reset_at = of_unix at;
      observed_at = now;
    })

-- NaN and the infinities are refused.
unfoldable pub checked_window : Float64 → ℤ → ℤ → ℕ → Time → Option QuotaWindow
unfolding finite_window
checked_window (finite used) seconds at minutes now = finite_window used seconds at minutes now
checked_window _ seconds at minutes now = none

unfoldable pub usage_quota_window : Option UsageWindow → ℕ → Time → Option QuotaWindow
unfolding checked_window
usage_quota_window input minutes now = do
  window ← input
  used ← window.used_percent
  seconds ← window.reset_after_seconds
  at ← window.reset_at
  checked_window used seconds at minutes now

pub data Fetched : Type 0 where
  observed : QuotaObservation → Fetched
  failed : String → Fetched

-- Both windows have to be there.
unfoldable pub windows_observation : Option QuotaWindow → Option QuotaWindow → Bool → Time → Fetched
windows_observation (some five) (some week) allowed now = observed (record {
  checked_at = now;
  five_hour = five;
  weekly = week;
  allowed = allowed;
  status = "confirmed";
})
windows_observation _ _ allowed now = failed "missing_quota_windows"

-- The decoded `rate_limit` and its `allowed`, both of which have to be there.
abbrev pub with_allowed : Option UsageRateLimit → Option (UsageRateLimit × Bool)
with_allowed limit = do l ← limit; a ← l.allowed; some (l, a)

unfoldable pub decoded_observation : Option UsageRateLimit → Time → Fetched
unfolding windows_observation
decoded_observation limit now = elim (with_allowed limit) [
  | none ↦ failed "invalid_usage_payload"
  | some (l, a) ↦
      windows_observation (usage_quota_window l.primary_window five_hour_minutes now)
        (usage_quota_window l.secondary_window weekly_minutes now) a now
]

-- `size` is `len(body)`; `limit` is what the decoding gives, with `none` for a decoding error.
unfoldable pub parse_usage_body : ℕ → Option UsageRateLimit → Time → Fetched
unfolding decoded_observation
parse_usage_body size limit now =
    if size == 0 || ltb (2 ^ 20) size
    then failed "invalid_usage_size"
    else decoded_observation limit now
