-- ===== src/Quota.antt =====
-- quota.go and quota_fetch.go: the quota data, and the tests on a pair of observations.
pub mod Usage
pub mod Headers
pub mod Confirm
pub mod Fetch
pub mod Fetched
pub mod Idle
pub mod Evidence
use codex_daily_prewarm.Base.{
  Bool, String, abs_ℤ, false, if◌then◌else◌, leb_ℤ, ltb, ltb_ℤ, not, pos, true, ℕ, ◌&&◌, ◌*◌, ◌+◌,
  ◌-ℤ◌, ◌==◌, ◌||◌,
}
use codex_daily_prewarm.Clock.{Time, hour, is_after, is_zero, minute, second, sub_time}
use codex_daily_prewarm.Float.{Percent, percent}
use codex_daily_prewarm.Notify.Windows.{window}

abbrev pub five_hour_minutes : ℕ
five_hour_minutes = 300

abbrev pub weekly_minutes : ℕ
weekly_minutes = 10080

pub record QuotaWindow : Type 0 where
  pub window_minutes : ℕ
  pub used_percent : Percent
  pub reset_at : Time
  pub observed_at : Time

-- Go's zero value.
abbrev pub no_window : QuotaWindow
no_window = record { window_minutes = 0; used_percent = pos 0; reset_at = 0; observed_at = 0 }

pub record QuotaObservation : Type 0 where
  pub checked_at : Time
  pub five_hour : QuotaWindow
  pub weekly : QuotaWindow
  pub allowed : Bool
  pub status : String

abbrev pub no_observation : QuotaObservation
no_observation = record {
  checked_at = 0;
  five_hour = no_window;
  weekly = no_window;
  allowed = false;
  status = "";
}

-- `a == 0` and `a >= b` on percentages.
abbrev pub is_unused : Percent → Bool
is_unused p = leb_ℤ p (pos 0) && leb_ℤ (pos 0) p

abbrev pub over_threshold : Percent → Bool
over_threshold p = leb_ℤ (percent 95) p

-- Within 150 minutes of one another.
unfoldable pub same_five_hour_window : Time → Time → Bool
same_five_hour_window a b =
    if is_zero a || is_zero b then false else ltb (abs_ℤ (sub_time a b)) (150 * minute)

unfoldable pub newly_opened_five_hour : QuotaWindow → Time → Bool
newly_opened_five_hour window now =
    if not (window.window_minutes == five_hour_minutes)
    then false
    else let remaining = sub_time window.reset_at now in
      leb_ℤ (pos (4 * hour + 30 * minute)) remaining
      && leb_ℤ remaining (pos (5 * hour + 10 * minute))

-- (remaining, known).
unfoldable pub weekly_remaining : QuotaWindow → Time → Bool × Bool
weekly_remaining window now =
    if not (window.window_minutes == weekly_minutes) || is_zero window.reset_at
    then (false, false)
    else if not (is_after window.reset_at now)
    then (true, true)
    else (ltb_ℤ window.used_percent (percent 100), true)

-- The reset of an observation lies from 4 h 59 min to 5 h 1 min after it.
abbrev pub is_full_window : QuotaObservation → Bool
is_full_window item =
    let remaining = sub_time item.five_hour.reset_at item.checked_at in
    not
      (ltb_ℤ remaining (pos (4 * hour + 59 * minute)) || ltb_ℤ (pos (5 * hour + minute)) remaining)

unfoldable pub confirmed_idle : QuotaObservation → QuotaObservation → Bool
confirmed_idle first second' =
    let delta = sub_time second'.checked_at first.checked_at in
    if not (is_unused first.five_hour.used_percent)
      || not (is_unused second'.five_hour.used_percent)
      || not first.allowed
      || not second'.allowed
    then false
    else if over_threshold first.weekly.used_percent || over_threshold second'.weekly.used_percent
    then false
    else if ltb_ℤ delta (pos (2 * second)) || ltb_ℤ (pos (30 * second)) delta
    then false
    else if not (is_full_window first) || not (is_full_window second')
    then false
    else leb_ℤ (delta -ℤ pos (2 * second))
        (sub_time second'.five_hour.reset_at first.five_hour.reset_at)
