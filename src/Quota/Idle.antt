-- ===== src/Quota/Idle.antt =====
-- What `confirmed_idle` accepts, in the arithmetic of times.
use codex_daily_prewarm.Base.{arith, false, pos, true, ◌*◌, ◌+◌, ◌≡◌, ◌≤◌}
use codex_daily_prewarm.Clock.{hour, minute, second}
use codex_daily_prewarm.Float.{Percent}
use codex_daily_prewarm.Quota.{
  QuotaObservation, confirmed_idle, is_full_window, is_unused, over_threshold,
}

-- Two readings of an idle account, 2 to 30 seconds apart.
pub record IsIdlePair (first later : QuotaObservation) : Type 0 where
  pub first_unused : first.five_hour.used_percent ≡ pos 0
  pub later_unused : later.five_hour.used_percent ≡ pos 0
  pub first_allowed : first.allowed ≡ true
  pub later_allowed : later.allowed ≡ true
  pub first_weekly : over_threshold first.weekly.used_percent ≡ false
  pub later_weekly : over_threshold later.weekly.used_percent ≡ false
  pub far_enough : first.checked_at + 2 * second ≤ later.checked_at
  pub near_enough : later.checked_at ≤ first.checked_at + 30 * second
  pub first_from : first.checked_at + (4 * hour + 59 * minute) ≤ first.five_hour.reset_at
  pub first_to : first.five_hour.reset_at ≤ first.checked_at + (5 * hour + minute)
  pub later_from : later.checked_at + (4 * hour + 59 * minute) ≤ later.five_hour.reset_at
  pub later_to : later.five_hour.reset_at ≤ later.checked_at + (5 * hour + minute)
  pub moved :
      first.five_hour.reset_at + later.checked_at
      ≤ later.five_hour.reset_at + first.checked_at + 2 * second

unused_lem : (p : Percent) → is_unused p ≡ true → p ≡ pos 0
unused_lem p h = ground arith

is_full_window_lem :
    (o : QuotaObservation)
    → is_full_window o ≡ true
    → (o.checked_at + (4 * hour + 59 * minute) ≤ o.five_hour.reset_at)
      × (o.five_hour.reset_at ≤ o.checked_at + (5 * hour + minute))
is_full_window_lem o h = ground arith

confirmed_idle-IsIdlePair :
    (first later : QuotaObservation) → confirmed_idle first later ≡ true → IsIdlePair first later
unfolding confirmed_idle
confirmed_idle-IsIdlePair first later h = ground arith

-- A window with a fixed reset, which is how a window in use shows, is confirmed as idle only if the
-- two observations are exactly two seconds apart: a wait that makes them differ by more than two
-- seconds rules it out.
pub fixed_reset-confirmed_idle :
    (first later : QuotaObservation)
    → later.five_hour.reset_at ≡ first.five_hour.reset_at
    → confirmed_idle first later ≡ true
    → later.checked_at ≡ first.checked_at + 2 * second
fixed_reset-confirmed_idle first later fixed h =
    omega (arith, confirmed_idle-IsIdlePair first later h)
