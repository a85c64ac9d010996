-- ===== src/Tests/Accounts.antt =====
-- The account records at concrete inputs.
use codex_daily_prewarm.Base.{
  List, [], arith, false, lookup, pos, refl, some, true, ◌*◌, ◌++◌, ◌+◌, ◌<◌, ◌∷◌, ◌≡◌, ◌≤◌,
}
use codex_daily_prewarm.Account.Allowance.{IsOrdered, five_calls_a_day}
use codex_daily_prewarm.Account.Durable.{has_reason, reserve_attempt-lasting}
use codex_daily_prewarm.Account.Events.{AccountEvent, granted_times, reserves}
use codex_daily_prewarm.Account.Followup.{update_followup_plan}
use codex_daily_prewarm.Account.Keeps.{attempts_of}
use codex_daily_prewarm.Account.Limits.{recent_attempts, reserve_attempt, warm_limit_reason}
use codex_daily_prewarm.Account.Planned.{IsPlan, update_followup_plan-IsPlan}
use codex_daily_prewarm.Account.Rolling.{IsPast, calls_in_day}
use codex_daily_prewarm.Clock.{day, hour, second}
use codex_daily_prewarm.Data.Account.{no_account}
use codex_daily_prewarm.Data.State.{account_window, new_state}
use codex_daily_prewarm.Float.{float_unit}
use codex_daily_prewarm.Notify.Digest.{digest_end-after}
use codex_daily_prewarm.Notify.Times.{digest_end}
use codex_daily_prewarm.Quota.{QuotaObservation, confirmed_idle}
use codex_daily_prewarm.Quota.Confirm.{
  confirm_idle_after_spacing, confirm_second, quota_candidate_reason, refresh_first,
}
use codex_daily_prewarm.Quota.Evidence.{Evidence, confirm_idle_after_spacing-Evidence}
use codex_daily_prewarm.Quota.Idle.{fixed_reset-confirmed_idle}
use codex_daily_prewarm.Tests.Samples.{
  fresh_runtime, idle_at, idle_callbacks, in_shanghai, noon, sample_config, unused_window,
}

-- Six reservations within a minute, of which the last is refused.
abbrev six_reservations : List AccountEvent
six_reservations =
    reserves "a" noon true
    ∷ reserves "a" (noon + 1) true
    ∷ reserves "a" (noon + 2) true
    ∷ reserves "a" (noon + 3) false
    ∷ reserves "a" (noon + 4) true
    ∷ reserves "a" (noon + 5) true
    ∷ []

fresh-IsPast : IsPast noon (attempts_of fresh_runtime "a")
unfolding lookup new_state
fresh-IsPast = tt

six-IsOrdered : IsOrdered noon six_reservations
six-IsOrdered = (
  omega arith,
  omega arith,
  (
    omega arith,
    omega arith,
    (
      omega arith,
      omega arith,
      (omega arith, omega arith, (omega arith, omega arith, (omega arith, omega arith, tt))),
    ),
  ),
)

five_calls_a_day_example : calls_in_day noon (granted_times "a" fresh_runtime six_reservations) ≤ 5
five_calls_a_day_example =
    five_calls_a_day "a" noon fresh_runtime six_reservations fresh-IsPast six-IsOrdered noon

granted_at_noon : (reserve_attempt "a" noon true fresh_runtime).0 ≡ true
unfolding reserve_attempt lookup new_state
granted_at_noon = refl

reserve_attempt-lasting_example :
    let r' = (reserve_attempt "a" noon true fresh_runtime).1 in
    (attempts_of r' "a" ≡ recent_attempts (attempts_of fresh_runtime "a") noon ++ noon ∷ [])
    × ((account_window r' "a").last_prewarm_at ≡ noon)
    × (r'.disk ≡ some r'.state)
    × (has_reason (warm_limit_reason r' "a" (noon + 4 * hour)) ≡ true)
reserve_attempt-lasting_example =
    reserve_attempt-lasting "a" noon fresh_runtime true (noon + 4 * hour) granted_at_noon
      (omega arith) (omega arith)

update_followup_plan-IsPlan_example :
    let w' = update_followup_plan no_account (idle_at noon) in
    IsPlan noon w'.five_hour_followup_at w'.five_hour_followup_r w'.last_five_hour_r
    × IsPlan noon w'.weekly_followup_at w'.weekly_followup_r w'.last_weekly_r
update_followup_plan-IsPlan_example = update_followup_plan-IsPlan no_account (idle_at noon)

digest_end-after_example :
    (noon < digest_end sample_config noon) × (digest_end sample_config noon ≤ noon + day)
digest_end-after_example = digest_end-after sample_config in_shanghai noon (omega arith)

-- The wait of 30 seconds makes the first observation too old, so that two more are fetched.
accepted_idle :
    (confirm_idle_after_spacing idle_callbacks (idle_at noon) (pos (30 * second)) noon).1 ≡ ""
unfolding confirm_idle_after_spacing refresh_first confirm_second quota_candidate_reason
    confirmed_idle float_unit
accepted_idle = refl

confirm_idle_after_spacing-Evidence_example :
    Evidence idle_callbacks
      (idle_at noon)
      (noon + 30 * second)
      (confirm_idle_after_spacing idle_callbacks (idle_at noon) (pos (30 * second)) noon)
confirm_idle_after_spacing-Evidence_example =
    confirm_idle_after_spacing-Evidence idle_callbacks (idle_at noon) (pos (30 * second)) noon
      accepted_idle

-- Two seconds later, with the reset where it was.
abbrev same_reset : QuotaObservation
same_reset = record (idle_at (noon + 2 * second)) {
  five_hour = unused_window 300 (noon + 5 * hour) (noon + 2 * second);
}

same_reset-idle : confirmed_idle (idle_at noon) same_reset ≡ true
unfolding confirmed_idle float_unit
same_reset-idle = refl

fixed_reset-confirmed_idle_example : same_reset.checked_at ≡ noon + 2 * second
fixed_reset-confirmed_idle_example =
    fixed_reset-confirmed_idle (idle_at noon) same_reset refl same_reset-idle
