-- ===== src/Account/Followup.antt =====
-- scheduler.go: the plans for a check after a reset, and for a retry of a failed query.
use codex_daily_prewarm.Base.{
  Bool, String, false, if◌then◌else◌, leb, leb_ℤ, ltb, ltb_ℤ, neg, not, pos, str_eq, ℕ, ◌&&◌, ◌*◌,
  ◌+◌, ◌==◌, ◌||◌,
}
use codex_daily_prewarm.Clock.{
  Location, Time, hour, is_after, is_zero, local_hour, minute, second, sub_time,
}
use codex_daily_prewarm.Data.Account.{AccountWindow}
use codex_daily_prewarm.Data.Config.{PluginConfig}
use codex_daily_prewarm.Data.State.{
  Runtime, account_window, persist_state, set_account, set_last_error,
}
use codex_daily_prewarm.Notify.Windows.{window}
use codex_daily_prewarm.Quota.{QuotaObservation, five_hour_minutes, over_threshold, weekly_minutes}

abbrev pub followup_delay : ℕ
followup_delay = 90 * second

unfoldable pub same_reset_point : Time → Time → Bool
same_reset_point a b =
    if is_zero a || is_zero b
    then false
    else let d = sub_time a b in leb_ℤ (neg minute) d && leb_ℤ d (pos minute)

abbrev pub five_hour_due : AccountWindow → QuotaObservation → Bool
five_hour_due window o =
    let remaining = sub_time o.five_hour.reset_at o.checked_at in
    (o.five_hour.window_minutes == five_hour_minutes)
    && ltb_ℤ (pos 0) o.five_hour.used_percent
    && ltb_ℤ (pos 0) remaining
    && leb_ℤ remaining (pos (5 * hour + 10 * minute))
    && not (same_reset_point o.five_hour.reset_at window.last_five_hour_r)

abbrev pub weekly_due : AccountWindow → QuotaObservation → Bool
weekly_due window o =
    let remaining = sub_time o.weekly.reset_at o.checked_at in
    (o.weekly.window_minutes == weekly_minutes)
    && over_threshold o.weekly.used_percent
    && ltb_ℤ (pos 0) remaining
    && leb_ℤ remaining (pos (7 * 24 * hour + 10 * minute))
    && not (same_reset_point o.weekly.reset_at window.last_weekly_r)

unfoldable pub update_five_hour_plan : AccountWindow → QuotaObservation → AccountWindow
update_five_hour_plan window o =
    if five_hour_due window o
    then record window {
      five_hour_followup_r = o.five_hour.reset_at;
      five_hour_followup_at = o.five_hour.reset_at + followup_delay;
    }
    else if same_reset_point window.five_hour_followup_r window.last_five_hour_r
        || not (is_after window.five_hour_followup_at o.checked_at)
    then record window { five_hour_followup_at = 0 }
    else window

unfoldable pub update_weekly_plan : AccountWindow → QuotaObservation → AccountWindow
update_weekly_plan window o =
    if weekly_due window o
    then record window {
      weekly_followup_r = o.weekly.reset_at;
      weekly_followup_at = o.weekly.reset_at + followup_delay;
    }
    else if same_reset_point window.weekly_followup_r window.last_weekly_r
        || not (is_after window.weekly_followup_at o.checked_at)
    then record window { weekly_followup_at = 0 }
    else window

unfoldable pub update_followup_plan : AccountWindow → QuotaObservation → AccountWindow
update_followup_plan window o = update_weekly_plan (update_five_hour_plan window o) o

unfoldable pub in_schedule_hour : Time → Location → Bool
in_schedule_hour at location = let h = local_hour location at in leb 5 h && leb h 23

unfoldable pub in_followup_hours : Time → Location → Bool
in_followup_hours at location = let h = local_hour location at in leb 5 h && ltb h 23

-- Two minutes before the first retry, eight before the second.
abbrev pub retry_delay : ℕ → ℕ
retry_delay step = if step == 1 then 8 * minute else 2 * minute

abbrev pub retry_refused : PluginConfig → AccountWindow → Time → Bool
retry_refused cfg window now =
    leb 2 window.quota_retry_step
    || not (is_zero window.quota_retry_at)
    || not (in_followup_hours (now + retry_delay window.quota_retry_step) cfg.location)

unfoldable pub schedule_quota_retry :
    PluginConfig → String → Time → String → Bool → Runtime → Runtime
schedule_quota_retry cfg account now reason written r =
    let window = account_window r account in
    if str_eq reason "usage_http_429" || not (in_followup_hours now cfg.location)
    then r
    else if retry_refused cfg window now
    then r
    else let planned = record window {
      quota_retry_at = now + retry_delay window.quota_retry_step;
      quota_retry_step = window.quota_retry_step + 1;
    } in
      let r' = persist_state written (set_account account planned r) in
      if written then r' else set_last_error "retry_state_write_failed" r'

unfoldable pub clear_quota_retry : String → Bool → Runtime → Runtime
clear_quota_retry account written r =
    let window = account_window r account in
    if is_zero window.quota_retry_at && window.quota_retry_step == 0
    then r
    else let cleared = record window { quota_retry_at = 0; quota_retry_step = 0 } in
      let r' = persist_state written (set_account account cleared r) in
      if written then r' else set_last_error "state_write_failed" r'
