-- ===== src/Account/Results.antt =====
-- runtime.go: `saveQuota`, `saveQuotaFailure`, `recordAccountResult`, `skipReason`.
use codex_daily_prewarm.Base.{
  Bool, String, false, if◌then◌else◌, leb_ℤ, not, pos, str_eq, true, ◌&&◌, ◌*◌, ◌+◌, ◌==◌,
}
use codex_daily_prewarm.Account.Followup.{update_followup_plan}
use codex_daily_prewarm.Clock.{Time, hour, is_after, is_zero, minute, sub_time}
use codex_daily_prewarm.Data.Account.{AccountWindow}
use codex_daily_prewarm.Data.Config.{PluginConfig}
use codex_daily_prewarm.Data.Run.{AccountResult}
use codex_daily_prewarm.Data.State.{
  Runtime, account_window, persist_state, set_account, set_last_error,
}
use codex_daily_prewarm.Notify.Windows.{window}
use codex_daily_prewarm.Quota.{QuotaObservation, five_hour_minutes, weekly_minutes}

abbrev pub follows_up : PluginConfig → Bool
follows_up cfg = not (str_eq cfg.reset_followup_mode "off")

abbrev pub with_quota : PluginConfig → QuotaObservation → AccountWindow → AccountWindow
with_quota cfg o window =
    let window' = record window {
      last_quota_checked_at = o.checked_at;
      quota_status = o.status;
      five_hour_window = o.five_hour;
      weekly_window = o.weekly;
    } in
    if follows_up cfg then update_followup_plan window' o else window'

unfoldable pub save_quota :
    PluginConfig → String → QuotaObservation → Bool → Runtime → Bool × Runtime
save_quota cfg account o written r =
    let window = with_quota cfg o (account_window r account) in
    let r' = persist_state written (set_account account window r) in
    if written then (true, r') else (false, set_last_error "state_write_failed" r')

unfoldable pub save_quota_failure : String → Time → String → Bool → Runtime → Runtime
save_quota_failure account now reason written r =
    let window = record (account_window r account) {
      last_quota_checked_at = now;
      quota_status = reason;
    } in
    let r' = persist_state written (set_account account window r) in
    if written then r' else set_last_error "state_write_failed" r'

-- The last confirmed reset of a response: the five-hour window's, else the primary one's, else the
-- known one while it lies ahead.
abbrev pub response_reset : AccountWindow → AccountResult → Time
response_reset window result =
    if result.result_five_hour.window_minutes == five_hour_minutes
    then result.result_five_hour.reset_at
    else if not (is_zero result.primary_reset_at)
    then result.primary_reset_at
    else if not (is_after window.account_reset_at result.finished_at)
    then 0
    else window.account_reset_at

unfoldable pub with_response : PluginConfig → AccountResult → AccountWindow → AccountWindow
with_response cfg result window =
    let has_five = result.result_five_hour.window_minutes == five_hour_minutes in
    let has_week = result.result_weekly.window_minutes == weekly_minutes in
    let window' = record window {
      last_probe_at = result.finished_at;
      retry_after = 0;
      five_hour_window = if has_five then result.result_five_hour else window.five_hour_window;
      weekly_window = if has_week then result.result_weekly else window.weekly_window;
      account_reset_at = response_reset window result;
    } in
    if follows_up cfg && has_five && has_week
    then update_followup_plan window' (record {
      checked_at = result.finished_at;
      five_hour = result.result_five_hour;
      weekly = result.result_weekly;
      allowed = false;
      status = "";
    })
    else window'

-- The outcome of the calls, before the window of the prewarm is noted.
unfoldable pub with_outcome : PluginConfig → AccountResult → AccountWindow → AccountWindow
with_outcome cfg result window =
    let window' = record window { last_prewarm_at = result.finished_at } in
    if result.response_received
    then with_response cfg result window'
    else if str_eq result.error_code "usage_limit_reached" && not (is_zero result.primary_reset_at)
    then record window' { retry_after = result.primary_reset_at }
    else window'

-- An old reset counts as a five-hour one if it lay within 5 h 10 min of the probe.
abbrev pub within_five_hours : Time → Time → Bool
within_five_hours reset probe =
    let duration = sub_time reset probe in
    leb_ℤ (pos 0) duration && leb_ℤ duration (pos (5 * hour + 10 * minute))

abbrev pub noted_prewarm_reset : AccountWindow → Time
noted_prewarm_reset window =
    if window.five_hour_window.window_minutes == five_hour_minutes
    then window.five_hour_window.reset_at
    else if not (is_zero window.account_reset_at)
        && not (is_zero window.last_probe_at)
        && within_five_hours window.account_reset_at window.last_probe_at
    then window.account_reset_at
    else window.last_prewarm_reset_at

unfoldable pub with_result : PluginConfig → AccountResult → AccountWindow → AccountWindow
with_result cfg result window =
    let window' = with_outcome cfg result window in
    record window' { last_prewarm_reset_at = noted_prewarm_reset window' }

unfoldable pub record_account_result :
    PluginConfig → String → AccountResult → Bool → Runtime → Runtime
record_account_result cfg account result written r =
    let window = with_result cfg result (account_window r account) in
    let r' = persist_state written (set_account account window r) in
    if written then r' else set_last_error "state_write_failed" r'
