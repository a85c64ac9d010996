-- ===== src/Data/Account.antt =====
-- runtime.go: `accountWindow`, what is remembered of one account.
use codex_daily_prewarm.Base.{List, String, [], ℕ}
use codex_daily_prewarm.Clock.{Time}
use codex_daily_prewarm.Quota.{QuotaWindow, no_window}

pub record AccountWindow : Type 0 where
  pub last_quota_checked_at : Time
  pub quota_status : String
  pub attempt_times : List Time
  pub account_reset_at : Time
  pub last_probe_at : Time
  pub retry_after : Time
  pub last_prewarm_at : Time
  pub last_prewarm_reset_at : Time
  pub five_hour_window : QuotaWindow
  pub weekly_window : QuotaWindow
  pub five_hour_followup_at : Time
  pub five_hour_followup_r : Time
  pub last_five_hour_r : Time
  pub weekly_followup_at : Time
  pub weekly_followup_r : Time
  pub last_weekly_r : Time
  pub quota_retry_at : Time
  pub quota_retry_step : ℕ

-- Go's zero value, which a map gives for a missing key.
abbrev pub no_account : AccountWindow
no_account = record {
  last_quota_checked_at = 0;
  quota_status = "";
  attempt_times = [];
  account_reset_at = 0;
  last_probe_at = 0;
  retry_after = 0;
  last_prewarm_at = 0;
  last_prewarm_reset_at = 0;
  five_hour_window = no_window;
  weekly_window = no_window;
  five_hour_followup_at = 0;
  five_hour_followup_r = 0;
  last_five_hour_r = 0;
  weekly_followup_at = 0;
  weekly_followup_r = 0;
  last_weekly_r = 0;
  quota_retry_at = 0;
  quota_retry_step = 0;
}
