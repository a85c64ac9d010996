-- ===== src/Data/Notice.antt =====
-- notifications.go: the state of the notifications. `Windows` is keyed in the source by the text of
-- the window's end, to the second; the ends are whole minutes, so the key here is the end itself.
use codex_daily_prewarm.Base.{List, Map, String, [], pos, ℕ}
use codex_daily_prewarm.Clock.{Time}
use codex_daily_prewarm.Float.{Percent}

pub record DigestAccount : Type 0 where
  pub account_succeeded : ℕ
  pub account_failed : ℕ
  pub last_failure_at : Time
  pub last_success_at : Time
  pub digest_quota_checked_at : Time
  pub weekly_remaining_percent : Percent

abbrev pub no_digest_account : DigestAccount
no_digest_account = record {
  account_succeeded = 0;
  account_failed = 0;
  last_failure_at = 0;
  last_success_at = 0;
  digest_quota_checked_at = 0;
  weekly_remaining_percent = pos 0;
}

pub record DigestWindow : Type 0 where
  pub window_start : Time
  pub window_end : Time
  pub runs : ℕ
  pub window_succeeded : ℕ
  pub window_failed : ℕ
  pub digest_accounts : Map DigestAccount
  pub skips : Map ℕ
  pub failures : Map String
  pub digest_attempts : ℕ
  pub next_attempt_at : Time
  pub digest_result : String

pub record FailureNotice : Type 0 where
  pub notice_account : String
  pub category : String
  pub detail : String
  pub noticed_at : Time
  pub notice_due_at : Time
  pub notice_window_end : Time

pub record NotificationState : Type 0 where
  pub next_digest_at : Time
  pub last_digest_at : Time
  pub last_digest_end : Time
  pub last_digest_result : String
  pub last_digest_attempts : ℕ
  pub last_quiet_at : Time
  pub last_quiet_result : String
  pub windows : List (Time × DigestWindow)
  pub unknown_streaks : Map ℕ
  pub pending_notices : List FailureNotice

abbrev pub no_notifications : NotificationState
no_notifications = record {
  next_digest_at = 0;
  last_digest_at = 0;
  last_digest_end = 0;
  last_digest_result = "";
  last_digest_attempts = 0;
  last_quiet_at = 0;
  last_quiet_result = "";
  windows = [];
  unknown_streaks = [];
  pending_notices = [];
}
