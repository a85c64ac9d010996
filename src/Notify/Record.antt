-- ===== src/Notify/Record.antt =====
-- notifications.go: `recordNotifications`, what a finished run adds to the notifications.
use text.Mathlib.Text.{find?}
use codex_daily_prewarm.Base.{
  Bool, List, Map, String, [], false, if◌then◌else◌, insert, leb_ℤ, lookup, ltb, not, pos, remove,
  str_append, str_eq, true, ℕ, ℤ, ◌&&◌, ◌++◌, ◌+◌, ◌-ℤ◌, ◌==◌, ◌||◌, ◌∷◌,
}
use codex_daily_prewarm.Clock.{Time, is_before, is_zero, sub_days}
use codex_daily_prewarm.Config.Names.{is_some}
use codex_daily_prewarm.Config.Parse.{given}
use codex_daily_prewarm.Data.Config.{PluginConfig}
use codex_daily_prewarm.Data.Notice.{
  DigestAccount, DigestWindow, FailureNotice, NotificationState, no_digest_account,
}
use codex_daily_prewarm.Data.Run.{AccountResult, RunRecord}
use codex_daily_prewarm.Float.{percent}
use codex_daily_prewarm.Notify.Times.{digest_end, quiet_until}
use codex_daily_prewarm.Notify.Windows.{prune_windows_before, window, with_window}
use codex_daily_prewarm.Quota.{weekly_minutes}

abbrev pub mentions_unknown : String → Bool
mentions_unknown text = is_some (find? text "unknown")

unfoldable pub unknown_quota_result : AccountResult → Bool
unknown_quota_result item =
    (item.attempts == 0)
    && (mentions_unknown item.skip_reason
        || mentions_unknown item.error_code
        || str_eq item.result_quota_status "unknown"
        || str_eq item.result_quota_status "query_failed")

unfoldable pub failure_category : AccountResult → ℕ → ℤ → String
failure_category item streak threshold =
    if ltb 0 item.attempts
      && not item.response_received
      && (not (str_eq item.error_code "interrupted") || item.request_sent)
    then "request_failed"
    else if leb_ℤ threshold (pos streak)
    then "quota_unknown"
    else ""

abbrev pub count_of : String → Map ℕ → ℕ
count_of key m = given (lookup key m) 0

abbrev pub bump : String → Map ℕ → Map ℕ
bump key m = insert key (count_of key m + 1) m

-- The account and the category of a failure.
abbrev pub failure_key : String → String → String
failure_key account category = str_append account (str_append "|" category)

-- The state of the loop over the accounts of a run.
pub record Noting : Type 0 where
  pub window_now : DigestWindow
  pub streaks : Map ℕ
  pub queue : List FailureNotice
  pub immediate : List FailureNotice
  pub deduplicated : Bool
  pub queued : Bool

abbrev pub digest_account : DigestWindow → String → DigestAccount
digest_account w account = given (lookup account w.digest_accounts) no_digest_account

abbrev pub put_digest_account : String → DigestAccount → DigestWindow → DigestWindow
put_digest_account account a w = record w { digest_accounts = insert account a w.digest_accounts }

unfoldable pub note_success : Time → AccountResult → DigestWindow → DigestWindow
note_success now item w =
    let a = digest_account w item.account in
    if item.response_received
    then put_digest_account item.account
        (record a { account_succeeded = a.account_succeeded + 1; last_success_at = now })
        (record w { window_succeeded = w.window_succeeded + 1 })
    else put_digest_account item.account a w

-- The latest confirmed reading of the week within the window.
unfoldable pub note_quota : AccountResult → DigestWindow → DigestWindow
note_quota item w =
    let a = digest_account w item.account in
    if str_eq item.result_quota_status "confirmed"
      && not (is_zero item.quota_checked_at)
      && (item.result_weekly.window_minutes == weekly_minutes)
      && not (is_before item.quota_checked_at a.digest_quota_checked_at)
      && not (is_before item.quota_checked_at w.window_start)
      && is_before item.quota_checked_at w.window_end
    then put_digest_account item.account
        (record a {
          digest_quota_checked_at = item.quota_checked_at;
          weekly_remaining_percent = percent 100 -ℤ item.result_weekly.used_percent;
        })
        w
    else w

unfoldable pub note_skip : AccountResult → DigestWindow → DigestWindow
note_skip item w =
    if str_eq item.skip_reason "quota_refresh_only"
    then w
    else if not (str_eq item.skip_reason "")
    then record w { skips = bump item.skip_reason w.skips }
    else if unknown_quota_result item
    then record w {
      skips = bump (if str_eq item.error_code "" then "quota_unknown" else item.error_code) w.skips;
    }
    else w

unfoldable pub note_streak : AccountResult → Map ℕ → Map ℕ
note_streak item streaks =
    if unknown_quota_result item then bump item.account streaks else remove item.account streaks

abbrev pub note_failed : Time → AccountResult → DigestWindow → DigestWindow
note_failed now item w =
    let a = digest_account w item.account in
    put_digest_account item.account
      (record a { account_failed = a.account_failed + 1; last_failure_at = now })
      (record w { window_failed = w.window_failed + 1 })

abbrev pub with_failure : String → String → DigestWindow → DigestWindow
with_failure key outcome w = record w { failures = insert key outcome w.failures }

-- The text of a notice: the streak's length for an unknown quota, else the error code.
abbrev pub failure_detail : (ℕ → String) → AccountResult → String → ℕ → String
failure_detail streak_text item category streak =
    if str_eq category "quota_unknown"
    then streak_text streak
    else if str_eq item.error_code ""
    then "no_valid_response"
    else item.error_code

-- What the source does from `category == ""` on: the failure is counted; a second one of its kind
-- in this window is dropped; a first one is left to the manual feedback, queued for the end of the
-- quiet hours, or sent at once.
unfoldable pub note_failure :
    (ℕ → String) → PluginConfig → Time → Bool → AccountResult → Noting → Noting
note_failure streak_text cfg now notify item s =
    let streak = count_of item.account s.streaks in
    let category' = failure_category item streak cfg.unknown_failure_streak in
    let key = failure_key item.account category' in
    let w = note_failed now item s.window_now in
    let until = quiet_until cfg now in
    let notice : FailureNotice = record {
      notice_account = item.account;
      category = category';
      detail = failure_detail streak_text item category' streak;
      noticed_at = now;
      notice_due_at = until;
      notice_window_end = s.window_now.window_end;
    } in
    if str_eq category' ""
    then s
    else if is_some (lookup key s.window_now.failures)
    then record s { window_now = w; deduplicated = true }
    else if notify
    then record s { window_now = with_failure key "manual" w }
    else if not (is_zero until)
    then record s {
      window_now = with_failure key "queued" w;
      queue = s.queue ++ notice ∷ [];
      queued = true;
    }
    else record s {
      window_now = with_failure key "sending" w;
      immediate = s.immediate ++ notice ∷ [];
    }

unfoldable pub note_item :
    (ℕ → String) → PluginConfig → Time → Bool → AccountResult → Noting → Noting
note_item streak_text cfg now notify item s =
    note_failure streak_text cfg now notify item (record s {
      window_now = note_skip item (note_quota item (note_success now item s.window_now));
      streaks = note_streak item s.streaks;
    })

unfoldable pub note_items :
    (ℕ → String) → PluginConfig → Time → Bool → List AccountResult → Noting → Noting
note_items streak_text cfg now notify [] s = s
note_items streak_text cfg now notify (item ∷ items) s =
    note_items streak_text cfg now notify items (note_item streak_text cfg now notify item s)

-- The windows before the loop: the first digest is planned, and windows older than a week go.
unfoldable pub opened : PluginConfig → Time → NotificationState → NotificationState
opened cfg now n =
    let planned =
      if is_zero n.next_digest_at then record n { next_digest_at = digest_end cfg now } else n in
    prune_windows_before (sub_days cfg.location 7 now) planned

-- The part under the lock: what is counted, and what is to be sent.
unfoldable pub note_run :
    (ℕ → String)
    → PluginConfig
    → Time
    → RunRecord
    → Bool
    → NotificationState
    → Noting × NotificationState
note_run streak_text cfg now run notify n =
    let n' = opened cfg now n in
    let end = digest_end cfg now in
    let w = window cfg end n' in
    let counted =
      if str_eq run.run_trigger "quota_refresh" then w else record w { runs = w.runs + 1 } in
    let s = note_items streak_text cfg now notify run.results (record {
      window_now = counted;
      streaks = n'.unknown_streaks;
      queue = n'.pending_notices;
      immediate = [];
      deduplicated = false;
      queued = false;
    }) in
    (
      s,
      record (with_window end s.window_now n') {
        unknown_streaks = s.streaks;
        pending_notices = s.queue;
      },
    )
