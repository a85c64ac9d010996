-- ===== src/Account/Limits.antt =====
-- runtime.go: `recentAttempts`, `attemptCount`, `warmLimitReason` and `reserveAttempt`.
use codex_daily_prewarm.Base.{
  Bool, List, String, [], false, if◌then◌else◌, keep, leb, length, not, true, ℕ, ◌&&◌, ◌*◌, ◌++◌,
  ◌+◌, ◌-◌, ◌∷◌,
}
use codex_daily_prewarm.Clock.{Time, hour, is_after, is_before, is_zero, minute}
use codex_daily_prewarm.Data.Account.{AccountWindow}
use codex_daily_prewarm.Data.State.{
  Runtime, account_window, persist_state, set_account, set_last_error,
}
use codex_daily_prewarm.Notify.Windows.{window}

-- `now.Add(-24 * time.Hour)` stops at the zero time here, which no attempt is before.
abbrev pub is_recent : Time → Time → Bool
is_recent now at =
    not (is_zero at) && is_after at (now - 24 * hour) && not (is_after at (now + minute))

abbrev pub recent_attempts : List Time → Time → List Time
recent_attempts times now = keep (is_recent now) times

unfoldable pub attempt_count : Runtime → String → Time → ℕ
attempt_count r account now = length (recent_attempts (account_window r account).attempt_times now)

abbrev pub window_limit_reason : AccountWindow → Time → String
window_limit_reason window now =
    if leb 5 (length (recent_attempts window.attempt_times now))
    then "rolling_24h_limit"
    else if not (is_zero window.last_prewarm_at)
        && is_before now (window.last_prewarm_at + 5 * hour)
    then "recent_prewarm_attempt"
    else ""

unfoldable pub warm_limit_reason : Runtime → String → Time → String
warm_limit_reason r account now = window_limit_reason (account_window r account) now

-- The window with one more attempt.
abbrev pub with_attempt : AccountWindow → Time → AccountWindow
with_attempt window now = record window {
  attempt_times = recent_attempts window.attempt_times now ++ now ∷ [];
  last_prewarm_at = now;
}

-- The attempt is written to disk before the request is sent. `written` is the outcome of the write.
unfoldable pub reserve_attempt : String → Time → Bool → Runtime → Bool × Runtime
reserve_attempt account now written r =
    let window = account_window r account in
    if leb 5 (length (recent_attempts window.attempt_times now))
    then (false, r)
    else let r' = persist_state written (set_account account (with_attempt window now) r) in
      if written then (true, r') else (false, set_last_error "state_write_failed" r')
