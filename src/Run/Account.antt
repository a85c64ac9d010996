-- ===== src/Run/Account.antt =====
-- runtime.go: `executeRun`, the rest of the loop for one account: the skip, or the model call and
-- what it changes in the record of the run.
use codex_daily_prewarm.Base.{
  Bool, String, [], false, if◌then◌else◌, ltb, not, some, str_eq, true, ℕ, ◌&&◌, ◌++◌, ◌+◌, ◌==◌,
  ◌||◌, ◌∷◌,
}
use codex_daily_prewarm.Account.Limits.{attempt_count, reserve_attempt}
use codex_daily_prewarm.Account.Results.{record_account_result}
use codex_daily_prewarm.Clock.{Time, is_after}
use codex_daily_prewarm.Data.Config.{PluginConfig}
use codex_daily_prewarm.Data.Run.{AccountResult, RunRecord, RunRequest}
use codex_daily_prewarm.Model.Execute.{Host, execute_account_with_guard, no_result}
use codex_daily_prewarm.Quota.{QuotaObservation, five_hour_minutes, weekly_minutes}
use codex_daily_prewarm.Run.Check.{Looked, account_of, check_account, is_empty}
use codex_daily_prewarm.Run.Host.{Auth, RunHost, World, on_runtime, wait_for_run}
use codex_daily_prewarm.Run.Inventory.{safe_account_type}

abbrev pub with_model : AccountResult → AccountResult → AccountResult
with_model m res =
    let five = m.result_five_hour.window_minutes == five_hour_minutes in
    let week = m.result_weekly.window_minutes == weekly_minutes in
    let seen = if five then m.result_five_hour.observed_at else res.quota_checked_at in
    record res {
      quota_before =
          if ltb 0 m.attempts
          then some (record {
            checked_at = res.quota_checked_at;
            five_hour = res.result_five_hour;
            weekly = res.result_weekly;
            allowed = true;
            status = res.result_quota_status;
          })
          else res.quota_before;
      result_model = m.result_model;
      primary_reset_at = m.primary_reset_at;
      primary_used = m.primary_used;
      result_five_hour = if five then m.result_five_hour else res.result_five_hour;
      result_weekly = if week then m.result_weekly else res.result_weekly;
      quota_checked_at =
          if week && is_after m.result_weekly.observed_at seen
          then m.result_weekly.observed_at
          else seen;
      attempts = m.attempts;
      status_code = m.status_code;
      request_sent = m.request_sent;
      response_received = m.response_received;
      fallback_used = m.fallback_used;
      error_code = m.error_code;
      finished_at = m.finished_at;
    }

-- The record of the run, the end of its last model call, whether the run goes on, and the world.
abbrev pub Stepped : Type 0 → Type 0
Stepped W = RunRecord × Time × Bool × World W

abbrev pub interrupted_run : RunRecord → RunRecord
interrupted_run run = record run { run_error_code = "interrupted" }

-- Why no call follows although nothing speaks against it.
abbrev pub held_reason : PluginConfig → RunRequest → String → String
held_reason cfg request reason =
    if not (is_empty reason)
    then reason
    else if request.read_only
    then "quota_refresh_only"
    else if request.observe_only
    then "followup_observe"
    else if cfg.dry_run
    then "dry_run"
    else ""

abbrev pub would_call : RunRequest → String → Bool
would_call request reason = is_empty reason && not request.read_only

abbrev pub is_query_failure : String → AccountResult → Bool
is_query_failure reason res =
    str_eq res.result_quota_status "query_failed" || str_eq reason "state_write_failed"

-- A result without a call, and the record with it; the flag says that it counts as a failure.
abbrev pub skipped_result : Bool → String → Time → ℕ → AccountResult → AccountResult
skipped_result failed' reason now n res = record res {
  error_code = if failed' then reason else res.error_code;
  skip_reason = if failed' then res.skip_reason else reason;
  finished_at = now;
  attempts_24h = n;
}

abbrev pub skipped_run : Bool → AccountResult → RunRecord → RunRecord
skipped_run failed' res run = record run {
  failed_count = if failed' then run.failed_count + 1 else run.failed_count;
  skipped = if failed' then run.skipped else run.skipped + 1;
  results = run.results ++ res ∷ [];
}

-- The record with the result of a call: whether there was an attempt, an answer, and no stop.
abbrev pub booked_run : Bool → Bool → Bool → AccountResult → RunRecord → RunRecord
booked_run called got again res run = record run {
  attempted = if called then run.attempted + 1 else run.attempted;
  results = run.results ++ res ∷ [];
  succeeded = if got then run.succeeded + 1 else run.succeeded;
  failed_count = if got then run.failed_count else run.failed_count + 1;
  run_error_code = if again then run.run_error_code else "interrupted";
}

module _ {W : Type 0} (h : RunHost W) (cfg : PluginConfig) (request : RunRequest)
    (auth : Auth) where
  abbrev pub attempts_now : World W → ℕ
  attempts_now w = attempt_count w.0 (account_of h cfg request auth) (h.run_clock w)

  unfoldable pub skip_account : String → AccountResult → RunRecord → Time → World W → Stepped W
  skip_account reason res run last w =
      let failed' = is_query_failure reason res in
      let res' = skipped_result failed' reason (h.run_clock w) (attempts_now w) res in
      (skipped_run failed' res' run, last, true, w)

  -- The surroundings of `executeAccountWithGuard`.
  abbrev pub model_host : Host (World W)
  model_host = record {
    stop_requested = h.is_stopped;
    reserve = λ w.
        let (written, w1) = h.next_write w in
        let (granted, r) =
          reserve_attempt (account_of h cfg request auth) (h.run_clock w1) written w1.0 in
        (granted, (r, w1.1));
    call_host = h.call_model;
    pause = wait_for_run h;
    clock = h.run_clock;
    lower_case = h.lower;
    show_number = h.show_integer;
  }

  abbrev pub called_model : World W → AccountResult × World W
  called_model w =
      execute_account_with_guard model_host cfg request.job (account_of h cfg request auth)
        (safe_account_type h.lower auth.auth_account_type) w

  -- The bookkeeping after the call.
  unfoldable pub book_result :
      AccountResult → AccountResult → RunRecord → Time → World W → Stepped W
  book_result m res run last w =
      let res' = record (with_model m res) { attempts_24h = attempts_now w } in
      let called = ltb 0 m.attempts in
      let (written, w1) = h.next_write w in
      let w2 : World W =
        on_runtime (record_account_result cfg (account_of h cfg request auth) res' written) w1 in
      let again = not (str_eq m.error_code "interrupted") in
      let run' = booked_run called m.response_received again res' run in
      (run', (if called then m.finished_at else last), again, if called then w2 else w)

  unfoldable pub call_account : AccountResult → RunRecord → Time → World W → Stepped W
  call_account res run last w =
      if h.is_stopped w
      then (interrupted_run run, last, false, w)
      else let (m, w') = called_model w in book_result m res run last w'

  -- The account after the look at it.
  unfoldable pub act_on_account : Looked W → RunRecord → Time → Stepped W
  act_on_account (res, reason, w) run last =
      let held = held_reason cfg request reason in
      let would = would_call request reason in
      let res' = record res { would_warm = would } in
      let run' = record run {
        would_warm_count = if would then run.would_warm_count + 1 else run.would_warm_count;
      } in
      if str_eq reason "interrupted"
      then (interrupted_run run, last, false, w)
      else if is_empty held
      then call_account res' run' last w
      else skip_account held res' run' last w

  abbrev pub started_result : World W → AccountResult
  started_result w = record no_result {
    account = account_of h cfg request auth;
    account_type = safe_account_type h.lower auth.auth_account_type;
    result_model = request.job.job_model;
    started_at = h.run_clock w;
  }

  unfoldable pub step_account : QuotaObservation × String → RunRecord → Time → World W → Stepped W
  step_account first run last w =
      if h.is_stopped w
      then (interrupted_run run, last, false, w)
      else act_on_account (check_account h cfg request auth first last (started_result w) w)
          (record run { quota_queried = run.quota_queried + 1 }) last
