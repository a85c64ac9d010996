-- ===== src/Run/Finish.antt =====
-- runtime.go: `executeRun`, what is before and after its loop; `resetSpread` and `appendRun`.
use Prim.Native.Char.{code}
use codex_daily_prewarm.Base.{
  Bool, List, Option, String, [], false, if◌then◌else◌, length, ltb, map, none, not, some, str_eq,
  take, ℕ, ◌&&◌, ◌+◌, ◌-◌, ◌/◌, ◌==◌, ◌||◌, ◌∷◌,
}
use codex_daily_prewarm.Clock.{Time, is_after, is_before, is_zero, second}
use codex_daily_prewarm.Data.Config.{PluginConfig}
use codex_daily_prewarm.Data.Run.{RunRecord, RunRequest}
use codex_daily_prewarm.Data.State.{Runtime, account_window, persist_state, set_last_error}
use codex_daily_prewarm.Lifecycle.Queue.{requeue_interrupted}
use codex_daily_prewarm.Notify.Process.{Message, record_notifications}
use codex_daily_prewarm.Run.Account.{interrupted_run}
use codex_daily_prewarm.Run.Check.{is_empty}
use codex_daily_prewarm.Run.Host.{Auth, RunHost, World, account_fingerprint, on_runtime}
use codex_daily_prewarm.Run.Initial.{InitialEvent, fetch_initial_usages_until}
use codex_daily_prewarm.Run.Inventory.{
  abort_for_account_count, eligible_codex_auths, selected_auths,
}
use codex_daily_prewarm.Run.Loop.{pairs, run_accounts}

abbrev pub max_history_items : ℕ
max_history_items = 30

-- The earliest and the latest reset so far, and the number of accounts with one.
pub record Spread : Type 0 where
  pub earliest : Time
  pub latest : Time
  pub reset_count : ℕ

abbrev pub with_reset : Time → Spread → Spread
with_reset reset s = record {
  earliest = if is_zero s.earliest || is_before reset s.earliest then reset else s.earliest;
  latest = if is_zero s.latest || is_after reset s.latest then reset else s.latest;
  reset_count = s.reset_count + 1;
}

unfoldable pub spread_over : List Time → Time → Spread → Spread
spread_over [] now s = s
spread_over (reset ∷ resets) now s =
    spread_over resets now (if is_after reset now then with_reset reset s else s)

abbrev pub no_spread : Spread
no_spread = record { earliest = 0; latest = 0; reset_count = 0 }

unfoldable pub spread_of : List Time → Time → ℕ × Option ℕ
spread_of resets now =
    let s = spread_over resets now no_spread in
    if not (s.reset_count == length resets) || ltb s.reset_count 2
    then (s.reset_count, none)
    else (s.reset_count, some ((s.latest - s.earliest) / second))

abbrev pub resets_of : (Auth → String) → List Auth → Runtime → List Time
resets_of fingerprint auths r =
    map (λ a. (account_window r (fingerprint a)).five_hour_window.reset_at) auths

unfoldable pub reset_spread : (Auth → String) → List Auth → Time → Runtime → ℕ × Option ℕ
reset_spread fingerprint auths now r = spread_of (resets_of fingerprint auths r) now

abbrev pub started_run : PluginConfig → RunRequest → Time → RunRecord
started_run cfg request now = record {
  run_job = request.job.name;
  run_trigger = request.trigger;
  run_slot = request.slot;
  run_target = request.target_account;
  run_followup = request.followup_kind;
  run_force = request.force;
  run_model = request.job.job_model;
  run_started_at = now;
  run_finished_at = 0;
  expected_accounts = cfg.expected_account_count;
  discovered = 0;
  attempted = 0;
  quota_queried = 0;
  would_warm_count = 0;
  bark_status = "";
  succeeded = 0;
  skipped = 0;
  failed_count = 0;
  observed_reset_count = 0;
  reset_spread_seconds = none;
  success = false;
  run_error_code = "";
  results = [];
}

abbrev pub with_run_error : String → RunRecord → RunRecord
with_run_error code run = record run { run_error_code = code }

-- The end of a loop that was not cut short.
abbrev pub closed_run : ℕ × Option ℕ → RunRecord → RunRecord
closed_run (count, spread) run = record run {
  run_error_code =
      if run.succeeded + run.skipped == run.discovered
      then run.run_error_code
      else "one_or_more_accounts_failed";
  observed_reset_count = count;
  reset_spread_seconds = spread;
}

-- The error code and the success of a run that ends, given whether a write has failed since its
-- start.
unfoldable pub judged_run : Bool → Time → RunRecord → RunRecord
judged_run write_failed now run =
    let code =
      if write_failed && not (str_eq run.run_error_code "interrupted")
      then "state_write_failed"
      else run.run_error_code in
    record run {
      run_finished_at = now;
      run_error_code = code;
      success =
          is_empty code && (run.succeeded + run.skipped == run.discovered) && ltb 0 run.discovered;
    }

abbrev pub with_history : List RunRecord → Runtime → Runtime
with_history runs r = record r { state = record (r.state) { history = runs } }

abbrev pub replace_head : RunRecord → List RunRecord → List RunRecord
replace_head run [] = []
replace_head run (old ∷ runs) = run ∷ runs

abbrev pub unsaved_run : RunRecord → RunRecord
unsaved_run run = record run { success = false; run_error_code = "state_write_failed" }

unfoldable pub append_run : RunRecord → Bool → Runtime → RunRecord × Runtime
append_run run written r =
    let added = with_history (take max_history_items (run ∷ r.state.history)) r in
    let r' = persist_state written added in
    if written then (run, r') else (
      unsaved_run run,
      set_last_error "state_write_failed"
          (with_history (replace_head (unsaved_run run) r'.state.history) r'),
    )

module _ {W : Type 0} (h : RunHost W) where
  -- `appendAuditEntry` and the note of its failure.
  unfoldable pub audited : World W → World W
  audited w =
      let (written, w') = h.next_audit w in
      if written then w' else on_runtime (set_last_error "audit_write_failed") w'

  module _ (cfg : PluginConfig) (request : RunRequest) (es : List InitialEvent) where
    unfoldable pub run_queries : List Auth → RunRecord → World W → RunRecord × World W
    run_queries auths run w =
        let (firsts, w1) = fetch_initial_usages_until h es auths w in
        let (run', done, w2) = run_accounts h cfg request (pairs auths firsts) run 0 w1 in
        if h.is_stopped w1
        then (interrupted_run run, w1)
        else if done
        then (
          closed_run (reset_spread (account_fingerprint h) auths (h.run_clock w2) w2.0) run',
          w2,
        )
        else (run', w2)

    unfoldable pub run_inventory : List Auth → RunRecord → World W → RunRecord × World W
    run_inventory auths run w =
        let chosen = selected_auths (account_fingerprint h) request.target_account auths in
        if abort_for_account_count cfg.expected_account_count (length auths)
        then (with_run_error "unexpected_account_count" run, w)
        else if length auths == 0
        then (with_run_error "no_eligible_codex_accounts" run, w)
        else if length chosen == 0
        then (with_run_error "target_account_unavailable" run, w)
        else run_queries chosen (record run { discovered = length chosen }) w

    abbrev pub run_files : Option (List Auth) → RunRecord → World W → RunRecord × World W
    run_files none run w = (with_run_error "auth_inventory_unavailable" run, w)
    run_files (some files) run w = run_inventory (eligible_codex_auths h.lower files) run w

    unfoldable pub run_body : RunRecord → World W → RunRecord × World W
    run_body run w =
        let (files, w') = h.list_files (h.refresh_display w) in
        if h.is_stopped w then (interrupted_run run, w) else run_files files run w'

    abbrev pub requeued_run : RunRecord → World W → World W
    requeued_run run w =
        let (written, w') = h.next_write w in
        if str_eq run.run_error_code "interrupted"
        then on_runtime (requeue_interrupted request written) w'
        else w

    -- The deferred function: the verdict, the requeue, the notices, of which `recordNotifications`
    -- sets the end of the run once more, and the history.
    unfoldable pub finish_record : ℕ → RunRecord → World W → List Message × RunRecord × World W
    finish_record failures run w =
        let judged = judged_run (not (w.0.state_write_failures == failures)) (h.run_clock w) run in
        let (a, w1) = h.notice_answers (requeued_run judged w) in
        let noted : RunRecord = record judged { run_finished_at = h.run_clock w1 } in
        let (status, messages, r) =
          record_notifications h.show_natural cfg (h.run_clock w1) noted request.notify a w1.0 in
        let (written, w2) = h.next_write (r, w1.1) in
        let (run', r') = append_run (record noted { bark_status = status }) written w2.0 in
        (messages, run', audited (r', w2.1))

abbrev pub effective_request : RunRequest → RunRequest
effective_request request = record request {
  read_only = request.read_only || str_eq request.trigger "quota_refresh";
}

module _ {W : Type 0} (h : RunHost W) where
  unfoldable pub execute_run :
      PluginConfig → RunRequest → List InitialEvent → World W → List Message × RunRecord × World W
  execute_run cfg request' es w =
      let request = effective_request request' in
      let (run, w1) =
        run_body h cfg request es (started_run cfg request (h.run_clock w)) (audited h w) in
      finish_record h cfg request es w.0.state_write_failures run w1
