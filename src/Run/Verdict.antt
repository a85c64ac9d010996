-- ===== src/Run/Verdict.antt =====
-- runtime.go: what the success of a run says.
-- A record of a run that has done everything.
use Prim.Native.Char.{code}
use codex_daily_prewarm.Base.{
  Bool, Bool-cases, List, String, ap, arith, both-true, clash, false, if◌then◌else◌, inl, inr,
  length, ltb, ltb→lt, not, refl, str_eq, true, ℕ, ◌&&◌, ◌+◌, ◌<◌, ◌==◌, ◌≡◌, ◌⊎◌,
}
use codex_daily_prewarm.Clock.{Time}
use codex_daily_prewarm.Data.Config.{PluginConfig}
use codex_daily_prewarm.Data.Run.{RunRecord, RunRequest}
use codex_daily_prewarm.Data.State.{Runtime}
use codex_daily_prewarm.Run.Check.{is_empty}
use codex_daily_prewarm.Run.Counted.{IsTallied}
use codex_daily_prewarm.Run.Ended.{IsEnded, run_body-IsEnded}
use codex_daily_prewarm.Run.Finish.{
  append_run, audited, effective_request, execute_run, finish_record, judged_run, started_run,
}
use codex_daily_prewarm.Run.Host.{RunHost, World}
use codex_daily_prewarm.Run.Initial.{InitialEvent}
use codex_daily_prewarm.Run.Passed.{empty-eq}

pub record IsComplete (run : RunRecord) : Type 0 where
  pub has_all : length run.results ≡ run.discovered
  pub has_some : 0 < run.discovered
  pub has_no_failure : run.failed_count ≡ 0
  pub has_no_error : run.run_error_code ≡ ""

-- What the success of a record says.
record IsVerdict (run : RunRecord) : Type 0 where
  pub tally : IsTallied run
  pub all_found : run.success ≡ true → length run.results ≡ run.discovered
  pub some_found : run.success ≡ true → 0 < run.discovered
  pub none_failed : run.success ≡ true → run.failed_count ≡ 0
  pub no_error : run.success ≡ true → run.run_error_code ≡ ""

unwritten :
    (b : Bool) (code : String)
    → is_empty (if b then "state_write_failed" else code) ≡ true
    → (code ≡ "") × ((if b then "state_write_failed" else code) ≡ "")
unwritten true code e = clash (is_empty "state_write_failed") e refl
unwritten false code e = (empty-eq code e, empty-eq code e)

judged_run-IsVerdict :
    (write_failed : Bool) (now : Time) (run : RunRecord)
    → IsEnded run
    → IsVerdict (judged_run write_failed now run)
unfolding judged_run
judged_run-IsVerdict write_failed now run t =
    let b = write_failed && not (str_eq run.run_error_code "interrupted") in
    let code = if b then "state_write_failed" else run.run_error_code in
    let whole = run.succeeded + run.skipped == run.discovered in
    let some_account = ltb 0 run.discovered in
    let parts : (judged_run write_failed now run).success ≡ true
        → (is_empty code ≡ true) × (whole ≡ true) × (some_account ≡ true) =
      λ e.
        let outer = both-true (is_empty code && whole) some_account e in
        let inner = both-true (is_empty code) whole outer.0 in (inner.0, inner.1, outer.1) in
    let clear : (judged_run write_failed now run).success ≡ true
        → (run.run_error_code ≡ "") × (code ≡ "") =
      λ e. unwritten b run.run_error_code (parts e).0 in
    let found : (judged_run write_failed now run).success ≡ true
        → length run.results ≡ run.discovered =
      λ e. t.complete (ap is_empty (clear e).0) in
    record {
      tally = record {
        every = t.tally.every;
        answered_count = t.tally.answered_count;
        called_count = t.tally.called_count;
        skipped_count = t.tally.skipped_count;
      };
      all_found = found;
      some_found = λ e. ltb→lt 0 run.discovered (parts e).2;
      none_failed = λ e. ground (arith, found e, t.tally.every, (parts e).1);
      no_error = λ e. (clear e).1;
    }

unsaved_run-IsVerdict :
    (run : RunRecord) (written : Bool) (r : Runtime)
    → IsVerdict run
    → IsVerdict (append_run run written r).0
unfolding append_run
unsaved_run-IsVerdict run true r t = t
unsaved_run-IsVerdict run false r t = record {
  tally = record {
    every = t.tally.every;
    answered_count = t.tally.answered_count;
    called_count = t.tally.called_count;
    skipped_count = t.tally.skipped_count;
  };
  all_found = λ e. cc;
  some_found = λ e. cc;
  none_failed = λ e. cc;
  no_error = λ e. cc;
}

noted_run-IsVerdict :
    (now : Time) (status : String) (run : RunRecord)
    → IsVerdict run
    → IsVerdict (record run { run_finished_at = now; bark_status = status })
noted_run-IsVerdict now status run t = record {
  tally = record {
    every = t.tally.every;
    answered_count = t.tally.answered_count;
    called_count = t.tally.called_count;
    skipped_count = t.tally.skipped_count;
  };
  all_found = t.all_found;
  some_found = t.some_found;
  none_failed = t.none_failed;
  no_error = t.no_error;
}

module _ {W : Type 0} (h : RunHost W) where
  finish_record-IsVerdict :
      (cfg : PluginConfig) (request : RunRequest) (es : List InitialEvent) (failures : ℕ)
      (run : RunRecord) (w : World W)
      → IsEnded run
      → IsVerdict (finish_record h cfg request es failures run w).1
  unfolding finish_record
  finish_record-IsVerdict cfg request es failures run w t =
      unsaved_run-IsVerdict _ _ _ (noted_run-IsVerdict _ _ _ (judged_run-IsVerdict _ _ run t))

  executed-IsVerdict :
      (cfg : PluginConfig) (request : RunRequest) (es : List InitialEvent) (w : World W)
      → IsVerdict (execute_run h cfg request es w).1
  unfolding execute_run
  executed-IsVerdict cfg request' es w =
      let request = effective_request request' in
      finish_record-IsVerdict cfg request es w.0.state_write_failures _ _ (
        run_body-IsEnded h cfg request es (started_run cfg request (h.run_clock w)) (audited h w)
          (refl, refl, refl, refl, refl))

  -- Whatever the surroundings answer: the record that `executeRun` returns counts as attempted,
  -- succeeded and skipped exactly the results that say so, each result being succeeded, skipped or
  -- failed; and it either does not say success, or at least one account was found, every account
  -- that was found has its result, none has failed, and there is no error code.
  pub execute_run-IsTallied :
      (cfg : PluginConfig) (request : RunRequest) (es : List InitialEvent) (w : World W)
      → IsTallied (execute_run h cfg request es w).1
        × (((execute_run h cfg request es w).1.success ≡ false)
            ⊎ IsComplete (execute_run h cfg request es w).1)
  execute_run-IsTallied cfg request es w =
      let run = (execute_run h cfg request es w).1 in
      let t = executed-IsVerdict cfg request es w in
      (
        t.tally,
        elim (Bool-cases run.success) [
          | inl e ↦ inr (record {
            has_all = t.all_found e;
            has_some = t.some_found e;
            has_no_failure = t.none_failed e;
            has_no_error = t.no_error e;
          })
          | inr e ↦ inl e
        ],
      )
