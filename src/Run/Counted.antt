-- ===== src/Run/Counted.antt =====
-- runtime.go: the counts in the record of a run.
use mathlib.Core.Path.{subst}
use codex_daily_prewarm.Base.{
  Bool, Bool-cases, List, String, [], ap, arith, false, if-both, if-false, if-true, if◌then◌else◌,
  inl, inr, keep, keep-append, length, length-append, ltb, not, refl, str_eq, sym, true, ℕ, ◌++◌,
  ◌+◌, ◌∙◌, ◌∷◌, ◌≡◌,
}
use codex_daily_prewarm.Clock.{Time}
use codex_daily_prewarm.Data.Config.{PluginConfig}
use codex_daily_prewarm.Data.Run.{AccountResult, RunRecord, RunRequest}
use codex_daily_prewarm.Run.Account.{
  Stepped, act_on_account, attempts_now, book_result, booked_run, call_account, called_model,
  held_reason, interrupted_run, is_query_failure, skip_account, skipped_result, skipped_run,
  started_result, step_account, with_model, would_call,
}
use codex_daily_prewarm.Run.Check.{check_account, is_empty}
use codex_daily_prewarm.Run.Host.{Auth, RunHost, World}
use codex_daily_prewarm.Run.Initial.{FirstQuota}
use codex_daily_prewarm.Run.Untouched.{check_account-core}

abbrev pub is_answered : AccountResult → Bool
is_answered res = res.response_received

abbrev pub is_called : AccountResult → Bool
is_called res = ltb 0 res.attempts

abbrev pub is_skipped : AccountResult → Bool
is_skipped res = not (is_empty res.skip_reason)

-- The counts are those of the results.
pub record IsTallied (run : RunRecord) : Type 0 where
  pub every : length run.results ≡ run.succeeded + run.skipped + run.failed_count
  pub answered_count : run.succeeded ≡ length (keep is_answered run.results)
  pub called_count : run.attempted ≡ length (keep is_called run.results)
  pub skipped_count : run.skipped ≡ length (keep is_skipped run.results)

count-last :
    (p : AccountResult → Bool) (results : List AccountResult) (res : AccountResult)
    → length (keep p (results ++ res ∷ [])) ≡ length (keep p results) + (if p res then 1 else 0)
count-last p results res = rw (keep-append p results (res ∷ [])) (
    length-append (keep p results) (keep p (res ∷ []))
    ∙ ap (λ n. length (keep p results) + n) (one-count (p res)))
  where
    one-count : (b : Bool) → length (if b then res ∷ [] else []) ≡ (if b then 1 else 0)
    one-count true = refl
    one-count false = refl

-- A record with one more result, counted as it is.
pub IsTallied-last :
    (run run' : RunRecord) (res : AccountResult)
    → IsTallied run
    → run'.results ≡ run.results ++ res ∷ []
    → run'.succeeded ≡ run.succeeded + (if is_answered res then 1 else 0)
    → run'.attempted ≡ run.attempted + (if is_called res then 1 else 0)
    → run'.skipped ≡ run.skipped + (if is_skipped res then 1 else 0)
    → run'.succeeded + run'.skipped + run'.failed_count
      ≡ run.succeeded + run.skipped + run.failed_count + 1
    → IsTallied run'
IsTallied-last run run' res t same got called held one_more = record {
  every = ap length same ∙ length-append run.results (res ∷ []) ∙ omega (arith, t.every, one_more);
  answered_count =
      got
      ∙ ap (λ n. n + (if is_answered res then 1 else 0)) t.answered_count
      ∙ sym (ap (λ l. length (keep is_answered l)) same ∙ count-last is_answered run.results res);
  called_count =
      called
      ∙ ap (λ n. n + (if is_called res then 1 else 0)) t.called_count
      ∙ sym (ap (λ l. length (keep is_called l)) same ∙ count-last is_called run.results res);
  skipped_count =
      held
      ∙ ap (λ n. n + (if is_skipped res then 1 else 0)) t.skipped_count
      ∙ sym (ap (λ l. length (keep is_skipped l)) same ∙ count-last is_skipped run.results res);
}

-- From `run`, over `n` accounts, to `run'`: all of them have a result, or the run was interrupted.
pub record Went (run : RunRecord) (n : ℕ) (run' : RunRecord) (done : Bool) : Type 0 where
  pub tallied : IsTallied run → IsTallied run'
  pub same_discovered : run'.discovered ≡ run.discovered
  pub went_on :
      done ≡ true
      → (length run'.results ≡ length run.results + n) × (run'.run_error_code ≡ run.run_error_code)
  pub cut_short : done ≡ false → run'.run_error_code ≡ "interrupted"

bumped : (b b' : Bool) (n : ℕ) → b' ≡ b → (if b then n + 1 else n) ≡ n + (if b' then 1 else 0)
bumped true b' n e = rw e refl
bumped false b' n e = rw e (omega arith)

module _ (reason : String) (res : AccountResult) (now : Time) (n : ℕ) (run : RunRecord)
    (given_reason : is_empty reason ≡ false) (uncalled : is_called res ≡ false)
    (unanswered : is_answered res ≡ false) (unskipped : is_skipped res ≡ false) where
  skipped_run-Went :
      (b : Bool) → Went run 1 (skipped_run b (skipped_result b reason now n res) run) true
  skipped_run-Went true = record {
    tallied = λ t.
        IsTallied-last run _ (skipped_result true reason now n res) t refl
          (bumped false (is_answered res) run.succeeded unanswered)
          (bumped false (is_called res) run.attempted uncalled)
          (bumped false (is_skipped res) run.skipped unskipped) (omega arith);
    same_discovered = refl;
    went_on = λ _. (length-append run.results _, refl);
    cut_short = λ e. cc;
  }
  skipped_run-Went false = record {
    tallied = λ t.
        IsTallied-last run _ (skipped_result false reason now n res) t refl
          (bumped false (is_answered res) run.succeeded unanswered)
          (bumped false (is_called res) run.attempted uncalled)
          (bumped true (not (is_empty reason)) run.skipped (ap not given_reason)) (omega arith);
    same_discovered = refl;
    went_on = λ _. (length-append run.results _, refl);
    cut_short = λ e. cc;
  }

got_or_failed :
    (got : Bool) (s k f : ℕ)
    → (if got then s + 1 else s) + k + (if got then f else f + 1) ≡ s + k + f + 1
got_or_failed true s k f = omega arith
got_or_failed false s k f = omega arith

booked_run-Went :
    (called got again : Bool) (res : AccountResult) (run : RunRecord)
    → is_called res ≡ called
    → is_answered res ≡ got
    → is_skipped res ≡ false
    → Went run 1 (booked_run called got again res run) again
booked_run-Went called got again res run c g free = record {
  tallied = λ t.
      IsTallied-last run (booked_run called got again res run) res t refl
        (bumped got (is_answered res) run.succeeded g)
        (bumped called (is_called res) run.attempted c)
        (bumped false (is_skipped res) run.skipped free)
        (got_or_failed got run.succeeded run.skipped run.failed_count);
  same_discovered = refl;
  went_on = λ e. (length-append run.results _, if-true again _ _ e);
  cut_short = λ e. if-false again _ _ e;
}

-- A record that gains no result.
stopped_run-Went : (run : RunRecord) → Went run 1 (interrupted_run run) false
stopped_run-Went run = record {
  tallied = λ t. record {
    every = t.every;
    answered_count = t.answered_count;
    called_count = t.called_count;
    skipped_count = t.skipped_count;
  };
  same_discovered = refl;
  went_on = λ e. cc;
  cut_short = λ _. refl;
}

-- The counts do not depend on the numbers of queries and of candidates.
counted_first :
    (run run' : RunRecord) (q k : ℕ) (done : Bool)
    → Went (record run { quota_queried = q; would_warm_count = k }) 1 run' done
    → Went run 1 run' done
counted_first run run' q k done g = record {
  tallied = λ t. g.tallied (record {
    every = t.every;
    answered_count = t.answered_count;
    called_count = t.called_count;
    skipped_count = t.skipped_count;
  });
  same_discovered = g.same_discovered;
  went_on = g.went_on;
  cut_short = g.cut_short;
}

module _ {W : Type 0} (h : RunHost W) (cfg : PluginConfig) (request : RunRequest)
    (auth : Auth) where
  abbrev StepWent : RunRecord → Stepped W → Type 0
  StepWent run s = Went run 1 s.0 s.2

  call_account-StepWent :
      (res : AccountResult) (run : RunRecord) (last : Time) (w : World W)
      → is_skipped res ≡ false
      → StepWent run (call_account h cfg request auth res run last w)
  unfolding call_account book_result
  call_account-StepWent res run last w free =
      let m = (called_model h cfg request auth w).0 in
      let w' = (called_model h cfg request auth w).1 in
      if-both (StepWent run) (h.is_stopped w) (interrupted_run run, last, false, w)
        (book_result h cfg request auth m res run last w') (stopped_run-Went run)
        (booked_run-Went (ltb 0 m.attempts) m.response_received
          (not (str_eq m.error_code "interrupted"))
          (record (with_model m res) { attempts_24h = attempts_now h cfg request auth w' }) run refl
          refl free)

  act_on_account-StepWent :
      (first : FirstQuota) (last : Time) (w : World W) (run : RunRecord)
      → StepWent run (
          act_on_account h cfg request auth
            (check_account h cfg request auth first last (started_result h cfg request auth w) w)
            run
            last)
  unfolding act_on_account skip_account
  act_on_account-StepWent first last w run =
      let res = started_result h cfg request auth w in
      let l = check_account h cfg request auth first last res w in
      let same = check_account-core h cfg request auth first last res w in
      let would = would_call request l.1 in
      let held = held_reason cfg request l.1 in
      let res' : AccountResult = record (l.0) { would_warm = would } in
      let n = if would then run.would_warm_count + 1 else run.would_warm_count in
      let run' : RunRecord = record run { would_warm_count = n } in
      let unskipped = ap (λ c. not (is_empty c.3)) same in
      if-both (StepWent run) (str_eq l.1 "interrupted") (interrupted_run run, last, false, l.2)
        (if is_empty held
          then call_account h cfg request auth res' run' last l.2
          else skip_account h cfg request auth held res' run' last l.2)
        (stopped_run-Went run)
        (elim (Bool-cases (is_empty held)) [
          | inl pass ↦ subst (StepWent run) (sym (if-true (is_empty held) _ _ pass)) (
              counted_first run _ run.quota_queried n _
                (call_account-StepWent res' run' last l.2 unskipped))
          | inr stuck ↦ subst (StepWent run) (sym (if-false (is_empty held) _ _ stuck)) (
              counted_first run _ run.quota_queried n _ (
                skipped_run-Went held res' (h.run_clock l.2) _ run' stuck (ap (λ c. ltb 0 c.1) same)
                  (ap (λ c. c.2) same) unskipped (is_query_failure held res')))
        ])

  pub step_account-StepWent :
      (first : FirstQuota) (run : RunRecord) (last : Time) (w : World W)
      → StepWent run (step_account h cfg request auth first run last w)
  unfolding step_account
  step_account-StepWent first run last w =
      if-both (StepWent run) (h.is_stopped w) (interrupted_run run, last, false, w) _
        (stopped_run-Went run)
        (counted_first run _ (run.quota_queried + 1) run.would_warm_count _ (
          act_on_account-StepWent first last w
            (record run { quota_queried = run.quota_queried + 1 })))
