-- ===== src/Run/Clearance.antt =====
-- runtime.go: what has to hold before the loop of `executeRun` calls a model for an account.
use mathlib.Core.Path.{subst}
use codex_daily_prewarm.Base.{
  All, All-append, Bool, Bool-cases, List, String, [], ap, clash, false, if-both, if-false, if-true,
  if◌then◌else◌, inl, inr, refl, str_eq, sym, true, ◌++◌, ◌+◌, ◌∙◌, ◌∷◌, ◌≡◌, ◌⊎◌,
}
use codex_daily_prewarm.Clock.{Time}
use codex_daily_prewarm.Data.Config.{PluginConfig}
use codex_daily_prewarm.Data.Run.{AccountResult, RunRecord, RunRequest}
use codex_daily_prewarm.Quota.Confirm.{Outcome, confirm_idle_after_spacing, quota_candidate_reason}
use codex_daily_prewarm.Quota.Evidence.{Evidence, confirm_idle_after_spacing-Evidence}
use codex_daily_prewarm.Run.Account.{
  Stepped, act_on_account, attempts_now, book_result, call_account, called_model, held_reason,
  interrupted_run, skip_account, started_result, step_account, with_model, would_call,
}
use codex_daily_prewarm.Run.Check.{
  account_of, check_account, clear_retry, is_allowed_account, is_empty, limit_now, run_callbacks,
  spacing_left,
}
use codex_daily_prewarm.Run.Host.{Auth, RunHost, World, wait_for_run}
use codex_daily_prewarm.Run.Initial.{FirstQuota}
use codex_daily_prewarm.Run.Passed.{check_account-passed, confirmed_look, if-empty, judged_world}
use codex_daily_prewarm.Run.Untouched.{check_account-core}

module _ {W : Type 0} (h : RunHost W) (cfg : PluginConfig) (request : RunRequest) where
  -- What lets the call for `auth` pass, which comes to its turn at the world `w` with the answer
  -- `first` to its first query: the run may call, the allowlist is empty or has the account, that
  -- answer has no error and makes the account a candidate, the second look, from the world after it
  -- has been saved, finds the account idle, and the limits allow a call at the end of that look,
  -- after which the model is called, at most a pending retry being cleared between.
  pub record Clearance (auth : Auth) (first : FirstQuota) (last : Time) (w : World W)
      (m : AccountResult) : Type 0 where
    pub not_dry : cfg.dry_run ≡ false
    pub not_read_only : request.read_only ≡ false
    pub not_observed : request.observe_only ≡ false
    pub allowed_account : is_allowed_account h cfg request auth ≡ true
    pub read_well : first.1 ≡ ""
    pub candidate : quota_candidate_reason first.0 ≡ ""
    pub before_look : World W
    pub saved :
        before_look
        ≡ judged_world h cfg request auth first.0 last (started_result h cfg request auth w) w
    pub look : Outcome (World W)
    pub looked :
        look
        ≡ confirm_idle_after_spacing
            (run_callbacks h cfg request auth)
            first.0
            (spacing_left h cfg request auth last before_look)
            before_look
    pub evidence :
        Evidence
          (run_callbacks h cfg request auth)
          first.0
          (wait_for_run h (spacing_left h cfg request auth last before_look) before_look).1
          look
    pub within_limits : limit_now h cfg request auth look.2 ≡ ""
    pub call_world : World W
    pub right_after : (call_world ≡ look.2) ⊎ (call_world ≡ clear_retry h cfg request auth look.2)
    pub called : m ≡ (called_model h cfg request auth call_world).0

-- A result with a model call has its clearance.
pub record IsCleared {W : Type 0} (h : RunHost W) (cfg : PluginConfig) (request : RunRequest)
    (auth : Auth) (first : FirstQuota) (last : Time) (w : World W) (res : AccountResult)
    : Type 0 where
  pub its_call : AccountResult
  pub same_account : res.account ≡ account_of h cfg request auth
  pub same_attempts : res.attempts ≡ its_call.attempts
  pub same_code : res.error_code ≡ its_call.error_code
  pub clearance : Clearance h cfg request auth first last w its_call

-- Of each result, either that it counts no model attempt, or this.
abbrev pub AreCalled : (AccountResult → Type 0) → List AccountResult → Type 0
AreCalled Q results = All (λ res. (res.attempts ≡ 0) ⊎ Q res) results

held_tests-passed :
    (a b c : Bool)
    → is_empty (
        if a
        then "quota_refresh_only"
        else if b
        then "followup_observe"
        else if c
        then "dry_run"
        else "")
      ≡ true
    → (a ≡ false) × (b ≡ false) × (c ≡ false)
held_tests-passed true b c pass = clash (is_empty "quota_refresh_only") pass refl
held_tests-passed false true c pass = clash (is_empty "followup_observe") pass refl
held_tests-passed false false true pass = clash (is_empty "dry_run") pass refl
held_tests-passed false false false pass = (refl, refl, refl)

held-passed :
    (cfg : PluginConfig) (request : RunRequest) (reason : String)
    → is_empty (held_reason cfg request reason) ≡ true
    → (is_empty reason ≡ true)
      × (request.read_only ≡ false)
      × (request.observe_only ≡ false)
      × (cfg.dry_run ≡ false)
held-passed cfg request reason pass =
    let step = if-empty (λ t. t) reason reason _ refl pass in
    let tests =
      held_tests-passed request.read_only request.observe_only cfg.dry_run
        (sym (ap is_empty step.1) ∙ pass) in
    (step.0, tests.0, tests.1, tests.2)

module _ {W : Type 0} (h : RunHost W) (cfg : PluginConfig) (request : RunRequest) (auth : Auth)
    (Q : AccountResult → Type 0) where
  abbrev StepCleared : Stepped W → Type 0
  StepCleared s = AreCalled Q s.0.results

  AreCalled-append :
      (results : List AccountResult) (res : AccountResult)
      → AreCalled Q results
      → (res.attempts ≡ 0) ⊎ Q res
      → AreCalled Q (results ++ res ∷ [])
  AreCalled-append results res clean new =
      All-append (λ r. (r.attempts ≡ 0) ⊎ Q r) results (res ∷ []) clean (new, tt)

  skip_account-StepCleared :
      (reason : String) (res : AccountResult) (run : RunRecord) (last : Time) (w : World W)
      → res.attempts ≡ 0
      → AreCalled Q run.results
      → StepCleared (skip_account h cfg request auth reason res run last w)
  unfolding skip_account
  skip_account-StepCleared reason res run last w none' clean =
      AreCalled-append run.results _ clean (inl none')

  book_result-StepCleared :
      (m res : AccountResult) (run : RunRecord) (last : Time) (w : World W)
      → Q (record (with_model m res) { attempts_24h = attempts_now h cfg request auth w })
      → AreCalled Q run.results
      → StepCleared (book_result h cfg request auth m res run last w)
  unfolding book_result
  book_result-StepCleared m res run last w new clean =
      AreCalled-append run.results _ clean (inr new)

  call_account-StepCleared :
      (res : AccountResult) (run : RunRecord) (last : Time) (w : World W) (first : FirstQuota)
      (last' : Time) (w0 : World W)
      → ((res' : AccountResult) → IsCleared h cfg request auth first last' w0 res' → Q res')
      → res.account ≡ account_of h cfg request auth
      → Clearance h cfg request auth first last' w0 (called_model h cfg request auth w).0
      → AreCalled Q run.results
      → StepCleared (call_account h cfg request auth res run last w)
  unfolding call_account
  call_account-StepCleared res run last w first last' w0 on same clear clean =
      let m = (called_model h cfg request auth w).0 in
      let w' = (called_model h cfg request auth w).1 in
      if-both StepCleared (h.is_stopped w) (interrupted_run run, last, false, w)
        (book_result h cfg request auth m res run last w') clean
        (book_result-StepCleared m res run last w'
          (on _ (record {
            its_call = m;
            same_account = same;
            same_attempts = refl;
            same_code = refl;
            clearance = clear;
          }))
          clean)

  -- The call after a look that gave no reason.
  look-Clearance :
      (first : FirstQuota) (last : Time) (w : World W)
      → let res = started_result h cfg request auth w in
        is_empty (held_reason cfg request (check_account h cfg request auth first last res w).1)
          ≡ true
        → Clearance h cfg request auth first last w
            (called_model h cfg request auth
              (check_account h cfg request auth first last
                (started_result h cfg request auth w)
                w).2).0
  look-Clearance (first, reason) last w pass =
      let res = started_result h cfg request auth w in
      let held = held-passed cfg request _ pass in
      let way = check_account-passed h cfg request auth first last res w reason held.1 held.0 in
      let before = judged_world h cfg request auth first last res w in
      let spacing' = spacing_left h cfg request auth last before in
      record {
        not_dry = held.3;
        not_read_only = held.1;
        not_observed = held.2;
        allowed_account = way.1;
        read_well = way.2;
        candidate = way.0;
        before_look = before;
        saved = refl;
        look = confirmed_look h cfg request auth first last res w;
        looked = refl;
        evidence =
            confirm_idle_after_spacing-Evidence (run_callbacks h cfg request auth) first spacing'
              before way.3;
        within_limits = way.4;
        call_world = (check_account h cfg request auth (first, reason) last res w).2;
        right_after = way.5;
        called = refl;
      }

  act_on_account-StepCleared :
      (first : FirstQuota) (last : Time) (w : World W) (run : RunRecord)
      → ((res : AccountResult) → IsCleared h cfg request auth first last w res → Q res)
      → AreCalled Q run.results
      → StepCleared (
          act_on_account h cfg request auth
            (check_account h cfg request auth first last (started_result h cfg request auth w) w)
            run
            last)
  unfolding act_on_account
  act_on_account-StepCleared first last w run on clean =
      let res = started_result h cfg request auth w in
      let l = check_account h cfg request auth first last res w in
      let same = check_account-core h cfg request auth first last res w in
      let would = would_call request l.1 in
      let held = held_reason cfg request l.1 in
      let res' : AccountResult = record (l.0) { would_warm = would } in
      let run' : RunRecord = record run {
        would_warm_count = if would then run.would_warm_count + 1 else run.would_warm_count;
      } in
      if-both StepCleared (str_eq l.1 "interrupted") (interrupted_run run, last, false, l.2)
        (if is_empty held
          then call_account h cfg request auth res' run' last l.2
          else skip_account h cfg request auth held res' run' last l.2)
        clean
        (elim (Bool-cases (is_empty held)) [
          | inl pass ↦ subst StepCleared (sym (if-true (is_empty held) _ _ pass)) (
              call_account-StepCleared res' run' last l.2 first last w on (ap (λ c. c.0) same)
                (look-Clearance first last w pass) clean)
          | inr stuck ↦
              subst StepCleared (sym (if-false (is_empty held) _ _ stuck))
                (skip_account-StepCleared held res' run' last l.2 (ap (λ c. c.1) same) clean)
        ])

  pub step_account-StepCleared :
      (first : FirstQuota) (run : RunRecord) (last : Time) (w : World W)
      → ((res : AccountResult) → IsCleared h cfg request auth first last w res → Q res)
      → AreCalled Q run.results
      → StepCleared (step_account h cfg request auth first run last w)
  unfolding step_account
  step_account-StepCleared first run last w on clean =
      if-both StepCleared (h.is_stopped w) _ _ clean (
        act_on_account-StepCleared first last w
          (record run { quota_queried = run.quota_queried + 1 }) on clean)
