-- ===== src/Model/Attempts.antt =====
-- How many attempts `executeAccountWithGuard` makes.
use codex_daily_prewarm.Base.{
  Bool, Bool-cases, List, String, [], arith, false, inl, inr, leb_ℤ, length, ltb_ℤ, negsuc, not,
  pos, refl, str_eq, suc, true, zero, ℕ, ℤ, ◌&&◌, ◌*◌, ◌+◌, ◌||◌, ◌∷◌, ◌≡◌, ◌≤◌,
}
use codex_daily_prewarm.Clock.{Time, second}
use codex_daily_prewarm.Data.Config.{PluginConfig, PrewarmJob}
use codex_daily_prewarm.Data.Run.{AccountResult}
use codex_daily_prewarm.Model.Answer.{
  HostReply, answered, callback_error, other_error, safe_to_retry_status, undecodable,
  valid_model_response,
}
use codex_daily_prewarm.Model.Execute.{
  Host, Progress, Verdict, after_verdict, attempt_loop, execute_account_with_guard, model_loop,
  models_of, refused, reply_verdict, rounds_of, settled,
}

-- The most attempts for a retry count.
abbrev pub most_attempts : ℤ → ℕ
most_attempts (pos retries) = 2 * (retries + 1)
most_attempts (negsuc k) = 0

module _ {W : Type 0} (h : Host W) where
  verdict_result : Verdict → AccountResult
  verdict_result (settled res) = res
  verdict_result (refused res status u) = res

  reply_verdict-attempts :
      (reply : HostReply) (now : Time) (res : AccountResult)
      → (verdict_result (reply_verdict h reply now res)).attempts ≡ res.attempts
  unfolding verdict_result reply_verdict
  reply_verdict-attempts (callback_error status b) now res = ground arith
  reply_verdict-attempts other_error now res = refl
  reply_verdict-attempts undecodable now res = refl
  reply_verdict-attempts (answered a) now res =
      elim (Bool-cases (
        leb_ℤ (pos 200) a.answer_status
        && ltb_ℤ a.answer_status (pos 300)
        && valid_model_response h.lower_case a.body_size a.body)) [ inl e ↦ rw e | inr e ↦ rw e ]

  module _ (model : String) (retry_count : ℤ) where
    after_verdict-attempts :
        (attempt : ℕ) (u : Bool) (again : AccountResult → Bool → W → Progress h) (v : Verdict)
        (w : W) (res : AccountResult) (rounds : ℕ)
        → (verdict_result v).attempts ≡ res.attempts
        → ((res' : AccountResult) (u' : Bool) (w' : W)
            → (again res' u' w').0.attempts ≤ res'.attempts + rounds)
        → (after_verdict h retry_count attempt u again v w).0.attempts ≤ res.attempts + rounds
    unfolding verdict_result after_verdict
    after_verdict-attempts attempt u again (settled res') w res rounds e step = omega (arith, e)
    after_verdict-attempts attempt u again (refused res' status u') w res rounds e step =
        elim (Bool-cases
          (u' || leb_ℤ retry_count (pos attempt) || not (safe_to_retry_status status))) [
            | inl stop ↦ rw stop (omega (arith, e))
            | inr more ↦ elim (Bool-cases (h.pause (pos ((attempt + 1) * 2 * second)) w).0) [
              | inl waited ↦ rw (more, waited) (omega (arith, e, step res' u'))
              | inr cut ↦ rw (more, cut) (omega (arith, e))
            ]
          ]

    attempt_loop-attempts :
        (rounds attempt : ℕ) (res : AccountResult) (u : Bool) (w : W)
        → (attempt_loop h model retry_count rounds attempt res u w).0.attempts
          ≤ res.attempts + rounds
    unfolding attempt_loop
    attempt_loop-attempts zero attempt res u w = omega arith
    attempt_loop-attempts (suc rounds) attempt res u w = elim (Bool-cases (h.stop_requested w)) [
      | inl stop ↦ rw stop (omega arith)
      | inr on ↦ elim (Bool-cases (h.reserve w).0) [
        | inr denied ↦ rw (on, denied) (omega arith)
        | inl leave ↦ elim (Bool-cases (h.stop_requested (h.reserve w).1)) [
          | inl stop ↦ rw (on, leave, stop) (omega arith)
          | inr go ↦
              let w1 = (h.reserve w).1 in
              let reply = (h.call_host model w1).0 in
              let w2 = (h.call_host model w1).1 in
              let sent = record res { attempts = res.attempts + 1; request_sent = true } in
              let bound =
                after_verdict-attempts attempt u
                  (attempt_loop h model retry_count rounds (attempt + 1))
                  (reply_verdict h reply (h.clock w2) sent) w2 sent rounds
                  (reply_verdict-attempts reply (h.clock w2) sent)
                  (attempt_loop-attempts rounds (attempt + 1)) in
              rw (on, leave, go) (omega (arith, bound))
        ]
      ]
    ]

  model_loop-attempts :
      (retry_count : ℤ) (fallback : Bool) (models : List String) (res : AccountResult) (w : W)
      → (model_loop h retry_count fallback models res w).0.attempts
        ≤ res.attempts + length models * rounds_of h retry_count
  unfolding model_loop
  model_loop-attempts n fallback [] res w = omega arith
  model_loop-attempts n fallback (model ∷ models) res w =
      let started = record res { result_model = model; fallback_used = fallback } in
      let p = attempt_loop h model n (rounds_of h n) 0 started false w in
      let first = attempt_loop-attempts model n (rounds_of h n) 0 started false w in
      elim (Bool-cases (h.stop_requested w)) [
        | inl stop ↦ rw stop (omega arith)
        | inr on ↦
            elim (Bool-cases
              (p.0.response_received || not p.1 || str_eq p.0.error_code "interrupted")) [
                | inl end ↦ rw (on, end) (omega (arith, first))
                | inr more ↦
                    rw (on, more) (omega (arith, first, model_loop-attempts n true models p.0 p.2))
              ]
      ]

  two_models :
      (cfg : PluginConfig) (job : PrewarmJob)
      → length (models_of h cfg job) * rounds_of h cfg.retry_count ≤ 2 * rounds_of h cfg.retry_count
  two_models cfg job = elim (Bool-cases (str_eq cfg.fallback_model job.job_model)) [
    | inl same ↦ rw same (omega arith)
    | inr differ ↦ rw differ (omega arith)
  ]

  twice_rounds : (retry_count : ℤ) → 2 * rounds_of h retry_count ≤ most_attempts retry_count
  twice_rounds (pos retries) = omega arith
  twice_rounds (negsuc k) = omega arith

  -- `executeAccountWithGuard` makes at most two times the retry count plus one attempts, and none if
  -- the retry count is negative.
  pub execute_account_bounded :
      (cfg : PluginConfig) (job : PrewarmJob) (fingerprint kind : String) (w : W)
      → (execute_account_with_guard h cfg job fingerprint kind w).0.attempts
        ≤ most_attempts cfg.retry_count
  unfolding execute_account_with_guard
  execute_account_bounded cfg job fingerprint kind w =
      let models = models_of h cfg job in
      omega (
        arith,
        model_loop-attempts cfg.retry_count false models _ w,
        two_models cfg job,
        twice_rounds cfg.retry_count,
      )
