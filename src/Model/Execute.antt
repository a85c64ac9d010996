-- ===== src/Model/Execute.antt =====
-- runtime.go: `executeAccountWithGuard`. Its surroundings act on a world `W`: the stop channel, the
-- reservation of an attempt, the call of the host, the wait between attempts, and the clock.
use codex_daily_prewarm.Base.{
  Bool, List, String, [], false, if◌then◌else◌, leb_ℤ, ltb_ℤ, negsuc, none, not, pos, str_eq, suc,
  true, zero, ℕ, ℤ, ◌&&◌, ◌*◌, ◌+◌, ◌||◌, ◌∷◌,
}
use codex_daily_prewarm.Clock.{Duration, Time, is_zero, second}
use codex_daily_prewarm.Data.Config.{PluginConfig, PrewarmJob}
use codex_daily_prewarm.Data.Run.{AccountResult}
use codex_daily_prewarm.Model.Answer.{
  HostReply, ModelAnswer, answered, callback_error, explicit_unsupported_model, is_status,
  other_error, safe_to_retry_status, undecodable, upstream_error_code, upstream_reset_at,
  valid_model_response,
}
use codex_daily_prewarm.Quota.{no_window}
use codex_daily_prewarm.Quota.Headers.{parse_quota_windows, primary_reset}

pub record Host (W : Type 0) : Type 0 where
  pub stop_requested : W → Bool
  pub reserve : W → Bool × W
  pub call_host : String → W → HostReply × W
  pub pause : Duration → W → Bool × W
  pub clock : W → Time
  pub lower_case : String → String
  pub show_number : ℤ → String

abbrev pub no_result : AccountResult
no_result = record {
  quota_before = none;
  account = "";
  account_type = "";
  result_model = "";
  started_at = 0;
  finished_at = 0;
  attempts = 0;
  quota_checked_at = 0;
  result_quota_status = "";
  attempts_24h = 0;
  would_warm = false;
  status_code = pos 0;
  request_sent = false;
  response_received = false;
  fallback_used = false;
  skip_reason = "";
  primary_reset_at = 0;
  primary_used = "";
  result_five_hour = no_window;
  result_weekly = no_window;
  error_code = "";
}

-- What a reply does to the result: it ends the attempts, or it is a failure with a status, after
-- which the model may be unsupported or the call may be tried again.
pub data Verdict : Type 0 where
  settled : AccountResult → Verdict
  refused : AccountResult → ℤ → Bool → Verdict

module _ {W : Type 0} (h : Host W) where
  unfoldable pub answer_verdict : ModelAnswer → Time → AccountResult → Verdict
  answer_verdict a now res =
      let (five, week) = parse_quota_windows a.primary_fields a.secondary_fields now in
      let reset = primary_reset a.reset_fields now in
      let res' = record res {
        status_code = a.answer_status;
        primary_reset_at =
            if is_zero reset && is_status a.answer_status 429
            then upstream_reset_at a.body_as_error now
            else reset;
        result_five_hour = five;
        result_weekly = week;
        primary_used = a.used_header;
      } in
      if leb_ℤ (pos 200) a.answer_status
        && ltb_ℤ a.answer_status (pos 300)
        && valid_model_response h.lower_case a.body_size a.body
      then settled (record res' { response_received = true; error_code = "" })
      else refused
          (record res' {
            error_code = upstream_error_code h.show_number a.body_as_error a.answer_status;
          })
          a.answer_status (explicit_unsupported_model h.lower_case a.answer_status a.body_as_error)

  unfoldable pub reply_verdict : HostReply → Time → AccountResult → Verdict
  unfolding answer_verdict
  reply_verdict (callback_error status b) now res =
      if ltb_ℤ (pos 0) status
      then refused
          (record res {
            status_code = status;
            primary_reset_at = upstream_reset_at b now;
            error_code = upstream_error_code h.show_number b status;
          })
          status (explicit_unsupported_model h.lower_case status b)
      else settled (record res { error_code = "model_execution_uncertain" })
  reply_verdict other_error now res =
      settled (record res { error_code = "model_execution_uncertain" })
  reply_verdict undecodable now res =
      settled (record res { error_code = "model_response_decode_failed" })
  reply_verdict (answered a) now res = answer_verdict a now res

  -- The result so far, whether the model is unsupported, and the world.
  abbrev pub Progress : Type 0
  Progress = AccountResult × Bool × W

  abbrev pub interrupted : AccountResult → AccountResult
  interrupted res = record res { error_code = "interrupted" }

  -- After a reply: `again` is the next round of the loop.
  unfoldable pub after_verdict :
      ℤ → ℕ → Bool → (AccountResult → Bool → W → Progress) → Verdict → W → Progress
  after_verdict retry_count attempt unsupported again (settled res) w = (res, unsupported, w)
  after_verdict retry_count attempt unsupported again (refused res status unsupported') w =
      if unsupported' || leb_ℤ retry_count (pos attempt) || not (safe_to_retry_status status)
      then (res, unsupported', w)
      else let (waited, w') = h.pause (pos ((attempt + 1) * 2 * second)) w in
        if not waited then (interrupted res, unsupported', w') else again res unsupported' w'

  -- `for attempt := 0; attempt <= cfg.RetryCount; attempt++`, with the rounds that are left.
  unfoldable pub attempt_loop : String → ℤ → ℕ → ℕ → AccountResult → Bool → W → Progress
  attempt_loop model retry_count zero attempt res unsupported w = (res, unsupported, w)
  attempt_loop model retry_count (suc rounds) attempt res unsupported w =
      let again = attempt_loop model retry_count rounds (attempt + 1) in
      if h.stop_requested w
      then (interrupted res, unsupported, w)
      else let (reserved, w1) = h.reserve w in
        if not reserved
        then (record res { error_code = "attempt_limit_or_state_write_failed" }, unsupported, w1)
        else let res1 = record res { attempts = res.attempts + 1 } in
          if h.stop_requested w1
          then (interrupted res1, unsupported, w1)
          else let (reply, w2) = h.call_host model w1 in
            after_verdict retry_count attempt unsupported again
              (reply_verdict reply (h.clock w2) (record res1 { request_sent = true })) w2

  -- The number of rounds, from 0 up to and including the retry count.
  abbrev pub rounds_of : ℤ → ℕ
  rounds_of (pos n) = n + 1
  rounds_of (negsuc n) = 0

  -- `for modelIndex, model := range models`.
  unfoldable pub model_loop : ℤ → Bool → List String → AccountResult → W → AccountResult × W
  model_loop retry_count fallback [] res w = (res, w)
  model_loop retry_count fallback (model ∷ models) res w =
      let started = record res { result_model = model; fallback_used = fallback } in
      let (res', unsupported, w') =
        attempt_loop model retry_count (rounds_of retry_count) 0 started false w in
      let rest = model_loop retry_count true models res' w' in
      if h.stop_requested w
      then (interrupted res, w)
      else if res'.response_received || not unsupported || str_eq res'.error_code "interrupted"
      then (res', w')
      else rest

  abbrev pub models_of : PluginConfig → PrewarmJob → List String
  models_of cfg job =
      if str_eq cfg.fallback_model job.job_model
      then job.job_model ∷ []
      else job.job_model ∷ cfg.fallback_model ∷ []

  unfoldable pub execute_account_with_guard :
      PluginConfig → PrewarmJob → String → String → W → AccountResult × W
  execute_account_with_guard cfg job fingerprint kind w =
      let start = record no_result {
        account = fingerprint;
        account_type = kind;
        result_model = job.job_model;
        started_at = h.clock w;
      } in
      let (res, w') = model_loop cfg.retry_count false (models_of cfg job) start w in
      (record res { finished_at = h.clock w' }, w')
