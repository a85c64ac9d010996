-- ===== src/Run/Check.antt =====
-- runtime.go: `executeRun`, the part of the loop that looks at one account and gives the reason
-- against a call, "" for none.
use text.Mathlib.Text.{starts_with}
use codex_daily_prewarm.Base.{
  Bool, String, if◌then◌else◌, length, not, pos, str_eq, suc, zero, ℕ, ◌&&◌, ◌-ℤ◌, ◌==◌, ◌||◌,
}
use codex_daily_prewarm.Account.Followup.{clear_quota_retry, schedule_quota_retry}
use codex_daily_prewarm.Account.Limits.{warm_limit_reason}
use codex_daily_prewarm.Account.Results.{save_quota, save_quota_failure}
use codex_daily_prewarm.Clock.{Duration, Time, is_zero, sub_time}
use codex_daily_prewarm.Config.Names.{contains}
use codex_daily_prewarm.Data.Config.{PluginConfig}
use codex_daily_prewarm.Data.Run.{AccountResult, RunRequest}
use codex_daily_prewarm.Quota.{QuotaObservation}
use codex_daily_prewarm.Quota.Confirm.{
  Callbacks, confirm_idle_after_spacing, quota_candidate_reason,
}
use codex_daily_prewarm.Run.Host.{
  Auth, RunHost, World, account_fingerprint, fetch_for, on_runtime, wait_for_run,
}

abbrev pub drop_chars : ℕ → String → String
drop_chars zero text = text
drop_chars (suc n) String.[] = ""
drop_chars (suc n) (String.◌∷◌ letter text) = drop_chars n text

abbrev pub is_empty : String → Bool
is_empty text = str_eq text ""

abbrev pub with_observation : QuotaObservation → AccountResult → AccountResult
with_observation o res = record res {
  quota_checked_at = o.checked_at;
  result_five_hour = o.five_hour;
  result_weekly = o.weekly;
}

abbrev pub with_status : String → AccountResult → AccountResult
with_status status res = record res { result_quota_status = status }

-- The result so far, the reason, and the world.
abbrev pub Looked : Type 0 → Type 0
Looked W = AccountResult × String × World W

module _ {W : Type 0} (h : RunHost W) (cfg : PluginConfig) (request : RunRequest)
    (auth : Auth) where
  abbrev pub account_of : String
  account_of = account_fingerprint h auth

  abbrev pub is_targeted : Bool
  is_targeted = not (is_empty request.target_account)

  -- A failed query is saved, and planned again for a targeted run. The reason of a second query is
  -- saved with its prefix and planned without it.
  unfoldable pub note_query_failure : String → String → World W → World W
  note_query_failure reason retry_reason w =
      let (written, w1) = h.next_write w in
      let w2 : World W =
        on_runtime (save_quota_failure account_of (h.run_clock w1) reason written) w1 in
      let (written', w3) = h.next_write w2 in
      if is_targeted
      then on_runtime (schedule_quota_retry cfg account_of (h.run_clock w3) retry_reason written')
          w3
      else w2

  unfoldable pub save_observation : QuotaObservation → World W → Bool × World W
  save_observation o w =
      let (written, w1) = h.next_write w in
      let (saved, r) = save_quota cfg account_of o written w1.0 in (saved, (r, w1.1))

  unfoldable pub clear_retry : World W → World W
  clear_retry w =
      let (written, w1) = h.next_write w in on_runtime (clear_quota_retry account_of written) w1

  abbrev pub run_callbacks : Callbacks (World W)
  run_callbacks = record {
    now = h.run_clock;
    wait = wait_for_run h;
    fetch = fetch_for h auth;
    save = save_observation;
  }

  abbrev pub limit_now : World W → String
  limit_now w = warm_limit_reason w.0 account_of (h.run_clock w)

  -- The allowlist is empty or has the account.
  abbrev pub is_allowed_account : Bool
  is_allowed_account = (length cfg.warm_allowlist == 0) || contains account_of cfg.warm_allowlist

  -- The reasons that need no second look.
  unfoldable pub static_reason : QuotaObservation → World W → String
  static_reason first w =
      let candidate = quota_candidate_reason first in
      let limit = limit_now w in
      if not (is_empty candidate)
      then candidate
      else if not (is_empty limit)
      then limit
      else if is_allowed_account
      then ""
      else "gray_not_selected"

  -- What is left of the spacing since the last model call of the run.
  abbrev pub spacing_left : Time → World W → Duration
  spacing_left last w =
      if is_zero last then pos 0 else cfg.account_spacing -ℤ sub_time (h.run_clock w) last

  unfoldable pub confirm_account : QuotaObservation → Time → AccountResult → World W → Looked W
  confirm_account first last res w =
      let (o, reason, w1) =
        confirm_idle_after_spacing run_callbacks first (spacing_left last w) w in
      let res' = with_observation o res in
      if starts_with reason "idle_confirmation_"
      then (
        with_status "query_failed" res',
        reason,
        note_query_failure reason (drop_chars 18 reason) w1,
      )
      else if is_empty reason
      then (res', limit_now w1, w1)
      else (res', reason, w1)

  unfoldable pub judge_account : QuotaObservation → Time → AccountResult → World W → Looked W
  judge_account first last res w =
      if not (is_empty (static_reason first w))
      then (res, static_reason first w, w)
      else confirm_account first last res w

  -- The first query gave no reason.
  unfoldable pub check_confirmed : QuotaObservation → Time → AccountResult → World W → Looked W
  check_confirmed first last res w =
      let res' = with_status "confirmed" (with_observation first res) in
      let (saved, w1) = save_observation first w in
      let w2 : World W = if is_targeted then w1 else clear_retry w1 in
      if not saved
      then (res', "state_write_failed", w1)
      else if request.read_only
      then (res', "", w2)
      else judge_account first last res' w2

  -- A targeted run drops its retry once the queries have succeeded.
  abbrev pub settled_retry : Looked W → Looked W
  settled_retry (res, reason, w) =
      if is_targeted && not (str_eq res.result_quota_status "query_failed")
      then (res, reason, clear_retry w)
      else (res, reason, w)

  unfoldable pub check_account :
      QuotaObservation × String → Time → AccountResult → World W → Looked W
  check_account (first, reason) last res w =
      if is_empty reason
      then settled_retry (check_confirmed first last res w)
      else settled_retry
          (with_status "query_failed" res, reason, note_query_failure reason reason w)
