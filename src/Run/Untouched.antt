-- ===== src/Run/Untouched.antt =====
-- runtime.go: the look at an account sets quota fields only.
use text.Mathlib.Text.{starts_with}
use codex_daily_prewarm.Base.{Bool, String, if-both, not, refl, str_eq, ℕ, ◌&&◌, ◌≡◌}
use codex_daily_prewarm.Clock.{Time}
use codex_daily_prewarm.Data.Config.{PluginConfig}
use codex_daily_prewarm.Data.Run.{AccountResult, RunRequest}
use codex_daily_prewarm.Quota.{QuotaObservation}
use codex_daily_prewarm.Quota.Confirm.{confirm_idle_after_spacing}
use codex_daily_prewarm.Run.Check.{
  Looked, check_account, check_confirmed, clear_retry, confirm_account, is_empty, is_targeted,
  judge_account, note_query_failure, run_callbacks, save_observation, settled_retry, spacing_left,
  static_reason, with_observation, with_status,
}
use codex_daily_prewarm.Run.Host.{Auth, RunHost, World}
use codex_daily_prewarm.Run.Initial.{FirstQuota}

-- The fields of a result that a look leaves alone.
abbrev pub core : AccountResult → String × ℕ × Bool × String × String
core res = (res.account, res.attempts, res.response_received, res.skip_reason, res.error_code)

module _ {W : Type 0} (h : RunHost W) (cfg : PluginConfig) (request : RunRequest)
    (auth : Auth) where
  abbrev SameCore : AccountResult → Looked W → Type 0
  SameCore res l = core l.0 ≡ core res

  confirm_account-core :
      (first : QuotaObservation) (last : Time) (res : AccountResult) (w : World W)
      → SameCore res (confirm_account h cfg request auth first last res w)
  unfolding confirm_account
  confirm_account-core first last res w =
      let out =
        confirm_idle_after_spacing (run_callbacks h cfg request auth) first
          (spacing_left h cfg request auth last w) w in
      if-both (SameCore res) (starts_with out.1 "idle_confirmation_") _ _ refl
        (if-both (SameCore res) (is_empty out.1) _ _ refl refl)

  judge_account-core :
      (first : QuotaObservation) (last : Time) (res : AccountResult) (w : World W)
      → SameCore res (judge_account h cfg request auth first last res w)
  unfolding judge_account
  judge_account-core first last res w =
      if-both (SameCore res) (not (is_empty (static_reason h cfg request auth first w))) _ _ refl
        (confirm_account-core first last res w)

  check_confirmed-core :
      (first : QuotaObservation) (last : Time) (res : AccountResult) (w : World W)
      → SameCore res (check_confirmed h cfg request auth first last res w)
  unfolding check_confirmed
  check_confirmed-core first last res w =
      if-both (SameCore res) (not (save_observation h cfg request auth first w).0) _ _ refl (
        if-both (SameCore res) request.read_only _ _ refl
          (judge_account-core first last (with_status "confirmed" (with_observation first res)) _))

  settled_retry-core :
      (res : AccountResult) (l : Looked W)
      → SameCore res l
      → SameCore res (settled_retry h cfg request auth l)
  settled_retry-core res (res', reason, w) e =
      if-both (SameCore res)
        (is_targeted h cfg request auth && not (str_eq res'.result_quota_status "query_failed"))
        (res', reason, clear_retry h cfg request auth w) (res', reason, w) e e

  pub check_account-core :
      (first : FirstQuota) (last : Time) (res : AccountResult) (w : World W)
      → core (check_account h cfg request auth first last res w).0 ≡ core res
  unfolding check_account
  check_account-core (first, reason) last res w =
      let noted : Looked W = (
        with_status "query_failed" res,
        reason,
        note_query_failure h cfg request auth reason reason w,
      ) in
      let checked = check_confirmed h cfg request auth first last res w in
      if-both (SameCore res) (is_empty reason) (settled_retry h cfg request auth checked)
        (settled_retry h cfg request auth noted)
        (settled_retry-core res checked (check_confirmed-core first last res w))
        (settled_retry-core res noted refl)
