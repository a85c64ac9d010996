-- ===== src/Run/Host.antt =====
-- The surroundings of `executeRun`. A world is the runtime together with everything else, `W`; each
-- action of the surroundings may change both, since other goroutines use the runtime while a run
-- queries, waits or calls a model.
use codex_daily_prewarm.Base.{
  Bool, List, Option, String, false, if◌then◌else◌, leb_ℤ, not, pos, true, ℕ, ℤ, ◌&&◌,
}
use codex_daily_prewarm.Clock.{Duration, Time}
use codex_daily_prewarm.Data.State.{Runtime}
use codex_daily_prewarm.Model.Answer.{HostReply}
use codex_daily_prewarm.Notify.Process.{Answers}
use codex_daily_prewarm.Quota.Confirm.{Outcome}
use codex_daily_prewarm.Quota.Fetch.{UsageHost, fetch_usage}
use codex_daily_prewarm.Text.{trim_space}

-- `pluginapi.HostAuthFileEntry`, as far as the runs read it.
pub record Auth : Type 0 where
  pub auth_id : String
  pub auth_index : String
  pub provider : String
  pub auth_kind : String
  pub auth_account_type : String
  pub disabled : Bool

abbrev pub World : Type 0 → Type 0
World W = Runtime × W

-- `clock` is the time now, `next_write` and `next_audit` tell whether the next write to the state
-- file or the audit log succeeds, and `elapse` waits: whether the timer fired before the stop signal.
pub record RunHost (W : Type 0) : Type 0 where
  pub is_stopped : World W → Bool
  pub run_clock : World W → Time
  pub next_write : World W → Bool × World W
  pub next_audit : World W → Bool × World W
  pub refresh_display : World W → World W
  pub list_files : World W → Option (List Auth) × World W
  pub usage : UsageHost (World W)
  pub elapse : Duration → World W → Bool × World W
  pub call_model : String → World W → HostReply × World W
  pub notice_answers : World W → Answers × World W
  pub fingerprint_of : String → String
  pub lower : String → String
  pub show_integer : ℤ → String
  pub show_natural : ℕ → String

module _ {W : Type 0} where
  -- A change of the runtime alone.
  abbrev pub on_runtime : (Runtime → Runtime) → World W → World W
  on_runtime f w = (f w.0, w.1)

module _ {W : Type 0} (h : RunHost W) where
  -- `waitForRun`.
  unfoldable pub wait_for_run : Duration → World W → Bool × World W
  wait_for_run duration w =
      let (fired, w') = h.elapse duration w in
      if h.is_stopped w
      then (false, w)
      else if leb_ℤ duration (pos 0)
      then (true, w)
      else (fired && not (h.is_stopped w'), w')

  -- `accountFingerprint`; the digest is a library's.
  abbrev pub account_fingerprint : Auth → String
  account_fingerprint auth = h.fingerprint_of (trim_space auth.auth_id)

  abbrev pub fetch_for : Auth → World W → Outcome (World W)
  fetch_for auth w = fetch_usage h.usage auth.auth_index w
