-- ===== src/Reload/Configure.antt =====
-- runtime.go: `configure`, `quiesce`, `shutdown`. The configuration comes parsed, `none` where
-- `parsePluginConfig` refuses it.
use codex_daily_prewarm.Base.{
  Bool, List, Option, String, [], false, if◌then◌else◌, none, not, some, str_eq, true, ℕ, ◌&&◌,
  ◌||◌, ◌∷◌,
}
use codex_daily_prewarm.Clock.{Time, is_zero}
use codex_daily_prewarm.Config.Names.{is_some}
use codex_daily_prewarm.Data.Config.{PluginConfig, PrewarmJob}
use codex_daily_prewarm.Data.State.{Runtime, RuntimeState, new_state}
use codex_daily_prewarm.Lifecycle.Queue.{close_gate, requeue_all}
use codex_daily_prewarm.Run.Host.{World, on_runtime}
use codex_daily_prewarm.Scheduler.Due.{Tick, bootstrap}
use codex_daily_prewarm.Scheduler.Slots.{scheduled_jobs}
use codex_daily_prewarm.StateFile.Read.{
  ReadState, StateFile, file_text, is_nil, missing_state, read_as, read_state, refused_state,
}

-- `drain` waits for the cron library, for the loop of the scheduler and for every accepted run, which
-- may all still change the world. `adds_job` is the answer of the cron library to a schedule.
pub record ReloadHost (W : Type 0) : Type 0 where
  pub read_file : String → World W → StateFile
  pub reload_clock : World W → Time
  pub drain : World W → World W
  pub requeue_writes : World W → ℕ → Bool
  pub adds_job : PrewarmJob → Bool
  pub first_tick : World W → Tick

pub data Configured : Type 0 where
  config_invalid : Configured
  plugin_shut_down : Configured
  state_refused : Configured
  history_missing : Configured
  job_refused : Configured
  config_loaded : Configured

-- `hadState`.
unfoldable pub had_state : Runtime → Bool
had_state r =
    not (is_nil r.state.accounts)
    || not (is_nil r.state.slots)
    || not (is_nil r.state.history)
    || not (is_nil r.state.daily)
    || not (is_zero r.state.notifications.next_digest_at)

-- The content of the file that is now the state file.
abbrev pub content_of : StateFile → Option RuntimeState
content_of (file_text size (some t)) = some t.stated
content_of other = none

abbrev pub loaded_runtime : PluginConfig → RuntimeState → StateFile → Runtime → Runtime
loaded_runtime new_cfg s file r = record r {
  cfg = new_cfg;
  state = s;
  disk = content_of file;
  closed = false;
  stopped = false;
  last_error = "";
}

-- Whether the first look at another state file refuses it.
abbrev pub is_bad_target : Bool → ReadState → Bool
is_bad_target had missing_state = had
is_bad_target had refused_state = true
is_bad_target had (read_as s) = false

abbrev pub is_readable : ReadState → Bool
is_readable missing_state = true
is_readable refused_state = false
is_readable (read_as s) = true

abbrev pub all_added : (PrewarmJob → Bool) → List PrewarmJob → Bool
all_added adds [] = true
all_added adds (job ∷ jobs) = let rest = all_added adds jobs in adds job && rest

abbrev pub has_producers : PluginConfig → Bool
has_producers cfg =
    cfg.automatic_enabled || is_some cfg.quota_cron_schedule || not (str_eq cfg.bark_url "")

module _ {W : Type 0} (h : ReloadHost W) where
  unfoldable pub quiesce : World W → World W
  quiesce w =
      let (handed_back, r) = close_gate w.0 in
      let w' = h.drain (r, w.1) in on_runtime (requeue_all handed_back (h.requeue_writes w')) w'

  unfoldable pub shutdown : World W → World W
  shutdown w = quiesce (on_runtime (λ r. record r { terminal = true }) w)

  abbrev pub read_at : String → World W → ReadState
  read_at path w = read_state (h.read_file path w) (h.reload_clock w)

  -- The scheduler and the jobs of the cron library.
  unfoldable pub start_producers : PluginConfig → World W → Configured × World W
  start_producers cfg w =
      if not (has_producers cfg)
      then (config_loaded, w)
      else if all_added h.adds_job (scheduled_jobs cfg)
      then (
        config_loaded,
        on_runtime
            (λ r. bootstrap (h.first_tick w) (h.reload_clock w) (record r { scheduled = true })) w,
      )
      else (job_refused, w)

  abbrev pub install : PluginConfig → RuntimeState → World W → Configured × World W
  install cfg s w =
      start_producers cfg (on_runtime (loaded_runtime cfg s (h.read_file cfg.state_path w)) w)

  unfoldable pub load_read : PluginConfig → ReadState → World W → Configured × World W
  load_read cfg missing_state w =
      if had_state w.0 then (history_missing, w) else install cfg new_state w
  load_read cfg refused_state w = (state_refused, w)
  load_read cfg (read_as s) w = install cfg s w

  abbrev pub reload : PluginConfig → World W → Configured × World W
  reload cfg w = load_read cfg (read_at cfg.state_path w) w

  unfoldable pub configure_with : PluginConfig → World W → Configured × World W
  configure_with cfg w =
      let old_path = w.0.cfg.state_path in
      if not (str_eq cfg.state_path old_path)
        && is_bad_target (had_state w.0) (read_at cfg.state_path w)
      then if is_readable (read_at old_path w)
        then (state_refused, w)
        else (state_refused, quiesce w)
      else reload cfg (quiesce w)

  unfoldable pub configure : Option PluginConfig → World W → Configured × World W
  configure none w = (config_invalid, w)
  configure (some cfg) w =
      let rest = configure_with cfg w in if w.0.terminal then (plugin_shut_down, w) else rest
