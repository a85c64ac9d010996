-- ===== src/Tests/Samples.antt =====
-- The data of the examples.
use codex_daily_prewarm.Base.{
  String, [], arith, false, none, pos, pos_part, refl, some, true, ℕ, ◌*◌, ◌+◌, ◌/◌,
}
use codex_daily_prewarm.Clock.{Location, Time, day, hour, second}
use codex_daily_prewarm.Config.Defaults.{default_plugin_config, default_prewarm}
use codex_daily_prewarm.Config.Parse.{Env, YamlConfig}
use codex_daily_prewarm.Data.Config.{PluginConfig, PrewarmJob, Schedule}
use codex_daily_prewarm.Data.Run.{AccountResult, RunRequest, ScheduledSlot}
use codex_daily_prewarm.Data.State.{Runtime, new_state}
use codex_daily_prewarm.Lifecycle.Queue.{manual_request}
use codex_daily_prewarm.Model.Answer.{other_error}
use codex_daily_prewarm.Model.Execute.{Host, no_result}
use codex_daily_prewarm.Notify.Digest.{IsFixedZone}
use codex_daily_prewarm.Notify.Record.{Noting}
use codex_daily_prewarm.Notify.Windows.{new_window}
use codex_daily_prewarm.Quota.{QuotaObservation, QuotaWindow}
use codex_daily_prewarm.Quota.Confirm.{Callbacks}
use codex_daily_prewarm.Scheduler.Slots.{planned_slot}

-- A zone eight hours east of UTC.
abbrev pub shanghai : Location
shanghai = record { offset = λ t. pos (8 * hour) }

-- Every full hour; the sets of a cron text with minute 0 and the hours 5 to 23.
abbrev pub hourly : Schedule
hourly = record {
  next = λ t. (t / hour + 1) * hour;
  spec = some (record { minutes = 1; hours = 16_777_184 });
}

abbrev pub sample_config : PluginConfig
sample_config = default_plugin_config shanghai hourly

abbrev pub sample_job : PrewarmJob
sample_job = default_prewarm hourly

abbrev pub fresh_runtime : Runtime
fresh_runtime = record {
  cfg = sample_config;
  state = new_state;
  disk = none;
  state_write_failures = 0;
  terminal = false;
  generation = 1;
  scheduled = true;
  stopped = false;
  current_request = none;
  running = false;
  pending = [];
  closed = false;
  last_error = "";
}

-- Noon, UTC, of the thousandth day.
abbrev pub noon : Time
noon = 1000 * day + 12 * hour

abbrev pub unused_window : ℕ → Time → Time → QuotaWindow
unused_window length' reset seen = record {
  window_minutes = length';
  used_percent = pos 0;
  reset_at = reset;
  observed_at = seen;
}

-- An account that has used nothing, seen at `at`.
abbrev pub idle_at : Time → QuotaObservation
idle_at at = record {
  checked_at = at;
  five_hour = unused_window 300 (at + 5 * hour) at;
  weekly = unused_window 10080 (at + 7 * day) at;
  allowed = true;
  status = "";
}

abbrev pub timed : String → RunRequest
timed key = record (manual_request 0 "schedule" sample_job false false) { slot = key }

abbrev pub noon_slot : ScheduledSlot
noon_slot = planned_slot sample_job noon 20

-- A world that is a clock: every wait passes, every query shows an unused account.
abbrev pub idle_callbacks : Callbacks Time
idle_callbacks = record {
  now = λ w. w;
  wait = λ d w. (true, w + pos_part d);
  fetch = λ w. (idle_at w, "", w);
  save = λ o w. (true, w);
}

-- A world that counts: every reservation is granted, every call ends without a known outcome.
abbrev pub silent_host : Host ℕ
silent_host = record {
  stop_requested = λ w. false;
  reserve = λ w. (true, w + 1);
  call_host = λ m w. (other_error, w + 1);
  pause = λ d w. (true, w);
  clock = λ w. noon + w;
  lower_case = λ s. s;
  show_number = λ n. "";
}

abbrev pub failed_result : AccountResult
failed_result = record no_result { account = "a"; error_code = "http_500" }

abbrev pub no_notings : Noting
no_notings = record {
  window_now = new_window sample_config (noon + day);
  streaks = [];
  queue = [];
  immediate = [];
  deduplicated = false;
  queued = false;
}

abbrev pub no_document : YamlConfig
no_document = record {
  in_automatic_enabled = some true;
  in_dry_run = none;
  in_bark_url = "";
  in_digest_time = "";
  in_quiet_start = "";
  in_quiet_end = "";
  in_unknown_failure_streak = none;
  in_warm_allowlist = [];
  in_reset_followup_mode = "";
  in_schedule = "";
  in_quota_refresh_schedule = "";
  in_timezone = "";
  in_model = "";
  in_fallback_model = "";
  in_prompt = "";
  in_expected_account_count = none;
  in_unknown_quota_policy = "";
  in_account_spacing = "";
  in_retry_count = none;
  in_state_path = "";
  in_jobs = [];
}

-- Libraries that know one schedule and one zone.
abbrev pub sample_env : Env
sample_env = record {
  parse_cron = λ s. some hourly;
  load_location = λ s. some shanghai;
  parse_duration = λ s. none;
  bark_push_target = λ s. none;
  clean_path = λ s. s;
}

abbrev pub in_shanghai : IsFixedZone shanghai
in_shanghai = record {
  east = 8 * hour;
  west = 0;
  constant = λ t. refl;
  east_small = omega arith;
  west_small = omega arith;
}

-- The slot as a claim half a minute later leaves it.
abbrev pub claimed_noon_slot : ScheduledSlot
claimed_noon_slot = record noon_slot { slot_started_at = noon + 30 * second }
