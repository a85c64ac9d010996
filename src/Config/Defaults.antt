-- ===== src/Config/Defaults.antt =====
-- config.go: `defaultPluginConfig`. The zone and the schedule are what the libraries make of the
-- default texts.
use codex_daily_prewarm.Base.{[], false, none, pos, some, true, ◌*◌, ◌∷◌}
use codex_daily_prewarm.Clock.{Location, second}
use codex_daily_prewarm.Data.Config.{PluginConfig, PrewarmJob, Schedule}

abbrev pub default_prewarm : Schedule → PrewarmJob
default_prewarm s = record {
  name = "default";
  quota_only = false;
  job_schedule = "0 5-23 * * *";
  job_model = "gpt-6-luna";
  job_prompt = "hi";
  job_cron = s;
}

abbrev pub default_plugin_config : Location → Schedule → PluginConfig
default_plugin_config loc s = record {
  automatic_enabled = false;
  dry_run = true;
  bark_url = "";
  digest_time = "22:30";
  quiet_start = "23:00";
  quiet_end = "08:00";
  unknown_failure_streak = pos 3;
  warm_allowlist = [];
  reset_followup_mode = "observe";
  schedule = "0 5-23 * * *";
  quota_refresh_schedule = "";
  quota_cron_schedule = none;
  timezone = "Asia/Shanghai";
  model = "gpt-6-luna";
  fallback_model = "gpt-5.6-luna";
  prompt = "hi";
  expected_account_count = pos 0;
  unknown_quota_policy = "skip";
  account_spacing = pos (30 * second);
  retry_count = pos 1;
  state_path = "/CLIProxyAPI/plugins/state/codex-daily-prewarm.json";
  location = loc;
  cron_schedule = some s;
  jobs = default_prewarm s ∷ [];
}
