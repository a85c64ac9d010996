-- ===== src/Data/Config.antt =====
-- config.go: `pluginConfig` and `prewarmJob`. A `cron.Schedule` comes from a library: what the plugin
-- uses of it is the next activation after a time (0 is Go's zero time, for "none") and, for a
-- `*cron.SpecSchedule`, its 64-bit sets of minutes and hours. The zone of a `*cron.SpecSchedule`, which
-- the plugin never reads, shows in the next activation alone, which is not tied to the sets here.
use codex_daily_prewarm.Base.{Bool, List, Option, String, ℕ, ℤ}
use codex_daily_prewarm.Clock.{Duration, Location, Time}

pub record Spec : Type 0 where
  pub minutes : ℕ
  pub hours : ℕ

pub record Schedule : Type 0 where
  pub next : Time → Time
  pub spec : Option Spec

pub record PrewarmJob : Type 0 where
  pub name : String
  pub quota_only : Bool
  pub job_schedule : String
  pub job_model : String
  pub job_prompt : String
  pub job_cron : Schedule

pub record PluginConfig : Type 0 where
  pub automatic_enabled : Bool
  pub dry_run : Bool
  pub bark_url : String
  pub digest_time : String
  pub quiet_start : String
  pub quiet_end : String
  pub unknown_failure_streak : ℤ
  pub warm_allowlist : List String
  pub reset_followup_mode : String
  pub schedule : String
  pub quota_refresh_schedule : String
  pub quota_cron_schedule : Option Schedule
  pub timezone : String
  pub model : String
  pub fallback_model : String
  pub prompt : String
  pub expected_account_count : ℤ
  pub unknown_quota_policy : String
  pub account_spacing : Duration
  pub retry_count : ℤ
  pub state_path : String
  pub location : Location
  pub cron_schedule : Option Schedule
  pub jobs : List PrewarmJob
