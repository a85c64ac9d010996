-- ===== src/Tests/Settings.antt =====
-- The configuration and the texts at concrete inputs.
use codex_daily_prewarm.Base.{false, refl, some, true, ◌≡◌}
use codex_daily_prewarm.Config.Accepted.{IsValidConfig, parse_plugin_config-IsValidConfig}
use codex_daily_prewarm.Config.Checked.{ok}
use codex_daily_prewarm.Config.Names.{
  check_fingerprints, night_hour, parse_clock, valid_job_name, valid_model,
  validate_daytime_schedule,
}
use codex_daily_prewarm.Config.Parse.{
  check_ranges, checked_allowlist, checked_bark_url, checked_clock, checked_config,
  checked_quota_schedule, checked_spacing, default_job, job_items, overridden, parse_plugin_config,
}
use codex_daily_prewarm.Data.Config.{PluginConfig}
use codex_daily_prewarm.Tests.Samples.{no_document, sample_config, sample_env}
use codex_daily_prewarm.Text.{is_blank, is_space, trim_space}

trim_both : trim_space "  a b\t" ≡ "a b"
unfolding trim_space
trim_both = refl

abbrev accepted_config : PluginConfig
accepted_config = record sample_config { automatic_enabled = true }

not_blank : is_blank "automatic_enabled: true" ≡ false
unfolding is_blank is_space
not_blank = refl

accepted_document :
    parse_plugin_config sample_env "automatic_enabled: true" (some no_document) sample_config
    ≡ ok accepted_config
unfolding parse_plugin_config checked_config is_blank is_space trim_space job_items default_job
    checked_quota_schedule overridden checked_spacing checked_bark_url check_ranges
    checked_allowlist checked_clock validate_daytime_schedule night_hour parse_clock
    check_fingerprints valid_model valid_job_name
accepted_document = refl

parse_plugin_config-IsValidConfig_example : IsValidConfig accepted_config
parse_plugin_config-IsValidConfig_example =
    parse_plugin_config-IsValidConfig sample_env "automatic_enabled: true" (some no_document)
      sample_config accepted_config not_blank refl accepted_document
