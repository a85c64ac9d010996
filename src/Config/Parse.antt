-- ===== src/Config/Parse.antt =====
-- config.go: `parsePluginConfig`. The YAML comes decoded, with an `Option` for each pointer. What
-- the cron and YAML libraries, the zone database, the parsers of durations and URLs and the cleaning
-- of paths give is the argument `Env`.
use Prim.Native.String.{len}
use text.Mathlib.Text.{starts_with}
use codex_daily_prewarm.Base.{
  Bool, List, Option, String, [], false, if◌then◌else◌, leb, leb_ℤ, length, none, not, pos, some,
  str_eq, ℕ, ℤ, ◌&&◌, ◌==◌, ◌||◌, ◌∷◌,
}
use codex_daily_prewarm.Clock.{Duration, Location, hour}
use codex_daily_prewarm.Config.Checked.{
  Checked, allowlist_too_long, bad, bad_account_count, bad_account_spacing, bad_bark_url, bad_clock,
  bad_failure_streak, bad_fallback_model, bad_followup_mode, bad_job_name, bad_model, bad_prompt,
  bad_quota_policy, bad_quota_schedule, bad_retry_count, bad_schedule, bad_timezone, decode_failed,
  guard, ok, or_bad, path_not_absolute, quota_crosses_midnight, same_quiet_times, schedule_and_jobs,
  spacing_out_of_range, too_many_jobs, ◌>>=◌, ◌>>◌,
}
use codex_daily_prewarm.Config.Names.{
  check_fingerprints, contains, has_bit, is_some, parse_clock, valid_job_name, valid_model,
  validate_daytime_schedule,
}
use codex_daily_prewarm.Data.Config.{PluginConfig, PrewarmJob, Schedule}
use codex_daily_prewarm.Text.{is_blank, trim_space}

pub record YamlJob : Type 0 where
  pub yaml_name : String
  pub yaml_schedule : String
  pub yaml_model : String
  pub yaml_prompt : String

pub record YamlConfig : Type 0 where
  pub in_automatic_enabled : Option Bool
  pub in_dry_run : Option Bool
  pub in_bark_url : String
  pub in_digest_time : String
  pub in_quiet_start : String
  pub in_quiet_end : String
  pub in_unknown_failure_streak : Option ℤ
  pub in_warm_allowlist : List String
  pub in_reset_followup_mode : String
  pub in_schedule : String
  pub in_quota_refresh_schedule : String
  pub in_timezone : String
  pub in_model : String
  pub in_fallback_model : String
  pub in_prompt : String
  pub in_expected_account_count : Option ℤ
  pub in_unknown_quota_policy : String
  pub in_account_spacing : String
  pub in_retry_count : Option ℤ
  pub in_state_path : String
  pub in_jobs : List YamlJob

pub record Env : Type 0 where
  pub parse_cron : String → Option Schedule
  pub load_location : String → Option Location
  pub parse_duration : String → Option Duration
  pub bark_push_target : String → Option (String × String)
  pub clean_path : String → String

abbrev pub given {ℓ} : {A : Type ℓ} → Option A → A → A
given none otherwise = otherwise
given (some a) otherwise = a

-- `if value := strings.TrimSpace(text); value != ""`.
abbrev pub given_text : String → String → String
given_text text otherwise =
    let value = trim_space text in if str_eq value "" then otherwise else value

abbrev pub in_range : ℕ → ℕ → ℤ → Bool
in_range low high x = leb_ℤ (pos low) x && leb_ℤ x (pos high)

abbrev pub valid_prompt : String → Bool
valid_prompt prompt = not (is_blank prompt) && leb (len prompt) 1024

-- The three clock times: given trimmed, and of the form HH:MM.
unfoldable pub checked_clock : String → String → Checked String
checked_clock input default' = do
  let text = if str_eq input "" then default' else trim_space input
  guard (is_some (parse_clock text) && (len text == 5)) bad_clock
  ok text

unfoldable pub checked_allowlist : List String → List String → Checked (List String)
checked_allowlist [] default' = ok default'
checked_allowlist (f ∷ fs) default' = do
  guard (leb (length (f ∷ fs)) 100) allowlist_too_long
  check_fingerprints [] (f ∷ fs)
  ok (f ∷ fs)

unfoldable pub check_ranges : PluginConfig → Checked (Unit {0})
check_ranges cfg = do
  guard (not (str_eq cfg.quiet_start cfg.quiet_end)) same_quiet_times
  guard (in_range 1 100 cfg.unknown_failure_streak) bad_failure_streak
  guard (in_range 0 100 cfg.expected_account_count) bad_account_count
  guard (str_eq cfg.unknown_quota_policy "skip") bad_quota_policy
  guard
      (str_eq cfg.reset_followup_mode "off"
        || str_eq cfg.reset_followup_mode "observe"
        || str_eq cfg.reset_followup_mode "active")
      bad_followup_mode
  guard (in_range 0 hour cfg.account_spacing) spacing_out_of_range
  guard (in_range 0 3 cfg.retry_count) bad_retry_count
  guard (valid_model cfg.model) bad_model
  guard (valid_model cfg.fallback_model) bad_fallback_model
  guard (valid_prompt cfg.prompt) bad_prompt
  guard (starts_with cfg.state_path "/") path_not_absolute

module _ (env : Env) where
  unfoldable pub checked_bark_url : String → String → Checked String
  checked_bark_url input default' =
      if str_eq input "" then ok default' else elim (env.bark_push_target input) [
        | none ↦ bad bad_bark_url
        | some t ↦ ok (trim_space input)
      ]

  unfoldable pub checked_spacing : String → Duration → Checked Duration
  checked_spacing input default' =
      if str_eq (trim_space input) ""
      then ok default'
      else or_bad bad_account_spacing (env.parse_duration (trim_space input))

  -- The overrides, in the source's order, with the checks that stand among them.
  unfoldable pub overridden : YamlConfig → PluginConfig → Checked PluginConfig
  overridden y cfg = do
    bark ← checked_bark_url y.in_bark_url cfg.bark_url
    allowed ← checked_allowlist y.in_warm_allowlist cfg.warm_allowlist
    spacing ← checked_spacing y.in_account_spacing cfg.account_spacing
    digest ← checked_clock y.in_digest_time cfg.digest_time
    start ← checked_clock y.in_quiet_start cfg.quiet_start
    end ← checked_clock y.in_quiet_end cfg.quiet_end
    ok (record cfg {
      automatic_enabled = given y.in_automatic_enabled cfg.automatic_enabled;
      dry_run = given y.in_dry_run cfg.dry_run;
      bark_url = bark;
      digest_time = digest;
      quiet_start = start;
      quiet_end = end;
      unknown_failure_streak = given y.in_unknown_failure_streak cfg.unknown_failure_streak;
      warm_allowlist = allowed;
      reset_followup_mode = given_text y.in_reset_followup_mode cfg.reset_followup_mode;
      schedule = given_text y.in_schedule cfg.schedule;
      quota_refresh_schedule = trim_space y.in_quota_refresh_schedule;
      timezone = given_text y.in_timezone cfg.timezone;
      model = given_text y.in_model cfg.model;
      fallback_model = given_text y.in_fallback_model cfg.fallback_model;
      prompt = if str_eq y.in_prompt "" then cfg.prompt else y.in_prompt;
      expected_account_count = given y.in_expected_account_count cfg.expected_account_count;
      unknown_quota_policy = given_text y.in_unknown_quota_policy cfg.unknown_quota_policy;
      account_spacing = spacing;
      retry_count = given y.in_retry_count cfg.retry_count;
      state_path =
          if str_eq (trim_space y.in_state_path) ""
          then cfg.state_path
          else env.clean_path (trim_space y.in_state_path);
    })

  unfoldable pub checked_quota_schedule : PluginConfig → Checked (Option Schedule)
  checked_quota_schedule cfg =
      if str_eq cfg.quota_refresh_schedule "" then ok cfg.quota_cron_schedule else do
        schedule ← or_bad bad_quota_schedule (env.parse_cron cfg.quota_refresh_schedule)
        spec ← or_bad quota_crosses_midnight schedule.spec
        guard (not (has_bit spec.minutes 59 && has_bit spec.hours 23)) quota_crosses_midnight
        ok (some schedule)

  unfoldable pub checked_job : PluginConfig → List String → YamlJob → Checked PrewarmJob
  checked_job cfg seen item = do
    let name = trim_space item.yaml_name
    guard (valid_job_name name && not (str_eq name "quota-refresh") && not (contains name seen))
        bad_job_name
    schedule ← or_bad bad_schedule (env.parse_cron (trim_space item.yaml_schedule))
    validate_daytime_schedule schedule
    let model = given_text item.yaml_model cfg.model
    guard (valid_model model) bad_model
    let prompt = if str_eq item.yaml_prompt "" then cfg.prompt else item.yaml_prompt
    guard (valid_prompt prompt) bad_prompt
    ok (record {
      name = name;
      quota_only = false;
      job_schedule = trim_space item.yaml_schedule;
      job_model = model;
      job_prompt = prompt;
      job_cron = schedule;
    })

  -- The loop over the jobs, with the names that are behind it.
  unfoldable pub checked_jobs :
      PluginConfig → List String → List YamlJob → Checked (List PrewarmJob)
  checked_jobs cfg seen [] = ok []
  checked_jobs cfg seen (item ∷ items) = do
    job ← checked_job cfg seen item
    rest ← checked_jobs cfg (job.name ∷ seen) items
    ok (job ∷ rest)

  unfoldable pub default_job : PluginConfig → Checked PluginConfig
  default_job cfg = do
    schedule ← or_bad bad_schedule (env.parse_cron cfg.schedule)
    validate_daytime_schedule schedule
    ok (record cfg {
      cron_schedule = some schedule;
      jobs =
          record {
            name = "default";
            quota_only = false;
            job_schedule = cfg.schedule;
            job_model = cfg.model;
            job_prompt = cfg.prompt;
            job_cron = schedule;
          }
          ∷ [];
    })

  -- The jobs of a document, or the default job.
  unfoldable pub job_items : String → PluginConfig → List YamlJob → Checked PluginConfig
  job_items schedule cfg [] = default_job cfg
  job_items schedule cfg (item ∷ items) = do
    guard (is_blank schedule) schedule_and_jobs
    guard (leb (length (item ∷ items)) 16) too_many_jobs
    jobs ← checked_jobs cfg [] (item ∷ items)
    ok (record cfg { jobs = jobs; schedule = ""; cron_schedule = none })

  -- The configuration from one decoded document.
  unfoldable pub checked_config : YamlConfig → PluginConfig → Checked PluginConfig
  checked_config y default' = do
    cfg ← overridden y default'
    check_ranges cfg
    location ← or_bad bad_timezone (env.load_location cfg.timezone)
    quota ← checked_quota_schedule cfg
    cfg' ← job_items y.in_schedule (record cfg { quota_cron_schedule = quota }) y.in_jobs
    ok (record cfg' { location = location })

  -- A blank text is the default configuration. `document` is the one decoded document, `none` if
  -- the decoding fails or a second document follows.
  unfoldable pub parse_plugin_config :
      String → Option YamlConfig → PluginConfig → Checked PluginConfig
  parse_plugin_config raw document default' =
      if is_blank raw
      then ok default'
      else do y ← or_bad decode_failed document; checked_config y default'
