-- ===== src/Config/Accepted.antt =====
-- Every configuration that `parsePluginConfig` makes from a document is valid.
use Prim.Native.String.{len}
use codex_daily_prewarm.Base.{
  All, Bool-cases, List, Option, String, [], arith, false, if◌then◌else◌, inl, inr, leb, leb→le,
  length, none, not, refl, some, str_eq, true, ◌&&◌, ◌==◌, ◌∷◌, ◌≡◌, ◌≤◌,
}
use codex_daily_prewarm.Clock.{Location, day}
use codex_daily_prewarm.Config.Checked.{
  bad_quota_schedule, bad_schedule, bad_timezone, decode_failed, ok, or_bad, quota_crosses_midnight,
}
use codex_daily_prewarm.Config.Names.{
  has_bit, is_some, parse_clock, valid_job_name, validate_daytime_schedule,
}
use codex_daily_prewarm.Config.Parse.{
  Env, YamlConfig, YamlJob, check_ranges, checked_allowlist, checked_bark_url, checked_clock,
  checked_config, checked_jobs, checked_quota_schedule, checked_spacing, default_job, job_items,
  overridden, parse_plugin_config,
}
use codex_daily_prewarm.Config.Valid.{
  InRanges, IsUnique, IsValidJob, and-eq_true, bind-eq_ok, check_ranges-InRanges,
  checked_jobs-AreValidJobs, guard-eq_ok, names, not-eq_true, ok-injective, or_bad-eq_ok,
  validate-IsDaytime,
}
use codex_daily_prewarm.Data.Config.{PluginConfig, PrewarmJob, Schedule, Spec}
use codex_daily_prewarm.Text.{is_blank, trim_space}

abbrev pub IsClock : String → Type 0
IsClock text = is_some (parse_clock text) ≡ true

-- The schedule of the quota refresh does not have both the hour 23 and the minute 59 in its sets.
abbrev pub IsQuotaSchedule : Option Schedule → Type 0
IsQuotaSchedule none = Unit {0}
IsQuotaSchedule (some schedule) =
    (spec : Spec) × (schedule.spec ≡ some spec)
    × (has_bit spec.minutes 59 && has_bit spec.hours 23 ≡ false)

-- What the checks on single options leave.
pub record HasOptions (cfg : PluginConfig) : Type 0 where
  pub digest_clock : IsClock cfg.digest_time
  pub start_clock : IsClock cfg.quiet_start
  pub end_clock : IsClock cfg.quiet_end

pub record HasJobs (jobs : List PrewarmJob) : Type 0 where
  pub some_job : 1 ≤ length jobs
  pub few_jobs : length jobs ≤ 16
  pub valid_jobs : All IsValidJob jobs
  pub distinct : IsUnique (names jobs)

pub record IsValidConfig (cfg : PluginConfig) : Type 0 where
  pub ranges : InRanges cfg
  pub options : HasOptions cfg
  pub its_jobs : HasJobs cfg.jobs
  pub quota_refresh : IsQuotaSchedule cfg.quota_cron_schedule

checked_clock-IsClock :
    (input default' text : String) → checked_clock input default' ≡ ok text → IsClock text
unfolding checked_clock
checked_clock-IsClock input default' text h =
    let t = if str_eq input "" then default' else trim_space input in
    let (good, e) = guard-eq_ok (is_some (parse_clock t) && (len t == 5)) _ _ h in
    rw (← ok-injective _ _ e) (and-eq_true _ _ good).0

default_named : valid_job_name "default" ≡ true
unfolding valid_job_name
default_named = refl

-- The fields that jobs, schedules and zone do not touch.
module _ (cfg : PluginConfig) (text : String) (quota cron : Option Schedule) (zone : Location)
    (jobs : List PrewarmJob) where
  abbrev changed : PluginConfig
  changed = record cfg {
    schedule = text;
    quota_cron_schedule = quota;
    cron_schedule = cron;
    location = zone;
    jobs = jobs;
  }

  InRanges-same : InRanges cfg → InRanges changed
  InRanges-same r = record {
    quiet_differs = r.quiet_differs;
    streak = r.streak;
    account_count = r.account_count;
    policy = r.policy;
    followup_mode = r.followup_mode;
    spacing = r.spacing;
    retries = r.retries;
    primary_model = r.primary_model;
    other_model = r.other_model;
    prompt_given = r.prompt_given;
    absolute = r.absolute;
  }

  HasOptions-same : HasOptions cfg → HasOptions changed
  HasOptions-same o = record {
    digest_clock = o.digest_clock;
    start_clock = o.start_clock;
    end_clock = o.end_clock;
  }

module _ (env : Env) where
  overridden-HasOptions :
      (y : YamlConfig) (d cfg : PluginConfig) → overridden env y d ≡ ok cfg → HasOptions cfg
  unfolding overridden
  overridden-HasOptions y d cfg h =
      let (bark, _, h1) = bind-eq_ok (checked_bark_url env y.in_bark_url d.bark_url) _ h in
      let (allowed, _, h2) =
        bind-eq_ok (checked_allowlist y.in_warm_allowlist d.warm_allowlist) _ h1 in
      let (spacing, _, h3) =
        bind-eq_ok (checked_spacing env y.in_account_spacing d.account_spacing) _ h2 in
      let (digest, e, h4) = bind-eq_ok (checked_clock y.in_digest_time d.digest_time) _ h3 in
      let (start, f, h5) = bind-eq_ok (checked_clock y.in_quiet_start d.quiet_start) _ h4 in
      let (end, g, h6) = bind-eq_ok (checked_clock y.in_quiet_end d.quiet_end) _ h5 in
      rw (← ok-injective _ _ h6) (record {
        digest_clock = checked_clock-IsClock _ _ digest e;
        start_clock = checked_clock-IsClock _ _ start f;
        end_clock = checked_clock-IsClock _ _ end g;
      })

  overridden_quota :
      (y : YamlConfig) (d cfg : PluginConfig)
      → d.quota_cron_schedule ≡ none
      → overridden env y d ≡ ok cfg
      → cfg.quota_cron_schedule ≡ none
  unfolding overridden
  overridden_quota y d cfg unset h =
      let (bark, _, h1) = bind-eq_ok (checked_bark_url env y.in_bark_url d.bark_url) _ h in
      let (allowed, _, h2) =
        bind-eq_ok (checked_allowlist y.in_warm_allowlist d.warm_allowlist) _ h1 in
      let (spacing, _, h3) =
        bind-eq_ok (checked_spacing env y.in_account_spacing d.account_spacing) _ h2 in
      let (digest, e, h4) = bind-eq_ok (checked_clock y.in_digest_time d.digest_time) _ h3 in
      let (start, f, h5) = bind-eq_ok (checked_clock y.in_quiet_start d.quiet_start) _ h4 in
      let (end, g, h6) = bind-eq_ok (checked_clock y.in_quiet_end d.quiet_end) _ h5 in
      rw (← ok-injective _ _ h6) unset

  checked_quota_schedule-IsQuotaSchedule :
      (cfg : PluginConfig) (q : Option Schedule)
      → cfg.quota_cron_schedule ≡ none
      → checked_quota_schedule env cfg ≡ ok q
      → IsQuotaSchedule q
  unfolding checked_quota_schedule
  checked_quota_schedule-IsQuotaSchedule cfg q none_yet h =
      elim (Bool-cases (str_eq cfg.quota_refresh_schedule "")) [
        | inl off ↦ rw (← ok-injective _ _ (rw off at h)) (rw none_yet tt)
        | inr on ↦
            let h' = rw on at h in
            let (schedule, _, h1) =
              bind-eq_ok (or_bad bad_quota_schedule (env.parse_cron cfg.quota_refresh_schedule)) _
                h' in
            let (spec, e, h2) = bind-eq_ok (or_bad quota_crosses_midnight schedule.spec) _ h1 in
            let (late, h3) =
              guard-eq_ok (not (has_bit spec.minutes 59 && has_bit spec.hours 23)) _ _ h2 in
            rw (← ok-injective _ _ h3) (spec, or_bad-eq_ok _ _ e, not-eq_true _ late)
      ]

  default_job-IsValidConfig :
      (cfg cfg' : PluginConfig)
      → InRanges cfg
      → HasOptions cfg
      → IsQuotaSchedule cfg.quota_cron_schedule
      → default_job env cfg ≡ ok cfg'
      → IsValidConfig cfg'
  unfolding default_job
  default_job-IsValidConfig cfg cfg' r o q h =
      let (schedule, _, h1) = bind-eq_ok (or_bad bad_schedule (env.parse_cron cfg.schedule)) _ h in
      let (_, day, h2) = bind-eq_ok (validate_daytime_schedule schedule) _ h1 in
      rw (← ok-injective _ _ h2) (record {
        ranges = InRanges-same cfg _ _ _ _ _ r;
        options = HasOptions-same cfg _ _ _ _ _ o;
        its_jobs = record {
          some_job = omega arith;
          few_jobs = omega arith;
          valid_jobs = (
            record {
              named = default_named;
              daytime = validate-IsDaytime schedule day;
              modelled = r.primary_model;
              prompted = r.prompt_given;
              prewarms = refl;
            },
            tt,
          );
          distinct = (refl, tt);
        };
        quota_refresh = q;
      })

  job_items-IsValidConfig :
      (text : String) (cfg cfg' : PluginConfig) (items : List YamlJob)
      → InRanges cfg
      → HasOptions cfg
      → IsQuotaSchedule cfg.quota_cron_schedule
      → job_items env text cfg items ≡ ok cfg'
      → IsValidConfig cfg'
  unfolding job_items
  job_items-IsValidConfig text cfg cfg' [] r o q h = default_job-IsValidConfig cfg cfg' r o q h
  job_items-IsValidConfig text cfg cfg' (item ∷ items) r o q h =
      let (_, h1) = guard-eq_ok (is_blank text) _ _ h in
      let (few, h2) = guard-eq_ok (leb (length (item ∷ items)) 16) _ _ h1 in
      let (jobs, e, h3) = bind-eq_ok (checked_jobs env cfg [] (item ∷ items)) _ h2 in
      let (valid, same) = checked_jobs-AreValidJobs env cfg [] (item ∷ items) jobs e in
      let bound : length (item ∷ items) ≤ 16 = leb→le _ _ few in
      rw (← ok-injective _ _ h3) (record {
        ranges = InRanges-same cfg _ _ _ _ _ r;
        options = HasOptions-same cfg _ _ _ _ _ o;
        its_jobs = record {
          some_job = omega (arith, same);
          few_jobs = omega (arith, same, bound);
          valid_jobs = valid.each;
          distinct = valid.unique;
        };
        quota_refresh = q;
      })

  -- A configuration that `parsePluginConfig` makes from a document with text: every range, model,
  -- prompt, mode and clock time is as the checks demand; there are 1 to 16 jobs, with different valid
  -- names; the sets of hours of their schedules have none from 0 to 4, and no schedule, the one of the
  -- quota refresh included, has both the hour 23 and the minute 59 in its sets. These are hours of
  -- whatever zone the schedule has. The defaults need only leave the quota refresh unset.
  pub parse_plugin_config-IsValidConfig :
      (raw : String) (document : Option YamlConfig) (default' cfg : PluginConfig)
      → is_blank raw ≡ false
      → default'.quota_cron_schedule ≡ none
      → parse_plugin_config env raw document default' ≡ ok cfg
      → IsValidConfig cfg
  unfolding parse_plugin_config checked_config
  parse_plugin_config-IsValidConfig raw document d cfg text unset h =
      let (y, _, h1) = bind-eq_ok (or_bad decode_failed document) _ (rw text at h) in
      let (c, made, h2) = bind-eq_ok (overridden env y d) _ h1 in
      let (_, checked, h3) = bind-eq_ok (check_ranges c) _ h2 in
      let (zone, _, h4) = bind-eq_ok (or_bad bad_timezone (env.load_location c.timezone)) _ h3 in
      let (quota, refresh, h5) = bind-eq_ok (checked_quota_schedule env c) _ h4 in
      let (c', with', h6) =
        bind-eq_ok
          (job_items env y.in_schedule (record c { quota_cron_schedule = quota }) y.in_jobs) _ h5 in
      let r = check_ranges-InRanges c checked in
      let o = overridden-HasOptions y d c made in
      let q =
        checked_quota_schedule-IsQuotaSchedule c quota (overridden_quota y d c unset made)
          refresh in
      let v =
        job_items-IsValidConfig y.in_schedule (record c { quota_cron_schedule = quota }) c'
          y.in_jobs (InRanges-same c _ _ _ _ _ r) (HasOptions-same c _ _ _ _ _ o) q with' in
      rw (← ok-injective _ _ h6) (record {
        ranges = InRanges-same c' _ _ _ _ _ v.ranges;
        options = HasOptions-same c' _ _ _ _ _ v.options;
        its_jobs = v.its_jobs;
        quota_refresh = v.quota_refresh;
      })
