-- ===== src/Config/Valid.antt =====
-- What holds of every configuration that `parsePluginConfig` accepts.
use text.Mathlib.Text.{starts_with}
use codex_daily_prewarm.Base.{
  All, Bool, List, Option, String, [], arith, eq_iff, false, if◌then◌else◌, length, ltb, map, none,
  not, refl, some, str_eq, suc, true, zero, ℕ, ℕ_discrete, ◌&&◌, ◌+◌, ◌<◌, ◌||◌, ◌∷◌, ◌≡◌, ◌≤◌, ◌⊎◌,
}
use codex_daily_prewarm.Clock.{day, hour}
use codex_daily_prewarm.Config.Checked.{
  Checked, ConfigError, bad, bad_schedule, guard, not_a_spec, ok, or_bad, ◌>>=◌, ◌>>◌,
}
use codex_daily_prewarm.Config.Names.{
  contains, has_bit, night_hour, valid_job_name, valid_model, validate_daytime_schedule,
}
use codex_daily_prewarm.Config.Parse.{
  Env, YamlJob, check_ranges, checked_job, checked_jobs, given_text, in_range, valid_prompt,
}
use codex_daily_prewarm.Data.Config.{PluginConfig, PrewarmJob, Schedule, Spec}
use codex_daily_prewarm.Text.{trim_space}

-- The set of hours of the schedule has none from 0 to 4, and the sets do not have both the hour 23
-- and the minute 59. These are hours of the zone of the schedule, of which nothing is said here.
abbrev pub IsDaytime : Schedule → Type 0
IsDaytime schedule =
    (spec : Spec) × (schedule.spec ≡ some spec)
    × ((h : ℕ) → h < 5 → has_bit spec.hours h ≡ false)
    × (has_bit spec.hours 23 && has_bit spec.minutes 59 ≡ false)

pub record IsValidJob (job : PrewarmJob) : Type 0 where
  pub named : valid_job_name job.name ≡ true
  pub daytime : IsDaytime job.job_cron
  pub modelled : valid_model job.job_model ≡ true
  pub prompted : valid_prompt job.job_prompt ≡ true
  pub prewarms : job.quota_only ≡ false

-- No two jobs have one name.
abbrev pub names : List PrewarmJob → List String
names = map (λ j. j.name)

abbrev pub IsUnique : List String → Type 0
IsUnique [] = Unit {0}
IsUnique (s ∷ ss) = (contains s ss ≡ false) × IsUnique ss

pub record InRanges (cfg : PluginConfig) : Type 0 where
  pub quiet_differs : str_eq cfg.quiet_start cfg.quiet_end ≡ false
  pub streak : in_range 1 100 cfg.unknown_failure_streak ≡ true
  pub account_count : in_range 0 100 cfg.expected_account_count ≡ true
  pub policy : cfg.unknown_quota_policy ≡ "skip"
  pub followup_mode :
      (cfg.reset_followup_mode ≡ "off")
      ⊎ (cfg.reset_followup_mode ≡ "observe")
      ⊎ (cfg.reset_followup_mode ≡ "active")
  pub spacing : in_range 0 hour cfg.account_spacing ≡ true
  pub retries : in_range 0 3 cfg.retry_count ≡ true
  pub primary_model : valid_model cfg.model ≡ true
  pub other_model : valid_model cfg.fallback_model ≡ true
  pub prompt_given : valid_prompt cfg.prompt ≡ true
  pub absolute : starts_with cfg.state_path "/" ≡ true

pub guard-eq_ok :
    {B : Type 0} (b : Bool) (e : ConfigError) (k : Checked B) {x : B}
    → (guard b e >> k) ≡ ok x
    → (b ≡ true) × (k ≡ ok x)
guard-eq_ok true e k h = (refl, h)
guard-eq_ok false e k h = cc

pub bind-eq_ok :
    {A B : Type 0} (check : Checked A) (later : A → Checked B) {final : B}
    → (check >>= later) ≡ ok final
    → (value : A) × (check ≡ ok value) × (later value ≡ ok final)
bind-eq_ok (bad problem) later passed = cc
bind-eq_ok (ok value) later passed = (value, refl, passed)

pub guard-true : (b : Bool) (e : ConfigError) → guard b e ≡ ok tt → b ≡ true
guard-true true e h = refl
guard-true false e h = cc

pub or_bad-eq_ok :
    {A : Type 0} (e : ConfigError) (o : Option A) {a : A} → or_bad e o ≡ ok a → o ≡ some a
or_bad-eq_ok e none h = cc
or_bad-eq_ok e (some a) h = cc

pub check_ranges-InRanges : (cfg : PluginConfig) → check_ranges cfg ≡ ok tt → InRanges cfg
unfolding check_ranges
check_ranges-InRanges cfg h = ground (
  arith,
  eq_iff cfg.unknown_quota_policy "skip",
  eq_iff cfg.reset_followup_mode "off",
  eq_iff cfg.reset_followup_mode "observe",
  eq_iff cfg.reset_followup_mode "active",
)

pub or-eq_false : (a b : Bool) → (a || b) ≡ false → (a ≡ false) × (b ≡ false)
or-eq_false a b h = ground arith

pub and-eq_true : (a b : Bool) → (a && b) ≡ true → (a ≡ true) × (b ≡ true)
and-eq_true a b h = ground arith

pub not-eq_true : (a : Bool) → not a ≡ true → a ≡ false
not-eq_true a h = ground arith

night_hour-lt :
    (hours rounds start h : ℕ)
    → night_hour hours rounds start ≡ false
    → start ≤ h
    → h < start + rounds
    → h < 5
    → has_bit hours h ≡ false
unfolding night_hour
night_hour-lt hours zero start h e from to lt = absurd (omega arith)
night_hour-lt hours (suc rounds) start h e from to lt =
    let (now, later) = or-eq_false _ _ e in
    elim (ℕ_discrete start h) [
      | yes same ↦ rw (← same) (early hours start (rw (← same) at lt) now)
      | no differ ↦ night_hour-lt hours rounds (start + 1) h later (omega arith) (omega arith) lt
    ]
  where
    early :
        (hours start : ℕ)
        → start < 5
        → (has_bit hours start && (ltb start 5 || ltb 23 start)) ≡ false
        → has_bit hours start ≡ false
    early hours start lt e = ground arith

pub validate-IsDaytime :
    (schedule : Schedule) → validate_daytime_schedule schedule ≡ ok tt → IsDaytime schedule
unfolding validate_daytime_schedule
validate-IsDaytime schedule h =
    let (spec, e, k) = bind-eq_ok (or_bad not_a_spec schedule.spec) _ h in
    let (quiet, last) = guard-eq_ok (not (night_hour spec.hours 24 0)) _ _ k in
    (
      spec,
      or_bad-eq_ok _ _ e,
      λ n lt. night_hour-lt spec.hours 24 0 n (not-eq_true _ quiet) (omega arith) (omega arith) lt,
      not-eq_true _ (guard-true _ _ last),
    )

pub ok-injective : {A : Type 0} (a b : A) → ok a ≡ ok b → a ≡ b
ok-injective a b h = cc

pub checked_job-IsValidJob :
    (env : Env) (cfg : PluginConfig) (seen : List String) (item : YamlJob) (job : PrewarmJob)
    → checked_job env cfg seen item ≡ ok job
    → IsValidJob job × (contains job.name seen ≡ false)
unfolding checked_job
checked_job-IsValidJob env cfg seen item job h =
    let name = trim_space item.yaml_name in
    let (named, h1) =
      guard-eq_ok
        (valid_job_name name && not (str_eq name "quota-refresh") && not (contains name seen)) _ _
        h in
    let (schedule, _, h2) =
      bind-eq_ok (or_bad bad_schedule (env.parse_cron (trim_space item.yaml_schedule))) _ h1 in
    let (_, day, h3) = bind-eq_ok (validate_daytime_schedule schedule) _ h2 in
    let (modelled, h4) = guard-eq_ok (valid_model (given_text item.yaml_model cfg.model)) _ _ h3 in
    let (prompted, h5) =
      guard-eq_ok
        (valid_prompt (if str_eq item.yaml_prompt "" then cfg.prompt else item.yaml_prompt)) _ _
        h4 in
    rw (← ok-injective _ _ h5) (
      record {
        named = (and-eq_true _ _ (and-eq_true _ _ named).0).0;
        daytime = validate-IsDaytime schedule day;
        modelled = modelled;
        prompted = prompted;
        prewarms = refl;
      },
      not-eq_true _ (and-eq_true _ _ named).1,
    )

-- A loop over the jobs names none that is behind it, and no two alike.
pub record AreValidJobs (seen : List String) (jobs : List PrewarmJob) : Type 0 where
  pub each : All IsValidJob jobs
  pub fresh : All (λ j. contains j.name seen ≡ false) jobs
  pub unique : IsUnique (names jobs)

-- The names of later jobs differ from a name that they saw.
fresh-names :
    (name : String) (seen : List String) (jobs : List PrewarmJob)
    → All (λ j. contains j.name (name ∷ seen) ≡ false) jobs
    → (contains name (names jobs) ≡ false) × All (λ j. contains j.name seen ≡ false) jobs
fresh-names name seen [] h = (refl, tt)
fresh-names name seen (j ∷ js) h =
    ground (arith, fresh-names name seen js h.1, eq_iff j.name name, eq_iff name j.name)

pub checked_jobs-AreValidJobs :
    (env : Env) (cfg : PluginConfig) (seen : List String) (items : List YamlJob)
    (jobs : List PrewarmJob)
    → checked_jobs env cfg seen items ≡ ok jobs
    → AreValidJobs seen jobs × (length jobs ≡ length items)
unfolding checked_jobs
checked_jobs-AreValidJobs env cfg seen [] jobs h =
    rw (← ok-injective _ _ h) (record { each = tt; fresh = tt; unique = tt }, refl)
checked_jobs-AreValidJobs env cfg seen (item ∷ items) jobs h =
    let (job, e, k) = bind-eq_ok (checked_job env cfg seen item) _ h in
    let (rest, f, last) = bind-eq_ok (checked_jobs env cfg (job.name ∷ seen) items) _ k in
    let (valid, new) = checked_job-IsValidJob env cfg seen item job e in
    let (all, same) = checked_jobs-AreValidJobs env cfg (job.name ∷ seen) items rest f in
    let (unseen, others) = fresh-names job.name seen rest all.fresh in
    rw (← ok-injective _ _ last) (
      record { each = (valid, all.each); fresh = (new, others); unique = (unseen, all.unique) },
      omega (arith, same),
    )
