-- ===== src/Config/Checked.antt =====
-- The errors of `parsePluginConfig`, one for each message, and chains of steps that may fail.
use codex_daily_prewarm.Base.{Bool, Option, false, none, some, true}

pub data ConfigError : Type 0 where
  decode_failed bad_bark_url allowlist_too_long bad_fingerprint : ConfigError
  bad_account_spacing bad_clock same_quiet_times bad_failure_streak : ConfigError
  bad_account_count bad_quota_policy bad_followup_mode spacing_out_of_range : ConfigError
  bad_retry_count bad_model bad_fallback_model bad_prompt path_not_absolute : ConfigError
  bad_timezone bad_quota_schedule quota_crosses_midnight schedule_and_jobs : ConfigError
  too_many_jobs bad_schedule not_a_spec night_hours crosses_midnight bad_job_name : ConfigError

pub data Checked {ℓ} (A : Type ℓ) : Type ℓ where
  bad : ConfigError → Checked A
  ok : A → Checked A

-- `if test { return cfg, problem }`, for the test's negation.
abbrev pub guard : Bool → ConfigError → Checked (Unit {0})
guard false problem = bad problem
guard true problem = ok tt

-- `if value, err := …; err != nil { return cfg, problem }`.
abbrev pub or_bad {ℓ} : {A : Type ℓ} → ConfigError → Option A → Checked A
or_bad problem (some value) = ok value
or_bad problem none = bad problem

-- The first problem ends the checks.
infixl 5 ◌>>=◌ ◌>>◌
abbrev pub ◌>>=◌ {ℓ κ} : {A : Type ℓ} {B : Type κ} → Checked A → (A → Checked B) → Checked B
bad problem >>= later = bad problem
ok value >>= later = later value

abbrev pub ◌>>◌ {ℓ} : {B : Type ℓ} → Checked (Unit {0}) → Checked B → Checked B
check >> later = check >>= λ _. later
