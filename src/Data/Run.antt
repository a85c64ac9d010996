-- ===== src/Data/Run.antt =====
-- runtime.go and scheduler.go: slots, requests and the records of runs. `FollowupKind` is kept as
-- the list of kinds that the source joins by "+" and splits again.
use codex_daily_prewarm.Base.{Bool, List, Option, String, ℕ, ℤ}
use codex_daily_prewarm.Clock.{Time}
use codex_daily_prewarm.Data.Config.{PrewarmJob}
use codex_daily_prewarm.Quota.{QuotaObservation, QuotaWindow}

pub record ScheduledSlot : Type 0 where
  pub slot_job : String
  pub base_at : Time
  pub planned_at : Time
  pub jitter_seconds : ℕ
  pub slot_started_at : Time

pub record RunRequest : Type 0 where
  pub request_generation : ℕ
  pub trigger : String
  pub job : PrewarmJob
  pub force : Bool
  pub target_account : String
  pub followup_kind : List String
  pub due_at : Time
  pub slot : String
  pub slot_base : Time
  pub request_planned_at : Time
  pub request_jitter : ℕ
  pub read_only : Bool
  pub observe_only : Bool
  pub notify : Bool

pub record AccountResult : Type 0 where
  pub quota_before : Option QuotaObservation
  pub account : String
  pub account_type : String
  pub result_model : String
  pub started_at : Time
  pub finished_at : Time
  pub attempts : ℕ
  pub quota_checked_at : Time
  pub result_quota_status : String
  pub attempts_24h : ℕ
  pub would_warm : Bool
  pub status_code : ℤ
  pub request_sent : Bool
  pub response_received : Bool
  pub fallback_used : Bool
  pub skip_reason : String
  pub primary_reset_at : Time
  pub primary_used : String
  pub result_five_hour : QuotaWindow
  pub result_weekly : QuotaWindow
  pub error_code : String

pub record RunRecord : Type 0 where
  pub run_job : String
  pub run_trigger : String
  pub run_slot : String
  pub run_target : String
  pub run_followup : List String
  pub run_force : Bool
  pub run_model : String
  pub run_started_at : Time
  pub run_finished_at : Time
  pub expected_accounts : ℤ
  pub discovered : ℕ
  pub attempted : ℕ
  pub quota_queried : ℕ
  pub would_warm_count : ℕ
  pub bark_status : String
  pub succeeded : ℕ
  pub skipped : ℕ
  pub failed_count : ℕ
  pub observed_reset_count : ℕ
  pub reset_spread_seconds : Option ℕ
  pub success : Bool
  pub run_error_code : String
  pub results : List AccountResult
