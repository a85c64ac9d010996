-- ===== src/Scheduler/Claims.antt =====
-- scheduler.go: the part of `processDue` under the lock, which claims what is due.
use codex_daily_prewarm.Base.{
  Bool, List, Map, Option, String, [], false, if◌then◌else◌, insert, leb_ℤ, lookup, none, not, pos,
  some, str_eq, ◌&&◌, ◌*◌, ◌++◌, ◌+◌, ◌==◌, ◌||◌, ◌∷◌,
}
use codex_daily_prewarm.Clock.{
  Location, Time, is_after, is_before, is_zero, local_hour, minute, sub_time,
}
use codex_daily_prewarm.Data.Account.{AccountWindow}
use codex_daily_prewarm.Data.Config.{PluginConfig, PrewarmJob}
use codex_daily_prewarm.Data.Run.{RunRequest, ScheduledSlot}
use codex_daily_prewarm.Scheduler.Slots.{same_local_date, scheduled_jobs}

-- `jobs[job.Name] = job` for every scheduled job: the last of a name stands.
abbrev pub jobs_by_name : List PrewarmJob → Map PrewarmJob → Map PrewarmJob
jobs_by_name [] m = m
jobs_by_name (j ∷ js) m = jobs_by_name js (insert j.name j m)

abbrev pub is_waiting : Time → Location → ScheduledSlot → Bool
is_waiting now location s =
    is_zero s.slot_started_at
    && not (is_after s.planned_at now)
    && same_local_date s.base_at now location
    && leb_ℤ (sub_time now s.base_at) (pos (70 * minute))

-- A prewarm slot of 23:00 lapses after two minutes.
abbrev pub is_lapsed : Time → Location → PrewarmJob → ScheduledSlot → Bool
is_lapsed now location job s =
    not job.quota_only
    && local_hour location s.base_at == 23
    && is_after now (s.base_at + 2 * minute)

abbrev pub slot_request : String → ScheduledSlot → PrewarmJob → RunRequest
slot_request key s found = record {
  request_generation = 0;
  trigger = if found.quota_only then "quota_refresh" else "schedule";
  job = found;
  force = false;
  target_account = "";
  followup_kind = [];
  due_at = 0;
  slot = key;
  slot_base = s.base_at;
  request_planned_at = s.planned_at;
  request_jitter = s.jitter_seconds;
  read_only = found.quota_only;
  observe_only = false;
  notify = false;
}

abbrev pub claim_for :
    PluginConfig
    → Time
    → String
    → ScheduledSlot
    → Option PrewarmJob
    → Option (ScheduledSlot × RunRequest)
claim_for cfg now key s none = none
claim_for cfg now key s (some found) =
    if is_lapsed now cfg.location found s
    then none
    else some (record s { slot_started_at = now }, slot_request key s found)

-- The slot after the claim and its request, if the slot is due.
unfoldable pub claim_slot :
    PluginConfig → Time → String → ScheduledSlot → Option (ScheduledSlot × RunRequest)
claim_slot cfg now key s =
    if is_waiting now cfg.location s
    then claim_for cfg now key s (lookup s.slot_job (jobs_by_name (scheduled_jobs cfg) []))
    else none

abbrev pub is_due : Time → Location → Time → Bool
is_due now location at =
    not (is_zero at) && not (is_after at now) && same_local_date at now location

-- Which of the three plans of an account are due.
pub record DuePlans : Type 0 where
  pub five_due : Bool
  pub week_due : Bool
  pub retry_due : Bool

unfoldable pub due_plans : Time → Location → AccountWindow → DuePlans
due_plans now location w = record {
  five_due = is_due now location w.five_hour_followup_at;
  week_due = is_due now location w.weekly_followup_at;
  retry_due = is_due now location w.quota_retry_at;
}

abbrev pub claim_five_hour : Bool → AccountWindow → AccountWindow
claim_five_hour due w =
    if due
    then record w { last_five_hour_r = w.five_hour_followup_r; five_hour_followup_at = 0 }
    else w

abbrev pub claim_weekly : Bool → AccountWindow → AccountWindow
claim_weekly due w =
    if due then record w { last_weekly_r = w.weekly_followup_r; weekly_followup_at = 0 } else w

abbrev pub claim_retry : Bool → AccountWindow → AccountWindow
claim_retry due w = if due then record w { quota_retry_at = 0 } else w

unfoldable pub claim_window : DuePlans → AccountWindow → AccountWindow
claim_window d w = claim_retry d.retry_due (claim_weekly d.week_due (claim_five_hour d.five_due w))

abbrev pub earlier_due : Bool → Time → Time → Time
earlier_due is_claimed at due = if is_claimed && (is_zero due || is_before at due) then at else due

abbrev pub claim_due : DuePlans → AccountWindow → Time
claim_due d w = earlier_due d.retry_due w.quota_retry_at (
    earlier_due d.week_due w.weekly_followup_at (if d.five_due then w.five_hour_followup_at else 0))

abbrev pub claim_kinds : DuePlans → List String
claim_kinds d =
    (if d.five_due then "five_hour" ∷ [] else [])
    ++ (if d.week_due then "weekly" ∷ [] else [])
    ++ (if d.retry_due then "retry" ∷ [] else [])

abbrev pub followup_request : PrewarmJob → String → String → DuePlans → AccountWindow → RunRequest
followup_request first mode account d w = record {
  request_generation = 0;
  trigger = "reset_followup";
  job = first;
  force = false;
  target_account = account;
  followup_kind = claim_kinds d;
  due_at = claim_due d w;
  slot = "";
  slot_base = 0;
  request_planned_at = 0;
  request_jitter = 0;
  read_only = false;
  observe_only = str_eq mode "observe";
  notify = false;
}

-- `current` after a failed write: only the fields of the plans are put back.
abbrev pub restored_five_hour : AccountWindow → AccountWindow → AccountWindow
restored_five_hour previous current =
    if current.last_five_hour_r == previous.five_hour_followup_r
    then record current {
      five_hour_followup_at = previous.five_hour_followup_at;
      last_five_hour_r = previous.last_five_hour_r;
    }
    else current

abbrev pub restored_weekly : AccountWindow → AccountWindow → AccountWindow
restored_weekly previous current =
    if current.last_weekly_r == previous.weekly_followup_r
    then record current {
      weekly_followup_at = previous.weekly_followup_at;
      last_weekly_r = previous.last_weekly_r;
    }
    else current

abbrev pub restored_retry : AccountWindow → AccountWindow → AccountWindow
restored_retry previous current =
    if current.quota_retry_step == previous.quota_retry_step
    then record current { quota_retry_at = previous.quota_retry_at }
    else current

unfoldable pub restored_window : AccountWindow → AccountWindow → AccountWindow
restored_window previous current =
    restored_retry previous (restored_weekly previous (restored_five_hour previous current))
