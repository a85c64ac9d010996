-- ===== src/Scheduler/Slots.antt =====
-- scheduler.go: `latestCronSlot`, `scheduledJobs`, `quotaCoveredByPrewarm` and `planSlot`. The text
-- of an instant in a key is a library's, and so an argument (`stamp`), as are the random jitter and
-- the outcome of the write.
use codex_daily_prewarm.Base.{
  Bool, List, Option, String, [], any, if◌then◌else◌, insert, keep, lookup, none, not, remove, some,
  str_append, suc, true, zero, ℕ, ◌&&◌, ◌*◌, ◌++◌, ◌+◌, ◌-◌, ◌==◌, ◌||◌, ◌∷◌,
}
use codex_daily_prewarm.Account.Followup.{in_schedule_hour}
use codex_daily_prewarm.Clock.{
  Location, Time, hour, is_after, is_before, is_zero, local_day, minute, second,
}
use codex_daily_prewarm.Data.Config.{PluginConfig, PrewarmJob, Schedule}
use codex_daily_prewarm.Data.Run.{ScheduledSlot}
use codex_daily_prewarm.Data.State.{Runtime, RuntimeState, persist_state, set_last_error}

abbrev pub max_slot_age : ℕ
max_slot_age = 48 * hour

abbrev pub slot_key : (Time → String) → String → Time → String
slot_key stamp job_name base = str_append (str_append job_name "|") (stamp base)

abbrev pub same_local_date : Time → Time → Location → Bool
same_local_date a b location = local_day location a == local_day location b

-- The loop of `latestCronSlot`: the last activation up to `now`, on fuel.
unfoldable pub latest_from : ℕ → Schedule → Time → Time → Time → Time
latest_from zero s now latest cursor = latest
latest_from (suc n) s now latest cursor =
    let at = s.next cursor in
    let rest = latest_from n s now at at in if is_zero at || is_after at now then latest else rest

-- Each activation is later than the one before it, so that 25 hours of nanoseconds are enough.
abbrev pub latest_fuel : ℕ
latest_fuel = 25 * hour + 1

unfoldable pub latest_cron_slot : Schedule → Time → Time
latest_cron_slot s now = latest_from latest_fuel s now 0 (now - 25 * hour)

abbrev pub quota_refresh_job : PluginConfig → Schedule → PrewarmJob
quota_refresh_job cfg s = record {
  name = "quota-refresh";
  quota_only = true;
  job_schedule = cfg.quota_refresh_schedule;
  job_model = "";
  job_prompt = "";
  job_cron = s;
}

abbrev pub quota_jobs : PluginConfig → Option Schedule → List PrewarmJob
quota_jobs cfg none = []
quota_jobs cfg (some s) = quota_refresh_job cfg s ∷ []

unfoldable pub scheduled_jobs : PluginConfig → List PrewarmJob
scheduled_jobs cfg =
    (if cfg.automatic_enabled then cfg.jobs else []) ++ quota_jobs cfg cfg.quota_cron_schedule

unfoldable pub quota_covered_by_prewarm : PluginConfig → Time → Bool
quota_covered_by_prewarm cfg base =
    cfg.automatic_enabled && any (λ j. j.job_cron.next (base - minute) == base) cfg.jobs

abbrev pub is_covered : PluginConfig → PrewarmJob → Time → Bool
is_covered cfg job base = job.quota_only && not (is_zero base) && quota_covered_by_prewarm cfg base

-- The slot, or the next that no prewarm covers; `none` when the skips are used up.
unfoldable pub uncovered : ℕ → PluginConfig → PrewarmJob → Time → Option Time
uncovered zero cfg job base = if is_covered cfg job base then none else some base
uncovered (suc n) cfg job base =
    let rest = uncovered n cfg job (job.job_cron.next base) in
    if is_covered cfg job base then rest else some base

abbrev pub planned_slot : PrewarmJob → Time → ℕ → ScheduledSlot
planned_slot job base jitter = record {
  slot_job = job.name;
  base_at = base;
  planned_at = base + jitter * second;
  jitter_seconds = jitter;
  slot_started_at = 0;
}

abbrev pub is_kept : Time → String × ScheduledSlot → Bool
is_kept now entry = not (is_before entry.1.base_at (now - max_slot_age))

abbrev pub with_slot : String → ScheduledSlot → Time → RuntimeState → RuntimeState
with_slot key s now state = record state { slots = keep (is_kept now) (insert key s state.slots) }

-- After a failed write the slot is dropped again, unless it has been claimed.
abbrev pub without_slot : String → ℕ → RuntimeState → RuntimeState
without_slot key jitter state = elim (lookup key state.slots) [
  | none ↦ state
  | some s ↦
      if is_zero s.slot_started_at && s.jitter_seconds == jitter
      then record state { slots = remove key state.slots }
      else state
]

abbrev pub persist_slot : String → ScheduledSlot → Time → Bool → Runtime → Runtime
persist_slot key s now written r =
    let r' = persist_state written (record r { state = with_slot key s now r.state }) in
    if written
    then r'
    else set_last_error "slot_state_write_failed"
        (record r' { state = without_slot key s.jitter_seconds r'.state })

abbrev pub is_unplannable : PrewarmJob → Time → Runtime → Bool
is_unplannable job base r =
    is_zero base
    || not job.quota_only && not (in_schedule_hour base r.cfg.location)
    || r.closed
    || not r.scheduled

abbrev pub new_slot : String → ScheduledSlot → Time → Bool → Runtime → Runtime
new_slot key s now written r = elim (lookup key r.state.slots) [
  | none ↦ persist_slot key s now written r
  | some _ ↦ r
]

unfoldable pub place_slot : String → PrewarmJob → Time → Time → ℕ → Bool → Runtime → Runtime
place_slot key job base now jitter written r =
    if is_unplannable job base r
    then r
    else new_slot key (planned_slot job base jitter) now written r

-- `rnd` is the random number below 51.
unfoldable pub plan_slot : (Time → String) → PrewarmJob → Time → Time → ℕ → Bool → Runtime → Runtime
plan_slot stamp job base now rnd written r = elim (uncovered 64 r.cfg job base) [
  | none ↦ r
  | some at ↦ place_slot (slot_key stamp job.name at) job at now (10 + rnd) written r
]
