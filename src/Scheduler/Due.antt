-- ===== src/Scheduler/Due.antt =====
-- scheduler.go: `processDue` and `bootstrap`. No other section of the program runs between the claim
-- and the end of its write here.
use codex_daily_prewarm.Base.{
  Bool, List, Map, Option, String, [], if◌then◌else◌, insert, leb_ℤ, lookup, none, not, pos, some,
  str_eq, suc, ℕ, ◌&&◌, ◌*◌, ◌++◌, ◌+◌, ◌==◌, ◌||◌, ◌∷◌,
}
use codex_daily_prewarm.Account.Followup.{in_followup_hours}
use codex_daily_prewarm.Clock.{Time, is_zero, minute, sub_time}
use codex_daily_prewarm.Config.Names.{is_some}
use codex_daily_prewarm.Config.Parse.{given}
use codex_daily_prewarm.Data.Account.{AccountWindow, no_account}
use codex_daily_prewarm.Data.Config.{PluginConfig, PrewarmJob}
use codex_daily_prewarm.Data.Run.{RunRequest, ScheduledSlot}
use codex_daily_prewarm.Data.State.{Runtime, RuntimeState, persist_state, set_last_error}
use codex_daily_prewarm.Lifecycle.Queue.{
  already_running, job_not_found, requeue_interrupted, run_accepted, shutting_down, start_run_job,
}
use codex_daily_prewarm.Notify.Process.{Answers, Message, process_notifications}
use codex_daily_prewarm.Scheduler.Claims.{
  DuePlans, claim_slot, claim_window, due_plans, followup_request, restored_window,
}
use codex_daily_prewarm.Scheduler.Slots.{
  latest_cron_slot, plan_slot, same_local_date, scheduled_jobs,
}

-- What the surroundings answer in one tick: the writes and deliveries of the notices, the write of
-- the claims, those of the claims put back and of the slots planned next, and the random numbers.
pub record Tick : Type 0 where
  pub quiet_answers : Answers
  pub digest_answers : Answers
  pub claim_written : Bool
  pub requeue_written : ℕ → Bool
  pub plan_written : ℕ → Bool
  pub random : ℕ → ℕ
  pub stamp : Time → String

abbrev pub Slots : Type 0
Slots = Map ScheduledSlot

abbrev pub taken_slot :
    Option (ScheduledSlot × RunRequest)
    → String
    → ScheduledSlot
    → Slots × List RunRequest
    → Slots × List RunRequest
taken_slot none key s rest = ((key, s) ∷ rest.0, rest.1)
taken_slot (some (s', q)) key s rest = ((key, s') ∷ rest.0, q ∷ rest.1)

unfoldable pub claim_slots : PluginConfig → Time → Slots → Slots × List RunRequest
claim_slots cfg now [] = ([], [])
claim_slots cfg now ((key, s) ∷ m) =
    taken_slot (claim_slot cfg now key s) key s (claim_slots cfg now m)

abbrev pub Accounts : Type 0
Accounts = Map AccountWindow

abbrev pub any_due : DuePlans → Bool
any_due d = d.five_due || d.week_due || d.retry_due

-- `first` is the first job of the configuration.
unfoldable pub claim_accounts :
    PluginConfig → PrewarmJob → Time → Accounts → Accounts × List RunRequest
claim_accounts cfg first now [] = ([], [])
claim_accounts cfg first now ((account, w) ∷ m) =
    let rest = claim_accounts cfg first now m in
    let d = due_plans now cfg.location w in
    if any_due d
    then (
      (account, claim_window d w) ∷ rest.0,
      followup_request first cfg.reset_followup_mode account d w ∷ rest.1,
    )
    else ((account, w) ∷ rest.0, rest.1)

abbrev pub follows_accounts : PluginConfig → Time → Bool
follows_accounts cfg now =
    cfg.automatic_enabled
    && not (str_eq cfg.reset_followup_mode "off")
    && in_followup_hours now cfg.location

-- A configuration that was run_accepted has a job, `HasJobs`; without one the source would panic.
abbrev pub claim_followups :
    PluginConfig → Time → Accounts → List PrewarmJob → Accounts × List RunRequest
claim_followups cfg now accounts [] = (accounts, [])
claim_followups cfg now accounts (first ∷ js) =
    if follows_accounts cfg now then claim_accounts cfg first now accounts else (accounts, [])

unfoldable pub claim_all : Time → Runtime → Runtime × List RunRequest
claim_all now r =
    let from_slots = claim_slots r.cfg now r.state.slots in
    let from_accounts = claim_followups r.cfg now r.state.accounts r.cfg.jobs in
    (
      record r { state = record (r.state) { slots = from_slots.0; accounts = from_accounts.0 } },
      from_slots.1 ++ from_accounts.1,
    )

-- The undoing of the claims, for the slots and the accounts as they were before.
unfoldable pub restore_slots : PluginConfig → Time → Slots → Slots → Slots
restore_slots cfg now [] current = current
restore_slots cfg now ((key, previous) ∷ m) current =
    let rest = restore_slots cfg now m current in
    if is_some (claim_slot cfg now key previous)
    then elim (lookup key rest) [
      | none ↦ rest
      | some s ↦ if s.slot_started_at == now then insert key previous rest else rest
    ]
    else rest

unfoldable pub restore_accounts : PluginConfig → Time → Accounts → Accounts → Accounts
restore_accounts cfg now [] current = current
restore_accounts cfg now ((account, previous) ∷ m) current =
    let rest = restore_accounts cfg now m current in
    if follows_accounts cfg now && any_due (due_plans now cfg.location previous)
    then insert account (restored_window previous (given (lookup account rest) no_account)) rest
    else rest

abbrev pub restored_state : PluginConfig → Time → RuntimeState → RuntimeState → RuntimeState
restored_state cfg now old current = record current {
  slots = restore_slots cfg now old.slots current.slots;
  accounts = restore_accounts cfg now old.accounts current.accounts;
}

abbrev pub start_or_put_back : RunRequest → Bool → Runtime → Runtime
start_or_put_back q written r =
    let r' = (start_run_job q r).1 in
    elim (start_run_job q r).0 [
      | run_accepted ↦ r'
      | already_running ↦ set_last_error "already_running" (requeue_interrupted q written r')
      | shutting_down ↦ set_last_error "runtime_error" (requeue_interrupted q written r')
      | job_not_found ↦ set_last_error "runtime_error" (requeue_interrupted q written r')
    ]

unfoldable pub start_all : List RunRequest → (ℕ → Bool) → Runtime → Runtime
start_all [] writes r = r
start_all (q ∷ qs) writes r = start_all qs (λ n. writes (suc n)) (start_or_put_back q (writes 0) r)

-- The slots after those that were claimed, for the jobs of the requests.
unfoldable pub plan_next : Tick → ℕ → List RunRequest → Time → Runtime → Runtime
plan_next tick n [] now r = r
plan_next tick n (q ∷ qs) now r =
    let planned =
      plan_slot tick.stamp q.job (q.job.job_cron.next q.slot_base) now (tick.random n)
        (tick.plan_written n) r in
    plan_next tick (suc n) qs now
      (if str_eq q.trigger "schedule" || str_eq q.trigger "quota_refresh" then planned else r)

abbrev pub after_claim : Tick → Time → RuntimeState → List RunRequest → Runtime → Runtime
after_claim tick now old requests r =
    let r' = persist_state tick.claim_written r in
    if tick.claim_written
    then plan_next tick 0 requests now (start_all requests tick.requeue_written r')
    else set_last_error "scheduler_state_write_failed"
        (record r' { state = restored_state r'.cfg now old r'.state })

abbrev pub with_requests : Tick → Time → Runtime → Runtime → List RunRequest → Runtime
with_requests tick now r claimed [] = r
with_requests tick now r claimed (q ∷ qs) = after_claim tick now r.state (q ∷ qs) claimed

abbrev pub has_schedule : PluginConfig → Bool
has_schedule cfg = cfg.automatic_enabled || is_some cfg.quota_cron_schedule

unfoldable pub claim_due_work : Tick → Time → Runtime → Runtime
claim_due_work tick now r =
    if r.closed || not r.scheduled || not (has_schedule r.cfg)
    then r
    else with_requests tick now r (claim_all now r).0 (claim_all now r).1

-- The messages sent and the runtime after one tick of the scheduler.
unfoldable pub process_due : Tick → Time → Runtime → List Message × Runtime
process_due tick now r =
    let noticed = process_notifications now tick.quiet_answers tick.digest_answers r in
    (noticed.0, claim_due_work tick now noticed.1)

-- The latest slot of today that may still run, then the next one.
abbrev pub plan_job : Tick → ℕ → PrewarmJob → Time → Runtime → Runtime
plan_job tick n job now r =
    let latest = latest_cron_slot job.job_cron now in
    let missed = plan_slot tick.stamp job latest now (tick.random n) (tick.plan_written n) r in
    let is_missed =
      not (is_zero latest)
      && same_local_date latest now r.cfg.location
      && leb_ℤ (sub_time now latest) (pos (70 * minute)) in
    plan_slot tick.stamp job (job.job_cron.next now) now (tick.random (suc n))
      (tick.plan_written (suc n)) (if is_missed then missed else r)

unfoldable pub plan_jobs : Tick → ℕ → List PrewarmJob → Time → Runtime → Runtime
plan_jobs tick n [] now r = r
plan_jobs tick n (job ∷ jobs) now r = plan_jobs tick (n + 2) jobs now (plan_job tick n job now r)

unfoldable pub bootstrap : Tick → Time → Runtime → Runtime
bootstrap tick now r = plan_jobs tick 0 (scheduled_jobs r.cfg) now r
