-- ===== src/Tests/Runs.antt =====
-- The queue and the scheduler at concrete inputs.
use codex_daily_prewarm.Base.{
  List, [], arith, false, inr, insert, lookup, refl, some, true, ◌*◌, ◌++◌, ◌+◌, ◌-◌, ◌<◌, ◌∷◌, ◌≡◌,
  ◌≤◌, ◌⊎◌,
}
use codex_daily_prewarm.Clock.{Time, hour, local, local_day, local_hour, minute, second}
use codex_daily_prewarm.Data.Account.{AccountWindow, no_account}
use codex_daily_prewarm.Data.Config.{PluginConfig}
use codex_daily_prewarm.Data.Run.{RunRequest}
use codex_daily_prewarm.Data.State.{new_state}
use codex_daily_prewarm.Lifecycle.Gate.{close_gate-final}
use codex_daily_prewarm.Lifecycle.Order.{
  IsSound, QueueEvent, admitted, after_events, current_of, finishes, queue_step, queue_step-IsSound,
  served, served-admitted, starts, waiting,
}
use codex_daily_prewarm.Lifecycle.Queue.{
  close_gate, requeue_interrupted, set_slot, shutting_down, start_run_job,
}
use codex_daily_prewarm.Scheduler.Claims.{
  claim_slot, claim_window, due_plans, restored_window, slot_request,
}
use codex_daily_prewarm.Scheduler.Cron.{IsActivation, IsForward, is_final, latest_cron_slot-last}
use codex_daily_prewarm.Scheduler.Plans.{AreSlots, plan_slot-AreSlots}
use codex_daily_prewarm.Scheduler.Requeued.{requeue_interrupted-claim_slot}
use codex_daily_prewarm.Scheduler.Restored.{
  put_back_window, put_back_window-due_plans, restored_window-claim_window,
}
use codex_daily_prewarm.Scheduler.Slots.{latest_cron_slot, plan_slot, scheduled_jobs}
use codex_daily_prewarm.Tests.Samples.{
  claimed_noon_slot, fresh_runtime, hourly, noon, noon_slot, sample_config, sample_job, shanghai,
  timed,
}

fresh-IsSound : IsSound fresh_runtime
fresh-IsSound = record {
  apart = tt;
  automatic = tt;
  idle_empty = λ _. refl;
  busy = λ e. cc;
  closed_empty = λ _. refl;
}

-- The first request runs, the second waits, the third is the second again.
abbrev three_starts : List QueueEvent
three_starts = starts (timed "x") ∷ starts (timed "y") ∷ starts (timed "y") ∷ finishes "" ∷ []

served-admitted_example :
    served fresh_runtime three_starts ++ waiting (after_events fresh_runtime three_starts)
    ≡ waiting fresh_runtime ++ admitted fresh_runtime three_starts
served-admitted_example =
    served-admitted fresh_runtime three_starts fresh-IsSound (tt, (tt, (tt, (tt, tt))))

queue_step-IsSound_example : IsSound (queue_step fresh_runtime (starts (timed "x")))
queue_step-IsSound_example = queue_step-IsSound fresh_runtime (starts (timed "x")) fresh-IsSound

close_gate-final_example :
    ((close_gate fresh_runtime).0 ≡ fresh_runtime.pending)
    × (served (close_gate fresh_runtime).1 three_starts
          ++ waiting (after_events (close_gate fresh_runtime).1 three_starts)
        ≡ current_of fresh_runtime.current_request)
    × ((request : RunRequest)
        → (start_run_job request (after_events (close_gate fresh_runtime).1 three_starts)).0
          ≡ shutting_down)
close_gate-final_example = close_gate-final fresh_runtime fresh-IsSound three_starts

abbrev with_jobs : PluginConfig
with_jobs = record sample_config { automatic_enabled = true }

noon_slot-claim :
    claim_slot with_jobs (noon + 30 * second) "k" noon_slot
    ≡ some (claimed_noon_slot, slot_request "k" noon_slot sample_job)
unfolding claim_slot local_day local lookup scheduled_jobs insert local_hour
noon_slot-claim = refl

-- A minute before noon, 30 seconds after it, and a minute later.
abbrev three_ticks : List (PluginConfig × Time)
three_ticks =
    (with_jobs, noon - minute)
    ∷ (with_jobs, noon + 30 * second)
    ∷ (with_jobs, noon + 90 * second)
    ∷ []

requeue_interrupted-claim_slot_example :
    lookup "k"
      (requeue_interrupted
        (slot_request "k" noon_slot sample_job)
        false
        (set_slot "k" claimed_noon_slot fresh_runtime)).state.slots
    ≡ some noon_slot
requeue_interrupted-claim_slot_example =
    requeue_interrupted-claim_slot with_jobs (noon + 30 * second) "k" noon_slot
      (claimed_noon_slot, slot_request "k" noon_slot sample_job) false fresh_runtime (omega arith)
      noon_slot-claim

-- A five-hour follow-up and a retry, both due.
abbrev due_account : AccountWindow
due_account = record no_account {
  five_hour_followup_at = noon - minute;
  five_hour_followup_r = noon - 2 * minute;
  quota_retry_at = noon - 2 * minute;
  quota_retry_step = 1;
}

put_back_window-due_plans_example :
    due_plans noon shanghai
      (put_back_window noon shanghai due_account (due_plans noon shanghai due_account))
    ≡ due_plans noon shanghai due_account
put_back_window-due_plans_example = put_back_window-due_plans noon shanghai due_account

restored_window-claim_window_example :
    restored_window due_account (claim_window (due_plans noon shanghai due_account) due_account)
    ≡ due_account
restored_window-claim_window_example =
    restored_window-claim_window due_account (due_plans noon shanghai due_account)

hourly-IsForward : IsForward hourly
hourly-IsForward t = inr (omega arith)

latest_cron_slot-last_example :
    ((latest_cron_slot hourly noon ≡ 0) × (is_final hourly noon (noon - 25 * hour) ≡ true))
    ⊎ ((noon - 25 * hour < latest_cron_slot hourly noon)
        × (latest_cron_slot hourly noon ≤ noon)
        × (is_final hourly noon (latest_cron_slot hourly noon) ≡ true)
        × IsActivation hourly (noon - 25 * hour) (latest_cron_slot hourly noon))
latest_cron_slot-last_example = latest_cron_slot-last hourly noon hourly-IsForward

fresh-AreSlots : AreSlots fresh_runtime.state
unfolding new_state
fresh-AreSlots = tt

plan_slot-AreSlots_example :
    AreSlots (plan_slot (λ t. "") sample_job noon noon 50 false fresh_runtime).state
plan_slot-AreSlots_example =
    plan_slot-AreSlots (λ t. "") sample_job noon noon 50 false fresh_runtime (omega arith)
      fresh-AreSlots
