-- ===== src/Reload/Planned.antt =====
-- runtime.go, scheduler.go: what stands after a reload, whatever `bootstrap` plans.
use Prim.Native.Char.{code}
use codex_daily_prewarm.Base.{
  Bool, List, String, [], false, if-both, lookup, option-both, suc, true, ℕ, ◌&&◌, ◌+◌, ◌==◌, ◌∷◌,
  ◌≡◌,
}
use codex_daily_prewarm.Clock.{Time, is_zero}
use codex_daily_prewarm.Data.Config.{PluginConfig, PrewarmJob}
use codex_daily_prewarm.Data.Run.{ScheduledSlot}
use codex_daily_prewarm.Data.State.{Runtime, RuntimeState, persist_state, set_last_error}
use codex_daily_prewarm.Scheduler.Due.{Tick, bootstrap, plan_job, plan_jobs}
use codex_daily_prewarm.Scheduler.Slots.{
  is_unplannable, latest_cron_slot, new_slot, persist_slot, place_slot, plan_slot, planned_slot,
  scheduled_jobs, slot_key, uncovered, with_slot, without_slot,
}

abbrev pub IsOfState : RuntimeState → RuntimeState → Type 0
IsOfState s state =
    (state.accounts ≡ s.accounts)
    × (state.history ≡ s.history)
    × (state.daily ≡ s.daily)
    × (state.notifications ≡ s.notifications)

-- The configuration is in force, the gate is open, and what is remembered of the accounts, the runs,
-- the days and the notices is that of the state.
pub record IsInForce (new_cfg : PluginConfig) (s : RuntimeState) (r : Runtime) : Type 0 where
  pub in_force : r.cfg ≡ new_cfg
  pub gate_open : r.closed ≡ false
  pub goes_on : r.stopped ≡ false
  pub remembered : IsOfState s r.state

module _ (new_cfg : PluginConfig) (s : RuntimeState) where
  IsInForce-state :
      (r : Runtime) (state' : RuntimeState)
      → IsOfState s state'
      → IsInForce new_cfg s r
      → IsInForce new_cfg s (record r { state = state' })
  IsInForce-state r state' kept t = record {
    in_force = t.in_force;
    gate_open = t.gate_open;
    goes_on = t.goes_on;
    remembered = kept;
  }

  persist_state-IsInForce :
      (written : Bool) (r : Runtime)
      → IsInForce new_cfg s r
      → IsInForce new_cfg s (persist_state written r)
  unfolding persist_state
  persist_state-IsInForce true r t = record {
    in_force = t.in_force;
    gate_open = t.gate_open;
    goes_on = t.goes_on;
    remembered = t.remembered;
  }
  persist_state-IsInForce false r t = record {
    in_force = t.in_force;
    gate_open = t.gate_open;
    goes_on = t.goes_on;
    remembered = t.remembered;
  }

  set_last_error-IsInForce :
      (code : String) (r : Runtime)
      → IsInForce new_cfg s r
      → IsInForce new_cfg s (set_last_error code r)
  set_last_error-IsInForce code r t = record {
    in_force = t.in_force;
    gate_open = t.gate_open;
    goes_on = t.goes_on;
    remembered = t.remembered;
  }

  without_slot-IsOfState :
      (key : String) (jitter : ℕ) (state : RuntimeState)
      → IsOfState s state
      → IsOfState s (without_slot key jitter state)
  without_slot-IsOfState key jitter state kept =
      option-both (IsOfState s) (lookup key state.slots) state _ kept (λ slot.
        if-both (IsOfState s) (is_zero slot.slot_started_at && slot.jitter_seconds == jitter) _
          state kept kept)

  persist_slot-IsInForce :
      (key : String) (slot : ScheduledSlot) (now : Time) (written : Bool) (r : Runtime)
      → IsInForce new_cfg s r
      → IsInForce new_cfg s (persist_slot key slot now written r)
  persist_slot-IsInForce key slot now written r t =
      let r1 : Runtime = record r { state = with_slot key slot now r.state } in
      let t' =
        persist_state-IsInForce written r1
          (IsInForce-state r (with_slot key slot now r.state) t.remembered t) in
      let r' = persist_state written r1 in
      if-both (IsInForce new_cfg s) written r' _ t' (
        set_last_error-IsInForce "slot_state_write_failed" _ (
          IsInForce-state r' _
            (without_slot-IsOfState key slot.jitter_seconds r'.state t'.remembered) t'))

  plan_slot-IsInForce :
      (stamp : Time → String) (job : PrewarmJob) (base now : Time) (rnd : ℕ) (written : Bool)
      (r : Runtime)
      → IsInForce new_cfg s r
      → IsInForce new_cfg s (plan_slot stamp job base now rnd written r)
  unfolding plan_slot place_slot
  plan_slot-IsInForce stamp job base now rnd written r t =
      option-both (IsInForce new_cfg s) (uncovered 64 r.cfg job base) r _ t (λ at.
        let planned = planned_slot job at (10 + rnd) in
        let key = slot_key stamp job.name at in
        if-both (IsInForce new_cfg s) (is_unplannable job at r) r
          (new_slot key planned now written r) t
          (option-both (IsInForce new_cfg s) (lookup key r.state.slots)
            (persist_slot key planned now written r) (λ _. r)
            (persist_slot-IsInForce key planned now written r t) (λ _. t)))

  plan_jobs-IsInForce :
      (tick : Tick) (n : ℕ) (jobs : List PrewarmJob) (now : Time) (r : Runtime)
      → IsInForce new_cfg s r
      → IsInForce new_cfg s (plan_jobs tick n jobs now r)
  unfolding plan_jobs
  plan_jobs-IsInForce tick n [] now r t = t
  plan_jobs-IsInForce tick n (job ∷ jobs) now r t =
      plan_jobs-IsInForce tick (n + 2) jobs now (plan_job tick n job now r) (
        plan_slot-IsInForce tick.stamp job (job.job_cron.next now) now (tick.random (suc n))
          (tick.plan_written (suc n)) _
          (if-both (IsInForce new_cfg s) _ _ r
            (plan_slot-IsInForce tick.stamp job (latest_cron_slot job.job_cron now) now
              (tick.random n) (tick.plan_written n) r t)
            t))

  pub bootstrap-IsInForce :
      (tick : Tick) (now : Time) (r : Runtime)
      → IsInForce new_cfg s r
      → IsInForce new_cfg s (bootstrap tick now r)
  unfolding bootstrap
  bootstrap-IsInForce tick now r t = plan_jobs-IsInForce tick 0 (scheduled_jobs r.cfg) now r t
