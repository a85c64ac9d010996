-- ===== src/Scheduler/Requeued.antt =====
-- scheduler.go and runtime.go: a claimed slot whose run is stopped.
use codex_daily_prewarm.Base.{
  Bool, Bool-cases, String, ap, arith, eq_refl, false, if-false, if-true, inl, inr, lookup,
  lookup-insert, refl, some, str_eq, sym, true, ◌<◌, ◌∙◌, ◌≡◌,
}
use codex_daily_prewarm.Clock.{Time, is_zero}
use codex_daily_prewarm.Data.Config.{PluginConfig, PrewarmJob}
use codex_daily_prewarm.Data.Run.{RunRequest, ScheduledSlot}
use codex_daily_prewarm.Data.State.{Runtime, persist_state}
use codex_daily_prewarm.Lifecycle.Queue.{
  put_back, requeue_interrupted, set_slot, unclaimed, unclaimed_slot, written_back,
}
use codex_daily_prewarm.Scheduler.Claims.{claim_slot, slot_request}
use codex_daily_prewarm.Scheduler.Timely.{claim_slot-IsMade}

module _ (key : String) (s : ScheduledSlot) (now : Time) where
  abbrev started_slot : ScheduledSlot
  started_slot = record s { slot_started_at = now }

  put_back-slot :
      (found : PrewarmJob) (r : Runtime)
      → put_back (slot_request key s found) r ≡ unclaimed_slot key r
  unfolding put_back
  put_back-slot found r = elim (Bool-cases found.quota_only) [
    | inl e ↦ rw e refl
    | inr e ↦ rw e refl
  ]

  lookup-claimed :
      (r : Runtime) → lookup key (set_slot key started_slot r).state.slots ≡ some started_slot
  lookup-claimed r =
      lookup-insert key key started_slot r.state.slots ∙ if-true (str_eq key key) _ _ (eq_refl key)

  unclaimed-claimed :
      (r : Runtime)
      → 0 < now
      → unclaimed_slot key (set_slot key started_slot r)
        ≡ some (set_slot key (record s { slot_started_at = 0 }) (set_slot key started_slot r))
  unclaimed-claimed r clock =
      ap (unclaimed key (set_slot key started_slot r)) (lookup-claimed r)
      ∙ if-false (is_zero now) _ _ (ground (arith, clock))

  written_back-slots :
      (written : Bool) (r changed : Runtime)
      → (written_back written r (some changed)).state ≡ changed.state
  unfolding persist_state
  written_back-slots true r changed = refl
  written_back-slots false r changed = refl

  requeued-slot :
      (found : PrewarmJob) (written : Bool) (r : Runtime)
      → 0 < now
      → s.slot_started_at ≡ 0
      → lookup key
          (requeue_interrupted
            (slot_request key s found)
            written
            (set_slot key started_slot r)).state.slots
        ≡ some s
  unfolding requeue_interrupted
  requeued-slot found written r clock unstarted =
      let claimed = set_slot key started_slot r in
      let reset : ScheduledSlot = record s { slot_started_at = 0 } in
      ap (λ o. lookup key (written_back written claimed o).state.slots)
        (put_back-slot found claimed ∙ unclaimed-claimed r clock)
      ∙ ap (λ state. lookup key state.slots)
          (written_back-slots written claimed (set_slot key reset claimed))
      ∙ lookup-insert key key reset claimed.state.slots
      ∙ if-true (str_eq key key) (some reset) (lookup key claimed.state.slots) (eq_refl key)
      ∙ ap (λ t. some (record s { slot_started_at = t })) (sym unstarted)

-- A slot that was claimed, at a time that is not Go's zero time, and whose request is put back
-- because its run was stopped, stands in the state as it was before the claim, whether or not the
-- write that goes with it succeeds.
pub requeue_interrupted-claim_slot :
    (cfg : PluginConfig) (now : Time) (key : String) (s : ScheduledSlot)
    (p : ScheduledSlot × RunRequest) (written : Bool) (r : Runtime)
    → 0 < now
    → claim_slot cfg now key s ≡ some p
    → lookup key (requeue_interrupted p.1 written (set_slot key p.0 r)).state.slots ≡ some s
requeue_interrupted-claim_slot cfg now key s p written r clock h =
    let claim = claim_slot-IsMade cfg now key s p h in
    rw (claim.started, claim.requested)
      (requeued-slot key s now p.1.job written r clock claim.timely.unstarted)
