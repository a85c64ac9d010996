-- ===== src/Scheduler/Plans.antt =====
-- scheduler.go: the slots that `planSlot` leaves.
use codex_daily_prewarm.Base.{
  All, Bool, Bool-cases, Map, String, [], arith, false, if-both, if◌then◌else◌, inl, inr, insert,
  keep, lookup, option-both, refl, remove, str_eq, true, ℕ, ◌&&◌, ◌*◌, ◌+◌, ◌==◌, ◌∷◌, ◌≡◌, ◌≤◌,
}
use codex_daily_prewarm.Clock.{Time, is_zero, second}
use codex_daily_prewarm.Data.Config.{PrewarmJob}
use codex_daily_prewarm.Data.Run.{ScheduledSlot}
use codex_daily_prewarm.Data.State.{Runtime, RuntimeState, persist_state}
use codex_daily_prewarm.Scheduler.Slots.{
  is_kept, is_unplannable, new_slot, persist_slot, place_slot, plan_slot, planned_slot, slot_key,
  uncovered, with_slot, without_slot,
}

-- A slot is planned 10 to 60 seconds after its cron time.
pub record IsSlot (s : ScheduledSlot) : Type 0 where
  pub after_base : s.planned_at ≡ s.base_at + s.jitter_seconds * second
  pub least : 10 ≤ s.jitter_seconds
  pub most : s.jitter_seconds ≤ 60

abbrev pub AreSlots : RuntimeState → Type 0
AreSlots state = All (λ e. IsSlot e.1) state.slots

insert-All :
    (key : String) (s : ScheduledSlot) (m : Map ScheduledSlot)
    → IsSlot s
    → All (λ e. IsSlot e.1) m
    → All (λ e. IsSlot e.1) (insert key s m)
unfolding insert
insert-All key s [] new h = (new, tt)
insert-All key s ((k, old) ∷ m) new h = elim (Bool-cases (str_eq k key)) [
  | inl e ↦ rw e (new, h.1)
  | inr e ↦ rw e (h.0, insert-All key s m new h.1)
]

remove-All :
    (key : String) (m : Map ScheduledSlot)
    → All (λ e. IsSlot e.1) m
    → All (λ e. IsSlot e.1) (remove key m)
unfolding remove
remove-All key [] h = tt
remove-All key ((k, old) ∷ m) h = elim (Bool-cases (str_eq k key)) [
  | inl e ↦ rw e (remove-All key m h.1)
  | inr e ↦ rw e (h.0, remove-All key m h.1)
]

keep-All :
    (p : String × ScheduledSlot → Bool) (m : Map ScheduledSlot)
    → All (λ e. IsSlot e.1) m
    → All (λ e. IsSlot e.1) (keep p m)
keep-All p [] h = tt
keep-All p (entry ∷ m) h = elim (Bool-cases (p entry)) [
  | inl e ↦ rw e (h.0, keep-All p m h.1)
  | inr e ↦ rw e (keep-All p m h.1)
]

without_slot-AreSlots :
    (key : String) (jitter : ℕ) (state : RuntimeState)
    → AreSlots state
    → AreSlots (without_slot key jitter state)
without_slot-AreSlots key jitter state h =
    let dropped : RuntimeState = record state { slots = remove key state.slots } in
    option-both AreSlots (lookup key state.slots) state
      (λ s. if is_zero s.slot_started_at && s.jitter_seconds == jitter then dropped else state) h
      (λ s.
        if-both AreSlots (is_zero s.slot_started_at && s.jitter_seconds == jitter) dropped state
          (remove-All key state.slots h) h)

persist_slot-AreSlots :
    (key : String) (s : ScheduledSlot) (now : Time) (written : Bool) (r : Runtime)
    → IsSlot s
    → AreSlots r.state
    → AreSlots (persist_slot key s now written r).state
unfolding persist_state
persist_slot-AreSlots key s now true r new h =
    keep-All (is_kept now) _ (insert-All key s r.state.slots new h)
persist_slot-AreSlots key s now false r new h =
    without_slot-AreSlots key s.jitter_seconds (with_slot key s now r.state)
      (keep-All (is_kept now) _ (insert-All key s r.state.slots new h))

place_slot-AreSlots :
    (key : String) (job : PrewarmJob) (base now : Time) (jitter : ℕ) (written : Bool) (r : Runtime)
    → 10 ≤ jitter
    → jitter ≤ 60
    → AreSlots r.state
    → AreSlots (place_slot key job base now jitter written r).state
unfolding place_slot
place_slot-AreSlots key job base now jitter written r lo hi h =
    let planned = planned_slot job base jitter in
    if-both (λ r'. AreSlots r'.state) (is_unplannable job base r) r
      (new_slot key planned now written r) h
      (option-both (λ r'. AreSlots r'.state) (lookup key r.state.slots)
        (persist_slot key planned now written r) (λ _. r)
        (persist_slot-AreSlots key planned now written r
          (record { after_base = refl; least = lo; most = hi }) h)
        (λ _. h))

-- Planning a slot, whether or not it is written, keeps every slot of the state between 10 and 60
-- seconds after its cron time, given that the random number is at most 50.
pub plan_slot-AreSlots :
    (stamp : Time → String) (job : PrewarmJob) (base now : Time) (rnd : ℕ) (written : Bool)
    (r : Runtime)
    → rnd ≤ 50
    → AreSlots r.state
    → AreSlots (plan_slot stamp job base now rnd written r).state
unfolding plan_slot
plan_slot-AreSlots stamp job base now rnd written r bound h =
    option-both (λ r'. AreSlots r'.state) (uncovered 64 r.cfg job base) r
      (λ at. place_slot (slot_key stamp job.name at) job at now (10 + rnd) written r) h
      (λ at.
        place_slot-AreSlots (slot_key stamp job.name at) job at now (10 + rnd) written r
          (omega arith) (omega (arith, bound)) h)
