-- ===== src/Scheduler/Timely.antt =====
-- scheduler.go: which slots are claimed.
use mathlib.Core.Option.{none-ne-some, some-injective}
use mathlib.Core.Path.{subst}
use codex_daily_prewarm.Base.{
  Bool-cases, List, Option, String, [], arith, false, if-false, if-true, if◌then◌else◌, inl, inr,
  lookup, none, refl, some, sym, true, ◌*◌, ◌+◌, ◌∙◌, ◌∷◌, ◌≡◌, ◌≤◌, ◌⊎◌,
}
use codex_daily_prewarm.Clock.{Time, local_day, local_hour, minute}
use codex_daily_prewarm.Data.Config.{PluginConfig, PrewarmJob}
use codex_daily_prewarm.Data.Run.{RunRequest, ScheduledSlot}
use codex_daily_prewarm.Scheduler.Claims.{
  claim_for, claim_slot, is_lapsed, is_waiting, jobs_by_name, slot_request,
}
use codex_daily_prewarm.Scheduler.Slots.{scheduled_jobs}

-- A slot that is to be claimed at `now`, for the job of its name among the scheduled ones: it has not
-- been started, is planned for no later than now, belongs to the local day of now and is at most 70
-- minutes old, and, for a prewarm of 23:00, at most two minutes.
pub record IsTimely (cfg : PluginConfig) (now : Time) (s : ScheduledSlot) (j : PrewarmJob)
    : Type 0 where
  pub unstarted : s.slot_started_at ≡ 0
  pub planned_before : s.planned_at ≤ now
  pub same_day : local_day cfg.location s.base_at ≡ local_day cfg.location now
  pub recent : now ≤ s.base_at + 70 * minute
  pub its_job : lookup s.slot_job (jobs_by_name (scheduled_jobs cfg) []) ≡ some j
  pub not_late :
      (j.quota_only ≡ true)
      ⊎ ((¬ (local_hour cfg.location s.base_at ≡ 23)) ⊎ (now ≤ s.base_at + 2 * minute))

-- A request for this slot.
pub record IsRequest (key : String) (s : ScheduledSlot) (q : RunRequest) : Type 0 where
  pub of_slot : q.slot ≡ key
  pub of_base : q.slot_base ≡ s.base_at
  pub of_plan : q.request_planned_at ≡ s.planned_at
  pub of_kind : q.trigger ≡ (if q.job.quota_only then "quota_refresh" else "schedule")
  pub reads_only : q.read_only ≡ q.job.quota_only

-- The requests for one slot over a sequence of ticks, each with the configuration it finds.
unfoldable pub claims_of :
    List (PluginConfig × Time) → String → ScheduledSlot → List (Time × RunRequest)
claims_of [] key s = []
claims_of ((cfg, now) ∷ ticks) key s = elim (claim_slot cfg now key s) [
  | none ↦ claims_of ticks key s
  | some p ↦ (now, p.1) ∷ claims_of ticks key p.0
]

-- One request, for the job for which the slot is timely.
pub record IsClaimed (cfg : PluginConfig) (now : Time) (key : String) (s : ScheduledSlot)
    (claims : List (Time × RunRequest)) : Type 0 where
  pub request : RunRequest
  pub only : claims ≡ (now, request) ∷ []
  pub timely : IsTimely cfg now s request.job
  pub requested : IsRequest key s request

-- The first tick at which the slot is timely makes the only request; there is none if there is no
-- such tick.
abbrev pub IsOnce :
    String → ScheduledSlot → List (PluginConfig × Time) → List (Time × RunRequest) → Type 0
IsOnce key s [] claims = claims ≡ []
IsOnce key s ((cfg, now) ∷ ticks) claims =
    (((j : PrewarmJob) → ¬ IsTimely cfg now s j) × IsOnce key s ticks claims)
    ⊎ IsClaimed cfg now key s claims

waiting-IsTimely :
    (cfg : PluginConfig) (now : Time) (s : ScheduledSlot) (j : PrewarmJob)
    → is_waiting now cfg.location s ≡ true
    → lookup s.slot_job (jobs_by_name (scheduled_jobs cfg) []) ≡ some j
    → is_lapsed now cfg.location j s ≡ false
    → IsTimely cfg now s j
waiting-IsTimely cfg now s j w l early = record {
  unstarted = ground (arith, w);
  planned_before = ground (arith, w);
  same_day = ground (arith, w);
  recent = ground (arith, w);
  its_job = l;
  not_late = ground (arith, early);
}

-- What a claim comes to: the slot marked as started, and the request of a job that has not lapsed.
pub record IsMade (cfg : PluginConfig) (now : Time) (key : String) (s : ScheduledSlot)
    (p : ScheduledSlot × RunRequest) : Type 0 where
  pub timely : IsTimely cfg now s p.1.job
  pub started : p.0 ≡ record s { slot_started_at = now }
  pub requested : p.1 ≡ slot_request key s p.1.job

claim_for-IsMade :
    (cfg : PluginConfig) (now : Time) (key : String) (s : ScheduledSlot) (o : Option PrewarmJob)
    (p : ScheduledSlot × RunRequest)
    → is_waiting now cfg.location s ≡ true
    → lookup s.slot_job (jobs_by_name (scheduled_jobs cfg) []) ≡ o
    → claim_for cfg now key s o ≡ some p
    → IsMade cfg now key s p
claim_for-IsMade cfg now key s none p w l h = absurd (none-ne-some p h)
claim_for-IsMade cfg now key s (some found) p w l h =
    elim (Bool-cases (is_lapsed now cfg.location found s)) [
      | inl late ↦
          absurd (none-ne-some p (sym (if-true (is_lapsed now cfg.location found s) _ _ late) ∙ h))
      | inr early ↦
          subst (IsMade cfg now key s)
            (some-injective _ _ (sym (if-false (is_lapsed now cfg.location found s) _ _ early) ∙ h))
            (record {
              timely = waiting-IsTimely cfg now s found w l early;
              started = refl;
              requested = refl;
            })
    ]

pub claim_slot-IsMade :
    (cfg : PluginConfig) (now : Time) (key : String) (s : ScheduledSlot)
    (p : ScheduledSlot × RunRequest)
    → claim_slot cfg now key s ≡ some p
    → IsMade cfg now key s p
unfolding claim_slot
claim_slot-IsMade cfg now key s p h = elim (Bool-cases (is_waiting now cfg.location s)) [
  | inl e ↦
      claim_for-IsMade cfg now key s _ p e refl
        (sym (if-true (is_waiting now cfg.location s) _ _ e) ∙ h)
  | inr e ↦ absurd (none-ne-some p (sym (if-false (is_waiting now cfg.location s) _ _ e) ∙ h))
]
