-- ===== src/Scheduler/Cron.antt =====
-- scheduler.go: what `latestCronSlot` and the skips of `planSlot` come to.
use mathlib.Core.Option.{none-ne-some, some-injective}
use mathlib.Core.Path.{subst}
use native.Mathlib.Nat.{le_refl}
use codex_daily_prewarm.Base.{
  Bool, Bool-cases, ap, arith, false, if-false, if-true, inl, inr, refl, some, suc, sym, true, zero,
  ℕ, ◌*◌, ◌+◌, ◌-◌, ◌<◌, ◌||◌, ◌∙◌, ◌≡◌, ◌≤◌, ◌⊎◌,
}
use codex_daily_prewarm.Clock.{Time, hour, is_after, is_zero}
use codex_daily_prewarm.Data.Config.{PluginConfig, PrewarmJob, Schedule}
use codex_daily_prewarm.Scheduler.Slots.{
  is_covered, latest_cron_slot, latest_from, latest_fuel, uncovered,
}

-- What the cron library says of `Next`: a later time, or the zero time when there is none.
abbrev pub IsForward : Schedule → Type 0
IsForward s = (t : Time) → (s.next t ≡ 0) ⊎ (t < s.next t)

-- No activation follows `t` up to `now`.
abbrev pub is_final : Schedule → Time → Time → Bool
is_final s now t = is_zero (s.next t) || is_after (s.next t) now

-- `at` is what `Next` gives for a time from `start` on.
abbrev pub IsActivation : Schedule → Time → Time → Type 0
IsActivation s start at = (t : Time) × (start ≤ t) × (s.next t ≡ at)

later-next :
    (s : Schedule) (now t : Time)
    → IsForward s
    → is_final s now t ≡ false
    → (t < s.next t) × (s.next t ≤ now)
later-next s now t forward more = elim (forward t) [
  | inl e ↦ ground (arith, e, more)
  | inr lt ↦ ground (arith, lt, more)
]

-- An activation found from `at` on lies after the one before `at`.
through-next :
    (s : Schedule) (now at last cursor : Time)
    → cursor < at
    → at ≤ now
    → s.next cursor ≡ at
    → ((last ≡ at) × (is_final s now at ≡ true))
      ⊎ ((at < last) × (last ≤ now) × (is_final s now last ≡ true) × IsActivation s at last)
    → (cursor < last) × (last ≤ now) × (is_final s now last ≡ true) × IsActivation s cursor last
through-next s now at last cursor lt le act (inl (e, final)) = (
  omega (arith, e),
  omega (arith, e),
  ap (is_final s now) e ∙ final,
  (cursor, le_refl cursor, act ∙ sym e),
)
through-next s now at last cursor lt le act (inr (later, up, final, (t, from, acts))) =
    (omega arith, up, final, (t, omega (arith, from, lt), acts))

latest_from-last :
    (n : ℕ) (s : Schedule) (now latest cursor : Time)
    → IsForward s
    → now < cursor + n
    → ((latest_from n s now latest cursor ≡ latest) × (is_final s now cursor ≡ true))
      ⊎ ((cursor < latest_from n s now latest cursor)
          × (latest_from n s now latest cursor ≤ now)
          × (is_final s now (latest_from n s now latest cursor) ≡ true)
          × IsActivation s cursor (latest_from n s now latest cursor))
unfolding latest_from
latest_from-last zero s now latest cursor forward enough = elim (forward cursor) [
  | inl e ↦ inl (refl, ground (arith, e))
  | inr lt ↦ inl (refl, ground (arith, lt, enough))
]
latest_from-last (suc n) s now latest cursor forward enough =
    elim (Bool-cases (is_final s now cursor)) [
      | inl final ↦ inl (if-true (is_final s now cursor) _ _ final, final)
      | inr more ↦
          subst
            (λ l.
              ((l ≡ latest) × (is_final s now cursor ≡ true))
              ⊎ ((cursor < l) × (l ≤ now) × (is_final s now l ≡ true) × IsActivation s cursor l))
            (sym (if-false (is_final s now cursor) _ _ more))
            (inr (
              let step = later-next s now cursor forward more in
              through-next s now (s.next cursor) _ cursor step.0 step.1 refl (
                latest_from-last n s now (s.next cursor) (s.next cursor) forward
                  (omega (arith, step.0, enough)))))
    ]

-- With a cron library whose `Next` goes forward: `latestCronSlot` finds an activation of the 25 hours up
-- to `now`, which `Next` gives for a time within them and after which `Next` gives none up to `now`;
-- and the zero time only if `Next` gives none up to `now` for the start of those hours.
pub latest_cron_slot-last :
    (s : Schedule) (now : Time)
    → IsForward s
    → ((latest_cron_slot s now ≡ 0) × (is_final s now (now - 25 * hour) ≡ true))
      ⊎ ((now - 25 * hour < latest_cron_slot s now)
          × (latest_cron_slot s now ≤ now)
          × (is_final s now (latest_cron_slot s now) ≡ true)
          × IsActivation s (now - 25 * hour) (latest_cron_slot s now))
unfolding latest_cron_slot
latest_cron_slot-last s now forward =
    latest_from-last latest_fuel s now 0 (now - 25 * hour) forward (omega arith)

uncovered-free :
    (n : ℕ) (cfg : PluginConfig) (job : PrewarmJob) (base at : Time)
    → uncovered n cfg job base ≡ some at
    → is_covered cfg job at ≡ false
unfolding uncovered
uncovered-free zero cfg job base at h = elim (Bool-cases (is_covered cfg job base)) [
  | inl e ↦ absurd (none-ne-some at (sym (if-true (is_covered cfg job base) _ _ e) ∙ h))
  | inr e ↦
      ap (is_covered cfg job)
        (sym (some-injective base at (sym (if-false (is_covered cfg job base) _ _ e) ∙ h)))
      ∙ e
]
uncovered-free (suc n) cfg job base at h = elim (Bool-cases (is_covered cfg job base)) [
  | inl e ↦
      uncovered-free n cfg job (job.job_cron.next base) at
        (sym (if-true (is_covered cfg job base) _ _ e) ∙ h)
  | inr e ↦
      ap (is_covered cfg job)
        (sym (some-injective base at (sym (if-false (is_covered cfg job base) _ _ e) ∙ h)))
      ∙ e
]
