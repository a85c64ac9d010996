-- ===== src/Account/Planned.antt =====
-- scheduler.go: what `updateFollowupPlan` leaves.
use mathlib.Core.Path.{subst}
use codex_daily_prewarm.Base.{arith, false, if-both, not, refl, sym, ◌+◌, ◌<◌, ◌||◌, ◌≡◌, ◌⊎◌}
use codex_daily_prewarm.Account.Followup.{
  followup_delay, same_reset_point, update_five_hour_plan, update_followup_plan, update_weekly_plan,
  weekly_due,
}
use codex_daily_prewarm.Clock.{Time, is_after}
use codex_daily_prewarm.Data.Account.{AccountWindow}
use codex_daily_prewarm.Quota.{QuotaObservation}

-- No plan, or one for later than `now` and for a reset point that has had no follow-up yet.
abbrev pub IsPlan : Time → Time → Time → Time → Type 0
IsPlan now at reset handled = (at ≡ 0) ⊎ ((now < at) × (same_reset_point reset handled ≡ false))

five_hour-IsPlan :
    (w : AccountWindow) (o : QuotaObservation)
    → IsPlan o.checked_at
        (update_five_hour_plan w o).five_hour_followup_at
        (update_five_hour_plan w o).five_hour_followup_r
        (update_five_hour_plan w o).last_five_hour_r
unfolding update_five_hour_plan
five_hour-IsPlan w o = ground arith

weekly-IsPlan :
    (w : AccountWindow) (o : QuotaObservation)
    → IsPlan o.checked_at
        (update_weekly_plan w o).weekly_followup_at
        (update_weekly_plan w o).weekly_followup_r
        (update_weekly_plan w o).last_weekly_r
unfolding update_weekly_plan
weekly-IsPlan w o = ground arith

abbrev five_hour_fields : AccountWindow → Time × Time × Time
five_hour_fields w = (w.five_hour_followup_at, w.five_hour_followup_r, w.last_five_hour_r)

update_weekly_plan-five_hour :
    (w : AccountWindow) (o : QuotaObservation)
    → five_hour_fields (update_weekly_plan w o) ≡ five_hour_fields w
unfolding update_weekly_plan
update_weekly_plan-five_hour w o =
    let P : AccountWindow → Type 0 = λ v. five_hour_fields v ≡ five_hour_fields w in
    if-both P (weekly_due w o)
      (record w {
        weekly_followup_r = o.weekly.reset_at;
        weekly_followup_at = o.weekly.reset_at + followup_delay;
      })
      _ refl
      (if-both P
        (same_reset_point w.weekly_followup_r w.last_weekly_r
          || not (is_after w.weekly_followup_at o.checked_at))
        (record w { weekly_followup_at = 0 }) w refl refl)

-- After an observation each of the two plans of the account is empty, or is for a time after the
-- observation and for a reset point that has not had its follow-up yet.
pub update_followup_plan-IsPlan :
    (w : AccountWindow) (o : QuotaObservation)
    → let w' = update_followup_plan w o in
      IsPlan o.checked_at w'.five_hour_followup_at w'.five_hour_followup_r w'.last_five_hour_r
      × IsPlan o.checked_at w'.weekly_followup_at w'.weekly_followup_r w'.last_weekly_r
unfolding update_followup_plan
update_followup_plan-IsPlan w o =
    let v = update_five_hour_plan w o in
    (
      subst (λ p. IsPlan o.checked_at p.0 p.1 p.2) (sym (update_weekly_plan-five_hour v o))
          (five_hour-IsPlan w o),
      weekly-IsPlan v o,
    )
