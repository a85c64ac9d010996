-- ===== src/Quota/Confirm.antt =====
-- idle_confirmation.go: the reason against a candidate, and the second look at an idle account after
-- the spacing. The callbacks `wait`, `fetch` and `save` of the source act on a world `W`, which also
-- holds the clock; a callback returns its result and the world after it.
use codex_daily_prewarm.Base.{
  Bool, String, if◌then◌else◌, ltb_ℤ, not, pos, str_append, str_eq, ℕ, ◌*◌,
}
use codex_daily_prewarm.Clock.{Duration, Time, second, sub_time}
use codex_daily_prewarm.Quota.{QuotaObservation, confirmed_idle, is_unused, over_threshold}

abbrev pub max_initial_quota_age : ℕ
max_initial_quota_age = 10 * second

-- "" is Go's "no reason against".
unfoldable pub quota_candidate_reason : QuotaObservation → String
quota_candidate_reason observation =
    if over_threshold observation.weekly.used_percent
    then "weekly_below_threshold"
    else if not observation.allowed
    then "upstream_disallowed"
    else if not (is_unused observation.five_hour.used_percent)
    then "active_five_hour_window"
    else ""

pub record Callbacks (W : Type 0) : Type 0 where
  pub now : W → Time
  pub wait : Duration → W → Bool × W
  pub fetch : W → QuotaObservation × String × W
  pub save : QuotaObservation → W → Bool × W

-- The result, its reason and the world after the call.
abbrev pub Outcome : Type 0 → Type 0
Outcome W = QuotaObservation × String × W

module _ {W : Type 0} where
  -- The last part: wait three seconds, fetch again, save, compare.
  unfoldable pub confirm_second : Callbacks W → QuotaObservation → W → Outcome W
  confirm_second c first w =
      let (waited, w1) = c.wait (pos (3 * second)) w in
      if not waited
      then (first, "interrupted", w1)
      else let (second', reason, w2) = c.fetch w1 in
        if not (str_eq reason "")
        then (first, str_append "idle_confirmation_" reason, w2)
        else let (saved, w3) = c.save second' w2 in
          if not saved
          then (second', "state_write_failed", w3)
          else if not (confirmed_idle first second')
          then (second', "five_hour_not_confirmed_idle", w3)
          else (second', "", w3)

  -- An initial observation that is too old is fetched, saved and judged again.
  unfoldable pub refresh_first : Callbacks W → QuotaObservation → W → Outcome W
  refresh_first c first w =
      let (refreshed, reason, w1) = c.fetch w in
      if not (str_eq reason "")
      then (first, str_append "idle_confirmation_" reason, w1)
      else let (saved, w2) = c.save refreshed w1 in
        if not saved
        then (refreshed, "state_write_failed", w2)
        else if not (str_eq (quota_candidate_reason refreshed) "")
        then (refreshed, quota_candidate_reason refreshed, w2)
        else confirm_second c refreshed w2

  unfoldable pub confirm_idle_after_spacing :
      Callbacks W → QuotaObservation → Duration → W → Outcome W
  confirm_idle_after_spacing c first spacing w =
      let (waited, w1) = c.wait spacing w in
      if not waited
      then (first, "interrupted", w1)
      else if ltb_ℤ (pos max_initial_quota_age) (sub_time (c.now w1) first.checked_at)
      then refresh_first c first w1
      else confirm_second c first w1
