-- ===== src/Scheduler/Restored.antt =====
-- scheduler.go: a claim that is undone after a failed write.
use codex_daily_prewarm.Base.{
  Bool, ap, arith, false, if-both, if◌then◌else◌, refl, true, ℕ, ◌==◌, ◌||◌, ◌∙◌, ◌≡◌,
}
use codex_daily_prewarm.Clock.{Location, Time, is_before, is_zero}
use codex_daily_prewarm.Data.Account.{AccountWindow}
use codex_daily_prewarm.Lifecycle.Queue.{restored_kinds}
use codex_daily_prewarm.Scheduler.Claims.{
  DuePlans, claim_due, claim_five_hour, claim_kinds, claim_retry, claim_weekly, claim_window,
  due_plans, earlier_due, is_due, restored_five_hour, restored_retry, restored_weekly,
  restored_window,
}

equal_refl : (n : ℕ) → (n == n) ≡ true
equal_refl n = ground arith

if-same {ℓ} : {A : Type ℓ} (b : Bool) (x : A) → (if b then x else x) ≡ x
if-same true x = refl
if-same false x = refl

module _ (w : AccountWindow) where
  restored_retry-claim : (b : Bool) → restored_retry w (claim_retry b w) ≡ w
  restored_retry-claim true = rw (equal_refl w.quota_retry_step) refl
  restored_retry-claim false = if-same (w.quota_retry_step == w.quota_retry_step) w

  restored_weekly-claim :
      (b c : Bool) → restored_weekly w (claim_retry c (claim_weekly b w)) ≡ claim_retry c w
  restored_weekly-claim true true = rw (equal_refl w.weekly_followup_r) refl
  restored_weekly-claim true false = rw (equal_refl w.weekly_followup_r) refl
  restored_weekly-claim false true = if-same (w.last_weekly_r == w.weekly_followup_r) _
  restored_weekly-claim false false = if-same (w.last_weekly_r == w.weekly_followup_r) _

  restored_five_hour-claim :
      (a b c : Bool)
      → restored_five_hour w (claim_retry c (claim_weekly b (claim_five_hour a w)))
        ≡ claim_retry c (claim_weekly b w)
  restored_five_hour-claim true true true = rw (equal_refl w.five_hour_followup_r) refl
  restored_five_hour-claim true true false = rw (equal_refl w.five_hour_followup_r) refl
  restored_five_hour-claim true false true = rw (equal_refl w.five_hour_followup_r) refl
  restored_five_hour-claim true false false = rw (equal_refl w.five_hour_followup_r) refl
  restored_five_hour-claim false true true =
      if-same (w.last_five_hour_r == w.five_hour_followup_r) _
  restored_five_hour-claim false true false =
      if-same (w.last_five_hour_r == w.five_hour_followup_r) _
  restored_five_hour-claim false false true =
      if-same (w.last_five_hour_r == w.five_hour_followup_r) _
  restored_five_hour-claim false false false =
      if-same (w.last_five_hour_r == w.five_hour_followup_r) _

  -- Whichever plans of an account are claimed, the claim undone after a failed write leaves the
  -- account record as it was before, in all its fields.
  pub restored_window-claim_window : (d : DuePlans) → restored_window w (claim_window d w) ≡ w
  unfolding claim_window restored_window
  restored_window-claim_window d =
      ap (λ v. restored_retry w (restored_weekly w v))
        (restored_five_hour-claim d.five_due d.week_due d.retry_due)
      ∙ ap (restored_retry w) (restored_weekly-claim d.week_due d.retry_due)
      ∙ restored_retry-claim d.retry_due

abbrev three_plans : Bool → Bool → Bool → DuePlans
three_plans a b c = record { five_due = a; week_due = b; retry_due = c }

module _ (now : Time) (location : Location) (w : AccountWindow) where
  earlier_due-is_due :
      (at due : Time)
      → is_due now location at ≡ true
      → is_due now location due ≡ true
      → is_due now location (earlier_due true at due) ≡ true
  earlier_due-is_due at due h k =
      if-both (λ t. is_due now location t ≡ true) (is_zero due || is_before at due) at due h k

  plans-eq :
      (x y z : Time) (a b c : Bool)
      → is_due now location x ≡ a
      → is_due now location y ≡ b
      → is_due now location z ≡ c
      → (record {
        five_due = is_due now location x;
        week_due = is_due now location y;
        retry_due = is_due now location z;
      }
          ≡ three_plans a b c)
  plans-eq x y z a b c h k l = rw (h, k, l) refl

  -- The account record after the claim is put back, in `requeueInterrupted`.
  abbrev pub put_back_window : DuePlans → AccountWindow
  put_back_window d = restored_kinds (claim_due d w) (claim_kinds d) (claim_window d w)

  put_back-flags :
      (a b c : Bool)
      → is_due now location w.five_hour_followup_at ≡ a
      → is_due now location w.weekly_followup_at ≡ b
      → is_due now location w.quota_retry_at ≡ c
      → due_plans now location (put_back_window (three_plans a b c)) ≡ three_plans a b c
  unfolding due_plans claim_window
  put_back-flags true true true h k l =
      let d =
        earlier_due-is_due w.quota_retry_at _ l
          (earlier_due-is_due w.weekly_followup_at w.five_hour_followup_at k h) in
      plans-eq _ _ _ true true true d d d
  put_back-flags true true false h k l =
      let d = earlier_due-is_due w.weekly_followup_at w.five_hour_followup_at k h in
      plans-eq _ _ _ true true false d d l
  put_back-flags true false true h k l =
      let d = earlier_due-is_due w.quota_retry_at w.five_hour_followup_at l h in
      plans-eq _ _ _ true false true d k d
  put_back-flags true false false h k l = plans-eq _ _ _ true false false h k l
  put_back-flags false true true h k l =
      let d = earlier_due-is_due w.quota_retry_at w.weekly_followup_at l k in
      plans-eq _ _ _ false true true h d d
  put_back-flags false true false h k l = plans-eq _ _ _ false true false h k l
  put_back-flags false false true h k l = plans-eq _ _ _ false false true h k l
  put_back-flags false false false h k l = plans-eq _ _ _ false false false h k l

  -- When the plans of an account that are due are claimed and the claim is put back at the same
  -- moment, exactly the same plans are due again.
  pub put_back_window-due_plans :
      due_plans now location (put_back_window (due_plans now location w)) ≡ due_plans now location w
  unfolding due_plans
  put_back_window-due_plans = put_back-flags _ _ _ refl refl refl
