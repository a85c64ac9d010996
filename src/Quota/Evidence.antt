-- ===== src/Quota/Evidence.antt =====
-- What it takes for `confirmIdleAfterSpacing` to give no reason against a call.
use codex_daily_prewarm.Base.{
  Bool, Bool-cases, ap, arith, eq_iff, inl, inr, ltb_ℤ, pos, refl, str_append-ne_empty, str_eq,
  true, ◌*◌, ◌+◌, ◌≡◌, ◌≤◌, ◌⊎◌,
}
use codex_daily_prewarm.Clock.{Duration, second, sub_time}
use codex_daily_prewarm.Quota.{QuotaObservation, confirmed_idle}
use codex_daily_prewarm.Quota.Confirm.{
  Callbacks, Outcome, confirm_idle_after_spacing, confirm_second, max_initial_quota_age,
  quota_candidate_reason, refresh_first,
}

-- The evidence behind a result with no reason. `w` is the world after the spacing.
pub record Evidence {W : Type 0} (c : Callbacks W) (first : QuotaObservation) (w : W)
    (r : Outcome W) : Type 0 where
  pub base : QuotaObservation
  pub before_fetch : W
  pub after_fetch : W
  pub fetched : c.fetch before_fetch ≡ (r.0, "", after_fetch)
  pub saved : c.save r.0 after_fetch ≡ (true, r.2)
  pub idle : confirmed_idle base r.0 ≡ true
  pub fresh :
      ((base ≡ first) × (c.now w ≤ first.checked_at + max_initial_quota_age))
      ⊎ ((u v : W) × (c.fetch w ≡ (base, "", u))
          × (c.save base u ≡ (true, v))
          × (quota_candidate_reason base ≡ ""))

module _ {W : Type 0} (c : Callbacks W) (first : QuotaObservation) (w : W) where
  abbrev after_wait : W
  after_wait = (c.wait (pos (3 * second)) w).1

  abbrev second_fetch : Outcome W
  second_fetch = c.fetch after_wait

  abbrev second_save : Bool × W
  second_save = c.save second_fetch.0 second_fetch.2

  module _ (accepted : (confirm_second c first w).1 ≡ "") where
    second_waited : (c.wait (pos (3 * second)) w).0 ≡ true
    unfolding confirm_second
    second_waited = elim (Bool-cases (c.wait (pos (3 * second)) w).0) [
      | inl e ↦ e
      | inr e ↦ let h = rw e at accepted in cc
    ]

    second_reason : str_eq second_fetch.1 "" ≡ true
    unfolding confirm_second
    second_reason = elim (Bool-cases (str_eq second_fetch.1 "")) [
      | inl e ↦ e
      | inr e ↦
          let h = rw (second_waited, e) at accepted in
          absurd (str_append-ne_empty "idle_confirmation_" second_fetch.1 refl h)
    ]

    second_saved : second_save.0 ≡ true
    unfolding confirm_second
    second_saved = elim (Bool-cases second_save.0) [
      | inl e ↦ e
      | inr e ↦ let h = rw (second_waited, second_reason, e) at accepted in cc
    ]

    second_idle : confirmed_idle first second_fetch.0 ≡ true
    unfolding confirm_second
    second_idle = elim (Bool-cases (confirmed_idle first second_fetch.0)) [
      | inl e ↦ e
      | inr e ↦ let h = rw (second_waited, second_reason, second_saved, e) at accepted in cc
    ]

    second_outcome : confirm_second c first w ≡ (second_fetch.0, "", second_save.1)
    unfolding confirm_second
    second_outcome = rw (second_waited, second_reason, second_saved, second_idle)

  abbrev refreshed_save : Bool × W
  refreshed_save = c.save (c.fetch w).0 (c.fetch w).2

  module _ (accepted : (refresh_first c first w).1 ≡ "") where
    refresh_reason : str_eq (c.fetch w).1 "" ≡ true
    unfolding refresh_first
    refresh_reason = elim (Bool-cases (str_eq (c.fetch w).1 "")) [
      | inl e ↦ e
      | inr e ↦
          let h = rw e at accepted in
          absurd (str_append-ne_empty "idle_confirmation_" (c.fetch w).1 refl h)
    ]

    refresh_saved : refreshed_save.0 ≡ true
    unfolding refresh_first
    refresh_saved = elim (Bool-cases refreshed_save.0) [
      | inl e ↦ e
      | inr e ↦ let h = rw (refresh_reason, e) at accepted in cc
    ]

    refresh_candidate : str_eq (quota_candidate_reason (c.fetch w).0) "" ≡ true
    unfolding refresh_first
    refresh_candidate = elim (Bool-cases (str_eq (quota_candidate_reason (c.fetch w).0) "")) [
      | inl e ↦ e
      | inr e ↦
          (eq_iff (quota_candidate_reason (c.fetch w).0) "").1
            (rw (refresh_reason, refresh_saved, e) at accepted)
    ]

    refresh_outcome : refresh_first c first w ≡ confirm_second c (c.fetch w).0 refreshed_save.1
    unfolding refresh_first
    refresh_outcome = rw (refresh_reason, refresh_saved, refresh_candidate)

module _ {W : Type 0} (c : Callbacks W) where
  pair_lem : (p : Bool × W) → p.0 ≡ true → p ≡ (true, p.1)
  pair_lem (b, v) e = ap (λ x. (x, v)) e

  outcome_lem : (o : Outcome W) → str_eq o.1 "" ≡ true → o ≡ (o.0, "", o.2)
  outcome_lem (o, r, v) e = ap (λ x. (o, x, v)) ((eq_iff r "").0 e)

  confirm_second-Evidence :
      (first base : QuotaObservation) (w spaced : W)
      → ((base ≡ first) × (c.now spaced ≤ first.checked_at + max_initial_quota_age))
        ⊎ ((u v : W) × (c.fetch spaced ≡ (base, "", u))
            × (c.save base u ≡ (true, v))
            × (quota_candidate_reason base ≡ ""))
      → (confirm_second c base w).1 ≡ ""
      → Evidence c first spaced (confirm_second c base w)
  confirm_second-Evidence first base w spaced fresh accepted =
      rw (second_outcome c base w accepted) (record {
        base = base;
        before_fetch = after_wait c base w;
        after_fetch = (second_fetch c base w).2;
        fetched = outcome_lem (second_fetch c base w) (second_reason c base w accepted);
        saved = pair_lem (second_save c base w) (second_saved c base w accepted);
        idle = second_idle c base w accepted;
        fresh = fresh;
      })

  -- If `confirmIdleAfterSpacing` gives no reason against a call, then the account was read twice: the
  -- returned observation was fetched and saved last, it forms an idle pair with an earlier one, and
  -- the earlier one is the initial observation, at most ten seconds old after the spacing, or was
  -- fetched after the spacing, saved, and is a candidate itself.
  pub confirm_idle_after_spacing-Evidence :
      (first : QuotaObservation) (spacing : Duration) (w : W)
      → (confirm_idle_after_spacing c first spacing w).1 ≡ ""
      → Evidence c first (c.wait spacing w).1 (confirm_idle_after_spacing c first spacing w)
  unfolding confirm_idle_after_spacing
  confirm_idle_after_spacing-Evidence first spacing w accepted =
      elim (Bool-cases (c.wait spacing w).0) [
        | inr e ↦ let h = rw e at accepted in cc
        | inl waited ↦ elim (Bool-cases (is_old (c.wait spacing w).1)) [
          | inr young ↦
              rw (waited, young)
                (confirm_second-Evidence first first _ _ (inl (refl, ground arith))
                  (rw (waited, young) at accepted))
          | inl old ↦
              let spaced = (c.wait spacing w).1 in
              let h = rw (waited, old) at accepted in
              rw (waited, old, refresh_outcome c first spaced h)
                (confirm_second-Evidence first (c.fetch spaced).0 _ spaced
                  (inr (
                    (c.fetch spaced).2,
                    (refreshed_save c first spaced).1,
                    outcome_lem (c.fetch spaced) (refresh_reason c first spaced h),
                    pair_lem (refreshed_save c first spaced) (refresh_saved c first spaced h),
                    (eq_iff (quota_candidate_reason (c.fetch spaced).0) "").0
                        (refresh_candidate c first spaced h),
                  ))
                  (rw (refresh_outcome c first spaced h) at h))
        ]
      ]
    where
      is_old : W → Bool
      is_old v = ltb_ℤ (pos max_initial_quota_age) (sub_time (c.now v) first.checked_at)
