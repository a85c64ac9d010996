-- ===== src/Account/Durable.antt =====
-- runtime.go: what a granted reservation leaves behind.
use mathlib.Core.Path.{subst}
use codex_daily_prewarm.Base.{
  Bool, Bool-cases, String, [], ap, arith, eq_refl, false, if-both, if-false, if-true, inl, inr,
  leb, length, not, refl, some, str_eq, sym, true, ◌&&◌, ◌*◌, ◌++◌, ◌+◌, ◌<◌, ◌∙◌, ◌∷◌, ◌≡◌,
}
use codex_daily_prewarm.Account.Keeps.{account_window-set_account, attempts_of}
use codex_daily_prewarm.Account.Limits.{
  recent_attempts, reserve_attempt, warm_limit_reason, window_limit_reason, with_attempt,
}
use codex_daily_prewarm.Clock.{Time, hour, is_before, is_zero}
use codex_daily_prewarm.Data.Account.{AccountWindow}
use codex_daily_prewarm.Data.State.{Runtime, account_window, persist_state, set_account}

-- The reason against a call is not the empty text.
abbrev pub has_reason : String → Bool
has_reason reason = not (str_eq reason "")

window_limit_reason-recent :
    (w : AccountWindow) (t : Time)
    → 0 < w.last_prewarm_at
    → t < w.last_prewarm_at + 5 * hour
    → has_reason (window_limit_reason w t) ≡ true
window_limit_reason-recent w t pos_at soon =
    if-both (λ reason. has_reason reason ≡ true)
      (leb 5 (length (recent_attempts w.attempt_times t))) "rolling_24h_limit" _ refl
      (ap has_reason (
        if-true (not (is_zero w.last_prewarm_at) && is_before t (w.last_prewarm_at + 5 * hour))
          "recent_prewarm_attempt" "" (ground (arith, pos_at, soon))))

module _ (account : String) (now : Time) (r : Runtime) where
  abbrev is_full : Bool
  is_full = leb 5 (length (recent_attempts (attempts_of r account) now))

  abbrev reserved_state : Runtime
  reserved_state =
      persist_state true (set_account account (with_attempt (account_window r account) now) r)

  reserve_attempt-full :
      (written : Bool) → is_full ≡ true → reserve_attempt account now written r ≡ (false, r)
  unfolding reserve_attempt
  reserve_attempt-full written full = if-true is_full _ _ full

  reserve_attempt-written :
      is_full ≡ false → reserve_attempt account now true r ≡ (true, reserved_state)
  unfolding reserve_attempt
  reserve_attempt-written room = if-false is_full _ _ room

  reserve_attempt-unwritten : is_full ≡ false → (reserve_attempt account now false r).0 ≡ false
  unfolding reserve_attempt
  reserve_attempt-unwritten room = ap {A = Bool × Runtime} (λ p. p.0) (if-false is_full _ _ room)

  granted-state :
      (written : Bool)
      → (reserve_attempt account now written r).0 ≡ true
      → (reserve_attempt account now written r).1 ≡ reserved_state
  granted-state written h = elim (Bool-cases is_full) [
    | inl full ↦ cc (reserve_attempt-full written full)
    | inr room ↦ elim (Bool-cases written) [
      | inl e ↦ rw e (ap (λ p. p.1) (reserve_attempt-written room))
      | inr e ↦ cc (reserve_attempt-unwritten room)
    ]
  ]

  reserved-disk : reserved_state.disk ≡ some reserved_state.state
  unfolding persist_state
  reserved-disk = refl

  reserved-window :
      account_window reserved_state account ≡ with_attempt (account_window r account) now
  unfolding persist_state
  reserved-window =
      account_window-set_account account account (with_attempt (account_window r account) now) r
      ∙ if-true (str_eq account account) _ _ (eq_refl account)

  reserved-reason :
      (t : Time)
      → 0 < now
      → t < now + 5 * hour
      → has_reason (warm_limit_reason reserved_state account t) ≡ true
  unfolding warm_limit_reason
  reserved-reason t clock soon =
      subst (λ w. has_reason (window_limit_reason w t) ≡ true) (sym reserved-window)
        (window_limit_reason-recent (with_attempt (account_window r account) now) t clock soon)

  -- When a reservation is granted, at a time that is not Go's zero time, the account's attempts are
  -- those before that lie within the rolling window, and the new one at the end, which is also the
  -- last prewarm; the state file holds the state with it already; and until five hours after it, with
  -- no operation in between, `warmLimitReason` has a reason against another call for the account.
  pub reserve_attempt-lasting :
      (written : Bool) (t : Time)
      → (reserve_attempt account now written r).0 ≡ true
      → 0 < now
      → t < now + 5 * hour
      → let r' = (reserve_attempt account now written r).1 in
        (attempts_of r' account ≡ recent_attempts (attempts_of r account) now ++ now ∷ [])
        × ((account_window r' account).last_prewarm_at ≡ now)
        × (r'.disk ≡ some r'.state)
        × (has_reason (warm_limit_reason r' account t) ≡ true)
  reserve_attempt-lasting written t h clock soon =
      subst
        (λ s.
          (attempts_of s account ≡ recent_attempts (attempts_of r account) now ++ now ∷ [])
          × ((account_window s account).last_prewarm_at ≡ now)
          × (s.disk ≡ some s.state)
          × (has_reason (warm_limit_reason s account t) ≡ true))
        (sym (granted-state written h))
        (
          ap (λ w. w.attempt_times) reserved-window,
          ap (λ w. w.last_prewarm_at) reserved-window,
          reserved-disk,
          reserved-reason t clock soon,
        )
