-- ===== src/Account/Allowance.antt =====
-- The limit of five model calls in 24 hours, for the whole runtime.
use mathlib.Core.List.{append-nil, append_assoc}
use mathlib.Core.Path.{subst}
use codex_daily_prewarm.Base.{
  Bool, Bool-cases, List, String, [], ap, arith, eq_iff, eq_refl, false, if◌then◌else◌, inl, inr,
  length, refl, str_eq, sym, true, ◌++◌, ◌<◌, ◌∷◌, ◌≡◌, ◌≤◌, ◌⊎◌,
}
use codex_daily_prewarm.Account.Events.{
  AccountEvent, IsQuiet, account_step, account_step-attempts, clears_retry, granted_now,
  granted_times, plans_retry, records_result, reserves, saves_failure, saves_quota,
}
use codex_daily_prewarm.Account.Keeps.{account_window-set_account, attempts_of, state-persist_state}
use codex_daily_prewarm.Account.Limits.{recent_attempts, reserve_attempt, with_attempt}
use codex_daily_prewarm.Account.Rolling.{
  Covers, Covers-granted, Covers-later, Covers-refused, Covers-spent, IsPast, calls_in_day,
}
use codex_daily_prewarm.Clock.{Time}
use codex_daily_prewarm.Config.Parse.{given}
use codex_daily_prewarm.Data.State.{Runtime, account_window, set_account}

-- The clock does not go back between reservations, and does not show Go's zero time.
abbrev pub IsOrdered : Time → List AccountEvent → Type 0
IsOrdered last [] = Unit {0}
IsOrdered last (reserves k now b ∷ es) = (last ≤ now) × (0 < now) × IsOrdered now es
IsOrdered last (saves_quota cfg k o b ∷ es) = IsOrdered last es
IsOrdered last (saves_failure k now reason b ∷ es) = IsOrdered last es
IsOrdered last (plans_retry cfg k now reason b ∷ es) = IsOrdered last es
IsOrdered last (clears_retry k b ∷ es) = IsOrdered last es
IsOrdered last (records_result cfg k res b ∷ es) = IsOrdered last es

-- A reservation is refused and changes nothing, or adds its time to the attempts that are kept.
pub reserve_attempt-cases :
    (account : String) (now : Time) (b : Bool) (r : Runtime)
    → ((reserve_attempt account now b r ≡ (false, r))
        × (5 ≤ length (recent_attempts (attempts_of r account) now)))
      ⊎ ((length (recent_attempts (attempts_of r account) now) < 5)
          × ((reserve_attempt account now b r).0 ≡ b)
          × (attempts_of (reserve_attempt account now b r).1 account
              ≡ recent_attempts (attempts_of r account) now ++ now ∷ []))
unfolding reserve_attempt
reserve_attempt-cases a now b r = ground (
  arith,
  state-persist_state b (set_account a (with_attempt (account_window r a) now) r),
  account_window-set_account a a (with_attempt (account_window r a) now) r,
  eq_iff a a,
)

-- The clock after an event.
abbrev pub last_after : Time → AccountEvent → Time
last_after last (reserves k now b) = now
last_after last _ = last

IsOrdered-tail :
    (last : Time) (e : AccountEvent) (es : List AccountEvent)
    → IsOrdered last (e ∷ es)
    → IsOrdered (last_after last e) es
IsOrdered-tail last (reserves k now b) es h = h.2
IsOrdered-tail last (saves_quota cfg k o b) es h = h
IsOrdered-tail last _ es h = h

-- What a reservation comes to, by its answer and the attempts it leaves.
reservation-Covers :
    (last now : Time) (given times times' : List Time) (answer b : Bool)
    → 0 < now
    → last ≤ now
    → Covers last given times
    → ((answer ≡ false) × (times' ≡ times))
      ⊎ ((length (recent_attempts times now) < 5)
          × (answer ≡ b)
          × (times' ≡ recent_attempts times now ++ now ∷ []))
    → Covers now (given ++ (if answer then now ∷ [] else [])) times'
reservation-Covers last now given times times' answer b pos_now later v (inl (no_call, same)) =
    rw (no_call, same, append-nil given) (Covers-refused last now given times v pos_now later)
reservation-Covers last now given times times' true b pos_now later v (inr (room, _, more)) =
    rw more (Covers-granted last now given times v pos_now later room)
reservation-Covers last now given times times' false b pos_now later v (inr (room, _, more)) =
    rw (more, append-nil given) (Covers-spent last now given times v pos_now later)

granted_now-own :
    (account : String) (now : Time) (b answer : Bool)
    → granted_now account (reserves account now b) answer ≡ (if answer then now ∷ [] else [])
granted_now-own account now b true = rw (eq_refl account)
granted_now-own account now b false = refl

granted_now-quiet :
    (account : String) (e : AccountEvent) (answer : Bool)
    → IsQuiet account e
    → granted_now account e answer ≡ []
granted_now-quiet account (reserves k now b) true h = rw h
granted_now-quiet account (reserves k now b) false h = refl
granted_now-quiet account (saves_quota cfg k o b) answer h = refl
granted_now-quiet account _ answer h = refl

answer-of :
    (account : String) (now : Time) (b : Bool) (r : Runtime)
    → (((reserve_attempt account now b r).0 ≡ false)
        × (attempts_of (reserve_attempt account now b r).1 account ≡ attempts_of r account))
      ⊎ ((length (recent_attempts (attempts_of r account) now) < 5)
          × ((reserve_attempt account now b r).0 ≡ b)
          × (attempts_of (reserve_attempt account now b r).1 account
              ≡ recent_attempts (attempts_of r account) now ++ now ∷ []))
answer-of account now b r = elim (reserve_attempt-cases account now b r) [
  | inl (same, _) ↦ inl (ap (λ p. p.0) same, ap (λ p. attempts_of p.1 account) same)
  | inr more ↦ inr more
]

module _ (account : String) where
  own_step :
      (last now : Time) (b : Bool) (r : Runtime) (given : List Time)
      → last ≤ now
      → 0 < now
      → Covers last given (attempts_of r account)
      → Covers now
          (given
            ++ granted_now account (reserves account now b) (reserve_attempt account now b r).0)
          (attempts_of (reserve_attempt account now b r).1 account)
  own_step last now b r given later pos_now v =
      rw (granted_now-own account now b (reserve_attempt account now b r).0) (
        reservation-Covers last now given (attempts_of r account) _ _ b pos_now later v
          (answer-of account now b r))

  other_step :
      (last : Time) (e : AccountEvent) (r : Runtime) (given : List Time)
      → IsQuiet account e
      → last ≤ last_after last e
      → Covers last given (attempts_of r account)
      → Covers
          (last_after last e)
          (given ++ granted_now account e (account_step r e).0)
          (attempts_of (account_step r e).1 account)
  other_step last e r given quiet later v =
      rw (granted_now-quiet account e (account_step r e).0 quiet, append-nil given)
        (subst (Covers (last_after last e) given) (sym (account_step-attempts account r e quiet))
          (Covers-later last (last_after last e) given (attempts_of r account) v later))

  -- The next event, whichever it is.
  any_step :
      (last : Time) (e : AccountEvent) (es : List AccountEvent) (r : Runtime) (given : List Time)
      → IsOrdered last (e ∷ es)
      → Covers last given (attempts_of r account)
      → Covers
          (last_after last e)
          (given ++ granted_now account e (account_step r e).0)
          (attempts_of (account_step r e).1 account)
  unfolding account_step
  any_step last (reserves k now b) es r given h v = elim (Bool-cases (str_eq k account)) [
    | inl own ↦
        subst
          (λ x.
            Covers now
              (given ++ granted_now account (reserves x now b) (reserve_attempt x now b r).0)
              (attempts_of (reserve_attempt x now b r).1 account))
          (sym ((eq_iff k account).0 own)) (own_step last now b r given h.0 h.1 v)
    | inr other ↦ other_step last (reserves k now b) r given other h.0 v
  ]
  any_step last (saves_quota cfg k o b) es r given h v =
      other_step last (saves_quota cfg k o b) r given tt (omega arith) v
  any_step last (saves_failure k now reason b) es r given h v =
      other_step last (saves_failure k now reason b) r given tt (omega arith) v
  any_step last (plans_retry cfg k now reason b) es r given h v =
      other_step last (plans_retry cfg k now reason b) r given tt (omega arith) v
  any_step last (clears_retry k b) es r given h v =
      other_step last (clears_retry k b) r given tt (omega arith) v
  any_step last (records_result cfg k res b) es r given h v =
      other_step last (records_result cfg k res b) r given tt (omega arith) v

  granted_bounded_from :
      (last : Time) (es : List AccountEvent) (r : Runtime) (given : List Time)
      → IsOrdered last es
      → Covers last given (attempts_of r account)
      → (t : Time) → calls_in_day t (given ++ granted_times account r es) ≤ 5
  unfolding granted_times
  granted_bounded_from last [] r given h v t = rw (append-nil given) (v.bounded t)
  granted_bounded_from last (e ∷ es) r given h v t = rw (← append_assoc given _ _) (
      granted_bounded_from (last_after last e) es (account_step r e).1
        (given ++ granted_now account e (account_step r e).0) (IsOrdered-tail last e es h)
        (any_step last e es r given h v) t)

  -- Whatever sequence of the operations of Account/Events runs, on any accounts, and whether or not
  -- their writes succeed: as long as the clock does not go back between reservations and none of the attempts
  -- already recorded lies after the first of them, no 24 hours hold more than five model calls that
  -- the account was given leave for.
  pub five_calls_a_day :
      (last : Time) (r : Runtime) (es : List AccountEvent)
      → IsPast last (attempts_of r account)
      → IsOrdered last es
      → (t : Time) → calls_in_day t (granted_times account r es) ≤ 5
  five_calls_a_day last r es past ordered = granted_bounded_from last es r [] ordered (record {
    past_given = tt;
    past_times = past;
    covered = λ t h. omega arith;
    bounded = λ t. omega arith;
  })
