-- ===== src/Account/Rolling.antt =====
-- The limit of five model calls in 24 hours, over any sequence of events.
use codex_daily_prewarm.Base.{
  All, All-append, Bool, List, [], arith, keep, keep-append, leb, length, length-append,
  length-keep-le, ltb, refl, ℕ, ◌&&◌, ◌*◌, ◌++◌, ◌+◌, ◌<◌, ◌∷◌, ◌≡◌, ◌≤◌,
}
use codex_daily_prewarm.Account.Limits.{recent_attempts}
use codex_daily_prewarm.Clock.{Time, hour}
use codex_daily_prewarm.Config.Parse.{given}

-- In the 24 hours up to and including `t`.
abbrev pub in_day : Time → Time → Bool
in_day t at = leb at t && ltb t (at + 24 * hour)

abbrev pub calls_in_day : Time → List Time → ℕ
calls_in_day t times = length (keep (in_day t) times)

-- Every time lies after Go's zero time and not after `now`.
abbrev pub IsPast : Time → List Time → Type 0
IsPast now = All (λ at. (0 < at) × (at ≤ now))

IsPast-mono : (s t : Time) (xs : List Time) → s ≤ t → IsPast s xs → IsPast t xs
IsPast-mono s t [] h p = tt
IsPast-mono s t (x ∷ xs) h p = (omega arith, IsPast-mono s t xs h p.1)

IsPast-recent : (now t : Time) (xs : List Time) → IsPast t xs → IsPast t (recent_attempts xs now)
IsPast-recent now t [] p = tt
IsPast-recent now t (x ∷ xs) p = ground (arith, IsPast-recent now t xs p.1)

-- What `recentAttempts` drops is out of the day of every later time.
calls_in_day-recent :
    (now t : Time) (xs : List Time)
    → IsPast now xs
    → now ≤ t
    → calls_in_day t (recent_attempts xs now) ≡ calls_in_day t xs
calls_in_day-recent now t [] p h = refl
calls_in_day-recent now t (x ∷ xs) p h = ground (arith, calls_in_day-recent now t xs p.1 h)

calls_in_day-append :
    (t : Time) (xs ys : List Time)
    → calls_in_day t (xs ++ ys) ≡ calls_in_day t xs + calls_in_day t ys
calls_in_day-append t xs ys = rw (keep-append (in_day t) xs ys) (length-append _ _)

-- The day up to a later time holds no more of the past than the day up to now.
calls_in_day_mono :
    (now t : Time) (xs : List Time)
    → IsPast now xs
    → now ≤ t
    → calls_in_day t xs ≤ calls_in_day now xs
calls_in_day_mono now t [] p h = omega arith
calls_in_day_mono now t (x ∷ xs) p h = ground (arith, calls_in_day_mono now t xs p.1 h)

-- `given` are the times at which calls were allowed so far, all at most `last`.
pub record Covers (last : Time) (given times : List Time) : Type 0 where
  pub past_given : IsPast last given
  pub past_times : IsPast last times
  pub covered : (t : Time) → last ≤ t → calls_in_day t given ≤ calls_in_day t times
  pub bounded : (t : Time) → calls_in_day t given ≤ 5

IsPast-snoc :
    (s now : Time) (xs : List Time) → 0 < now → s ≤ now → IsPast s xs → IsPast now (xs ++ now ∷ [])
IsPast-snoc s now xs pos_now le p =
    All-append (λ at. (0 < at) × (at ≤ now)) xs (now ∷ []) (IsPast-mono s now xs le p)
      ((pos_now, omega arith), tt)

pub Covers-later :
    (last now : Time) (given times : List Time)
    → Covers last given times
    → last ≤ now
    → Covers now given times
Covers-later last now given times v later = record {
  past_given = IsPast-mono last now given later v.past_given;
  past_times = IsPast-mono last now times later v.past_times;
  covered = λ t h. v.covered t (omega arith);
  bounded = v.bounded;
}

module _ (last now : Time) (given times : List Time) (v : Covers last given times)
    (pos_now : 0 < now) (later : last ≤ now) where
  abbrev kept : List Time
  kept = recent_attempts times now

  kept_covers : (t : Time) → now ≤ t → calls_in_day t given ≤ calls_in_day t kept
  kept_covers t h = omega (
    arith,
    v.covered t,
    calls_in_day-recent now t times (IsPast-mono last now times later v.past_times) h,
  )

  pub Covers-kept : Covers now given kept
  Covers-kept = record {
    past_given = IsPast-mono last now given later v.past_given;
    past_times = IsPast-recent now now times (IsPast-mono last now times later v.past_times);
    covered = kept_covers;
    bounded = v.bounded;
  }

  -- An attempt that was written but not granted.
  pub Covers-spent : Covers now given (kept ++ now ∷ [])
  Covers-spent = record {
    past_given = IsPast-mono last now given later v.past_given;
    past_times = IsPast-snoc now now kept pos_now (omega arith) Covers-kept.past_times;
    covered = λ t h. omega (arith, kept_covers t h, calls_in_day-append t kept (now ∷ []));
    bounded = v.bounded;
  }

  granted_bounded : (t : Time) → length kept < 5 → calls_in_day t (given ++ now ∷ []) ≤ 5
  granted_bounded t room = ground (
    arith,
    calls_in_day-append t given (now ∷ []),
    v.bounded t,
    calls_in_day_mono now t given Covers-kept.past_given,
    kept_covers now (omega arith),
    length-keep-le (in_day now) kept,
  )

  pub Covers-granted : length kept < 5 → Covers now (given ++ now ∷ []) (kept ++ now ∷ [])
  Covers-granted room = record {
    past_given = IsPast-snoc last now given pos_now later v.past_given;
    past_times = Covers-spent.past_times;
    covered = λ t h. omega (
      arith,
      kept_covers t h,
      calls_in_day-append t kept (now ∷ []),
      calls_in_day-append t given (now ∷ []),
    );
    bounded = λ t. granted_bounded t room;
  }

  pub Covers-refused : Covers now given times
  Covers-refused = Covers-later last now given times v later
