-- ===== src/Run/Spread.antt =====
-- runtime.go: what `resetSpread` measures.
use mathlib.Core.List.{append-nil, append_assoc}
use mathlib.Core.Path.{subst}
use codex_daily_prewarm.Base.{
  All, All-append, All-map, Bool, Bool-cases, List, Option, String, [], any, ap, arith, if-both,
  if-false, if-split, if-true, if◌then◌else◌, inl, inr, keep, length, length-append, ltb, ltb→lt,
  none, not, refl, some, suc, sym, true, ℕ, ◌++◌, ◌+◌, ◌-◌, ◌/◌, ◌<◌, ◌==◌, ◌||◌, ◌∙◌, ◌∷◌, ◌≡◌,
  ◌≢◌, ◌≤◌, ◌⊎◌,
}
use codex_daily_prewarm.Clock.{Time, is_after, second}
use codex_daily_prewarm.Data.State.{Runtime}
use codex_daily_prewarm.Run.Finish.{
  Spread, no_spread, reset_spread, resets_of, spread_of, spread_over, with_reset,
}
use codex_daily_prewarm.Run.Host.{Auth}

any-grows : {A : Type 0} (p : A → Bool) (xs ys : List A) → any p xs ≡ true → any p (xs ++ ys) ≡ true
any-grows p [] ys h = cc
any-grows p (x ∷ xs) ys h = ground (arith, h, any-grows p xs ys)

any-last :
    {A : Type 0} (p : A → Bool) (xs : List A) (y : A) → p y ≡ true → any p (xs ++ y ∷ []) ≡ true
any-last p [] y h = ground (arith, h)
any-last p (x ∷ xs) y h = ground (arith, any-last p xs y h)

-- `low` and `high` are the least and the greatest of the times.
pub record AreBounds (low high : Time) (times : List Time) : Type 0 where
  pub between : All (λ t. (low ≤ t) × (t ≤ high)) times
  pub low_taken : any (λ t. t == low) times ≡ true
  pub high_taken : any (λ t. t == high) times ≡ true

-- After the resets `seen`, which lie all after the zero time.
data IsSpreadOf (seen : List Time) (s : Spread) : Type 0 where
  none_yet : seen ≡ [] → s ≡ no_spread → IsSpreadOf seen s
  some_yet :
      length seen ≡ s.reset_count
      → 0 < s.earliest
      → 0 < s.latest
      → AreBounds s.earliest s.latest seen
      → IsSpreadOf seen s

earliest-cases :
    (reset e : Time)
    → 0 < e
    → ((if e == 0 || ltb reset e then reset else e) ≤ e)
      × ((if e == 0 || ltb reset e then reset else e) ≤ reset)
      × (((if e == 0 || ltb reset e then reset else e) ≡ e)
          ⊎ ((if e == 0 || ltb reset e then reset else e) ≡ reset))
earliest-cases reset e h = elim (Bool-cases (e == 0 || ltb reset e)) [
  | inl b ↦ rw b (ground (arith, b, h), ground arith, inr refl)
  | inr b ↦ rw b (ground arith, ground (arith, b), inl refl)
]

latest-cases :
    (reset e : Time)
    → 0 < e
    → (e ≤ (if e == 0 || ltb e reset then reset else e))
      × (reset ≤ (if e == 0 || ltb e reset then reset else e))
      × (((if e == 0 || ltb e reset then reset else e) ≡ e)
          ⊎ ((if e == 0 || ltb e reset then reset else e) ≡ reset))
latest-cases reset e h = elim (Bool-cases (e == 0 || ltb e reset)) [
  | inl b ↦ rw b (ground (arith, b, h), ground arith, inr refl)
  | inr b ↦ rw b (ground arith, ground (arith, b), inl refl)
]

-- A bound that is taken stays taken, or the last one takes it.
taken-last :
    (seen : List Time) (old new last : Time)
    → any (λ t. t == old) seen ≡ true
    → (new ≡ old) ⊎ (new ≡ last)
    → any (λ t. t == new) (seen ++ last ∷ []) ≡ true
taken-last seen old new last h (inl e) =
    subst (λ b. any (λ t. t == b) (seen ++ last ∷ []) ≡ true) (sym e)
      (any-grows (λ t. t == old) seen (last ∷ []) h)
taken-last seen old new last h (inr e) = any-last (λ t. t == new) seen last (ground (arith, e))

with_reset-IsSpreadOf :
    (seen : List Time) (s : Spread) (reset : Time)
    → 0 < reset
    → IsSpreadOf seen s
    → IsSpreadOf (seen ++ reset ∷ []) (with_reset reset s)
with_reset-IsSpreadOf seen s reset h (none_yet e k) =
    subst (λ l. IsSpreadOf (l ++ reset ∷ []) (with_reset reset s)) (sym e)
      (subst (λ x. IsSpreadOf (reset ∷ []) (with_reset reset x)) (sym k)
        (some_yet refl h h (record {
          between = ((omega arith, omega arith), tt);
          low_taken = ground arith;
          high_taken = ground arith;
        })))
with_reset-IsSpreadOf seen s reset h (some_yet n low high t) =
    let (below, below', low_is) = earliest-cases reset s.earliest low in
    let (above, above', high_is) = latest-cases reset s.latest high in
    let s' = with_reset reset s in
    some_yet (length-append seen (reset ∷ []) ∙ ap (λ k. k + 1) n)
      (elim low_is [ inl e ↦ omega (arith, e, low) | inr e ↦ omega (arith, e, h) ])
      (omega (arith, above, high))
      (record {
        between =
            All-append (λ x. (s'.earliest ≤ x) × (x ≤ s'.latest)) seen (reset ∷ [])
              (All-map (λ x. (s.earliest ≤ x) × (x ≤ s.latest)) _ seen
                (λ x b. (omega (arith, below, b.0), omega (arith, above, b.1))) t.between)
              ((below', above'), tt);
        low_taken = taken-last seen s.earliest s'.earliest reset t.low_taken low_is;
        high_taken = taken-last seen s.latest s'.latest reset t.high_taken high_is;
      })

-- After the resets `seen`, the rest adds those after `now`.
spread_over-IsSpreadOf :
    (resets : List Time) (now : Time) (seen : List Time) (s : Spread)
    → IsSpreadOf seen s
    → IsSpreadOf (seen ++ keep (λ t. is_after t now) resets) (spread_over resets now s)
unfolding spread_over
spread_over-IsSpreadOf [] now seen s t = subst (λ l. IsSpreadOf l s) (sym (append-nil seen)) t
spread_over-IsSpreadOf (reset ∷ resets) now seen s t =
    let rest = keep (λ x. is_after x now) resets in
    let P : Bool → Type 0 = λ b.
      IsSpreadOf (seen ++ (if b then reset ∷ rest else rest))
        (spread_over resets now (if b then with_reset reset s else s)) in
    elim (Bool-cases (is_after reset now)) [
      | inl e ↦ subst P (sym e) (
          subst (λ l. IsSpreadOf l (spread_over resets now (with_reset reset s)))
            (append_assoc seen (reset ∷ []) rest)
            (spread_over-IsSpreadOf resets now (seen ++ reset ∷ []) (with_reset reset s)
              (with_reset-IsSpreadOf seen s reset (ground (arith, e)) t)))
      | inr e ↦ subst P (sym e) (spread_over-IsSpreadOf resets now seen s t)
    ]

keep-length : {A : Type 0} (p : A → Bool) (xs : List A) → length (keep p xs) ≤ length xs
keep-length p [] = omega arith
keep-length p (x ∷ xs) =
    if-both (λ l. length l ≤ suc (length xs)) (p x) (x ∷ keep p xs) (keep p xs)
      (omega (arith, keep-length p xs)) (omega (arith, keep-length p xs))

keep-all :
    {A : Type 0} (p : A → Bool) (xs : List A) → length (keep p xs) ≡ length xs → keep p xs ≡ xs
keep-all p [] h = refl
keep-all p (x ∷ xs) h = elim (Bool-cases (p x)) [
  | inl e ↦
      let same = ap length (if-true (p x) (x ∷ keep p xs) (keep p xs) e) in
      if-true (p x) (x ∷ keep p xs) (keep p xs) e
      ∙ ap (λ l. x ∷ l) (keep-all p xs (omega (arith, h, same)))
  | inr e ↦
      let same = ap length (if-false (p x) (x ∷ keep p xs) (keep p xs) e) in
      absurd (omega (arith, h, same, keep-length p xs))
]

-- The number of the resets that lie ahead, and the whole seconds from the first to the last of them,
-- if they are two or more and all of them lie ahead.
pub record IsMeasured (resets : List Time) (now : Time) (p : ℕ × Option ℕ) : Type 0 where
  pub counted : p.0 ≡ length (keep (λ t. is_after t now) resets)
  pub extent :
      ((p.1 ≡ none) × ((p.0 ≢ length resets) ⊎ (p.0 < 2)))
      ⊎ ((low high : Time) × (p.1 ≡ some ((high - low) / second))
          × AreBounds low high resets
          × All (λ t. now < t) resets
          × (2 ≤ length resets))

spread_count : (kept : List Time) (s : Spread) → IsSpreadOf kept s → s.reset_count ≡ length kept
spread_count kept s (none_yet e k) = ap (λ x. x.reset_count) k ∙ sym (ap length e)
spread_count kept s (some_yet n low high t) = sym n

spread_bounds :
    (kept : List Time) (s : Spread)
    → IsSpreadOf kept s
    → 2 ≤ s.reset_count
    → AreBounds s.earliest s.latest kept
spread_bounds kept s (none_yet e k) h =
    let zero_count : s.reset_count ≡ 0 = ap (λ x. x.reset_count) k in
    absurd (omega (arith, h, zero_count))
spread_bounds kept s (some_yet n low high t) h = t

keep-ahead :
    (now : Time) (xs : List Time)
    → length (keep (λ t. is_after t now) xs) ≡ length xs
    → All (λ t. now < t) xs
keep-ahead now [] h = tt
keep-ahead now (x ∷ xs) h = elim (Bool-cases (is_after x now)) [
  | inl e ↦
      let rest = keep (λ t. is_after t now) xs in
      let same = ap length (if-true (is_after x now) (x ∷ rest) rest e) in
      (ground (arith, e), keep-ahead now xs (omega (arith, h, same)))
  | inr e ↦
      let rest = keep (λ t. is_after t now) xs in
      let same = ap length (if-false (is_after x now) (x ∷ rest) rest e) in
      absurd (omega (arith, h, same, keep-length (λ t. is_after t now) xs))
]

few-cases : (a b : ℕ) → (not (a == b) || ltb a 2) ≡ true → (a ≢ b) ⊎ (a < 2)
few-cases a b h = elim (Bool-cases (ltb a 2)) [
  | inl e ↦ inr (ltb→lt a 2 e)
  | inr e ↦ inl (λ same. ground (arith, h, e, same))
]

spread_of-IsMeasured :
    (resets : List Time) (now : Time) → IsMeasured resets now (spread_of resets now)
unfolding spread_of
spread_of-IsMeasured resets now =
    let s = spread_over resets now no_spread in
    let kept = keep (λ t. is_after t now) resets in
    let t = spread_over-IsSpreadOf resets now [] no_spread (none_yet refl refl) in
    let n = spread_count kept s t in
    if-split (IsMeasured resets now) (not (s.reset_count == length resets) || ltb s.reset_count 2)
      (s.reset_count, none) (s.reset_count, some ((s.latest - s.earliest) / second))
      (λ few. record {
        counted = n;
        extent = inl (refl, few-cases s.reset_count (length resets) few);
      })
      (λ many.
        let all_ahead : s.reset_count ≡ length resets = ground (arith, many) in
        let two : 2 ≤ s.reset_count = ground (arith, many) in
        record {
          counted = n;
          extent = inr (
            s.earliest,
            s.latest,
            refl,
            subst (AreBounds s.earliest s.latest)
                (keep-all (λ t. is_after t now) resets (sym n ∙ all_ahead))
                (spread_bounds kept s t two),
            keep-ahead now resets (sym n ∙ all_ahead),
            omega (arith, two, all_ahead),
          );
        })

-- `resetSpread` counts the accounts whose five-hour reset lies ahead; and it gives no spread if there
-- are fewer than two of them or not all of the accounts are among them, and else the whole seconds
-- from the earliest to the latest reset of the accounts.
pub reset_spread-IsMeasured :
    (fingerprint : Auth → String) (auths : List Auth) (now : Time) (r : Runtime)
    → IsMeasured (resets_of fingerprint auths r) now (reset_spread fingerprint auths now r)
unfolding reset_spread
reset_spread-IsMeasured fingerprint auths now r =
    spread_of-IsMeasured (resets_of fingerprint auths r) now
