-- ===== src/StateFile/Known.antt =====
-- runtime.go: the import of attempts, which makes an account known and keeps what is known.
use mathlib.Core.Path.{subst}
use codex_daily_prewarm.Base.{
  Bool, Bool-cases, List, Map, String, [], ap, arith, both-true, eq_iff, false, if-both, if-false,
  if-true, if◌then◌else◌, inl, inr, insert, lookup-insert, ltb, not, refl, str_eq, suc, sym, true,
  zero, ℕ, ◌&&◌, ◌*◌, ◌++◌, ◌-◌, ◌<◌, ◌==◌, ◌∙◌, ◌∷◌, ◌≡◌, ◌≤◌,
}
use codex_daily_prewarm.Clock.{Time, hour, is_after, is_zero}
use codex_daily_prewarm.Data.Account.{AccountWindow}
use codex_daily_prewarm.Data.Run.{AccountResult}
use codex_daily_prewarm.StateFile.Read.{
  copies, has_attempts, import_result, is_importable, is_nil, is_usable_attempt, window_of,
  with_imported,
}

-- What is known of `before` is known of `after`.
abbrev pub Grows : Map AccountWindow → Map AccountWindow → Type 0
Grows before after =
    (account : String) → has_attempts before account ≡ true → has_attempts after account ≡ true

copied : (n : ℕ) (at : Time) (times : List Time) → 0 < n → is_nil (times ++ copies n at) ≡ false
copied zero at times h = absurd (omega (arith, h))
copied (suc n) at [] h = refl
copied (suc n) at (t ∷ times) h = refl

has_attempts-insert :
    (known : Map AccountWindow) (account wanted : String) (w : AccountWindow)
    → has_attempts (insert account w known) wanted
      ≡ (if str_eq account wanted then not (is_nil w.attempt_times) else has_attempts known wanted)
has_attempts-insert known account wanted w = ground (arith, lookup-insert account wanted w known)

at_least_one : (n : ℕ) → (n == 0) ≡ false → 0 < (if ltb n 5 then n else 5)
at_least_one n h = ground (arith, h)

module _ (res : AccountResult) (usable : is_usable_attempt res ≡ true) where
  has_imported : (w : AccountWindow) → not (is_nil (with_imported res w).attempt_times) ≡ true
  has_imported w =
      let made = both-true _ (not (is_zero res.finished_at)) usable in
      let some_attempt = (both-true (not (str_eq res.account "")) _ made.0).1 in
      ap not (
        copied _ res.finished_at w.attempt_times
          (at_least_one res.attempts (ground (arith, some_attempt))))

  abbrev with_attempts : Map AccountWindow → Map AccountWindow
  with_attempts known = insert res.account (with_imported res (window_of known res.account)) known

  imported-Grows : (known : Map AccountWindow) → Grows known (with_attempts known)
  imported-Grows known account h =
      rw
        (has_attempts-insert known res.account account
          (with_imported res (window_of known res.account)))
        (if-both (λ b. b ≡ true) (str_eq res.account account) _ _
          (has_imported (window_of known res.account)) h)

  imported-has_attempts :
      (known : Map AccountWindow) → has_attempts (with_attempts known) res.account ≡ true
  imported-has_attempts known =
      has_attempts-insert known res.account res.account
        (with_imported res (window_of known res.account))
      ∙ if-true (str_eq res.account res.account) _ _ ((eq_iff res.account res.account).1 refl)
      ∙ has_imported (window_of known res.account)

pub import_result-Grows :
    (original known : Map AccountWindow) (now : Time) (res : AccountResult)
    → Grows known (import_result original now res known)
unfolding import_result
import_result-Grows original known now res = elim (Bool-cases (is_importable original now res)) [
  | inl e ↦
      subst (Grows known) (sym (if-true (is_importable original now res) _ _ e))
        (imported-Grows res (both-true _ _ (both-true _ _ e).0).0 known)
  | inr e ↦ subst (Grows known) (sym (if-false (is_importable original now res) _ _ e)) (λ a h. h)
]

-- The result is no longer one to import.
abbrev pub IsImported : Time → Map AccountWindow → AccountResult → Type 0
IsImported now known res = is_importable known now res ≡ false

still_false :
    (a b b' c c' : Bool)
    → (b' ≡ true → b ≡ true)
    → (c ≡ true → c' ≡ true)
    → (a && b && not c) ≡ false
    → (a && b' && not c') ≡ false
still_false false b b' c c' f g h = refl
still_false true b false c c' f g h = refl
still_false true b true c true f g h = refl
still_false true b true true false f g h = let known_too = g refl in cc
still_false true b true false false f g h = let on = f refl in cc

pub IsImported-Grows :
    (now : Time) (before after : Map AccountWindow) (res : AccountResult)
    → Grows before after
    → IsImported now before res
    → IsImported now after res
IsImported-Grows now before after res g h =
    still_false (is_usable_attempt res) (is_after res.finished_at (now - 24 * hour)) _ _ _ (λ e. e)
      (g res.account) h

pub IsImported-later :
    (now later : Time) (known : Map AccountWindow) (res : AccountResult)
    → now ≤ later
    → IsImported now known res
    → IsImported later known res
IsImported-later now later known res le h =
    still_false (is_usable_attempt res) (is_after res.finished_at (now - 24 * hour)) _ _ _
      (λ e. ground (arith, e, le)) (λ e. e) h

and-not : (a c : Bool) → c ≡ true → (a && not c) ≡ false
and-not false c e = refl
and-not true c e = ap not e

entered-IsImported :
    (now : Time) (res : AccountResult)
    → is_usable_attempt res ≡ true
    → (known : Map AccountWindow)
    → IsImported now
        (insert res.account (with_imported res (window_of known res.account)) known)
        res
entered-IsImported now res usable known =
    and-not (is_usable_attempt res && is_after res.finished_at (now - 24 * hour)) _
      (imported-has_attempts res usable known)

pub import_result-IsImported :
    (original known : Map AccountWindow) (now : Time) (res : AccountResult)
    → Grows original known
    → IsImported now (import_result original now res known) res
unfolding import_result
import_result-IsImported original known now res g =
    elim (Bool-cases (is_importable original now res)) [
      | inl e ↦
          subst (λ l. IsImported now l res) (sym (if-true (is_importable original now res) _ _ e))
            (entered-IsImported now res (both-true _ _ (both-true _ _ e).0).0 known)
      | inr e ↦
          subst (λ l. IsImported now l res) (sym (if-false (is_importable original now res) _ _ e))
            (IsImported-Grows now original known res g e)
    ]
