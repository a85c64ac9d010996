-- ===== src/Config/Names.antt =====
-- config.go: the tests on names, models, fingerprints, clock times and schedules.
use Prim.Native.String.{len}
use text.Mathlib.Text.{starts_with}
use codex_daily_prewarm.Base.{
  Bool, List, Option, String, [], false, if◌then◌else◌, leb, ltb, none, not, some, str_eq, suc,
  true, zero, ℕ, ◌%◌, ◌&&◌, ◌*◌, ◌+◌, ◌-◌, ◌/◌, ◌==◌, ◌^◌, ◌||◌, ◌∷◌,
}
use codex_daily_prewarm.Config.Checked.{
  Checked, bad, bad_fingerprint, crosses_midnight, guard, night_hours, not_a_spec, ok, or_bad,
  ◌>>=◌, ◌>>◌,
}
use codex_daily_prewarm.Data.Config.{Schedule}
use codex_daily_prewarm.Text.{codes, trim_space}

abbrev pub is_digit : ℕ → Bool
is_digit c = leb b'0' c && leb c b'9'

abbrev pub is_letter : ℕ → Bool
is_letter c = (leb b'a' c && leb c b'z') || (leb b'A' c && leb c b'Z')

abbrev pub every : (ℕ → Bool) → List ℕ → Bool
every p [] = true
every p (c ∷ cs) = p c && every p cs

abbrev pub is_name_char : ℕ → Bool
is_name_char c = (c == b'-') || (c == b'_') || is_digit c || is_letter c

unfoldable pub valid_job_name : String → Bool
valid_job_name name =
    if len name == 0 || ltb 64 (len name) then false else every is_name_char (codes name)

abbrev pub is_model_char : ℕ → Bool
is_model_char c = is_name_char c || (c == b'.') || (c == b':') || (c == b'/')

unfoldable pub valid_model : String → Bool
valid_model text =
    let model = trim_space text in
    if str_eq model "" || ltb 256 (len model) then false else every is_model_char (codes model)

abbrev pub is_hex : ℕ → Bool
is_hex c = is_digit c || (leb b'a' c && leb c b'f')

abbrev pub skip : ℕ → List ℕ → List ℕ
skip zero cs = cs
skip (suc n) [] = []
skip (suc n) (c ∷ cs) = skip n cs

abbrev pub contains : String → List String → Bool
contains s [] = false
contains s (t ∷ ts) = str_eq t s || contains s ts

-- The loop over the fingerprints, with those that are behind it.
unfoldable pub check_fingerprints : List String → List String → Checked (Unit {0})
check_fingerprints seen [] = ok tt
check_fingerprints seen (f ∷ fs) =
    let rest = check_fingerprints (f ∷ seen) fs in
    if not (len f == 17)
      || not (starts_with f "acct-")
      || contains f seen
      || not (every is_hex (skip 5 (codes f)))
    then bad bad_fingerprint
    else rest

-- `time.Parse("15:04", text)` on a text of five bytes: two digits, a colon, two digits, in range.
-- The value is the minute of the day.
abbrev pub clock_digits : List ℕ → Option ℕ
clock_digits (a ∷ b ∷ c ∷ d ∷ e ∷ []) =
    let h = (a - 48) * 10 + (b - 48) in
    let m = (d - 48) * 10 + (e - 48) in
    if is_digit a && is_digit b && (c == b':') && is_digit d && is_digit e && ltb h 24 && ltb m 60
    then some (h * 60 + m)
    else none
clock_digits _ = none

unfoldable pub parse_clock : String → Option ℕ
parse_clock text = clock_digits (codes text)

abbrev pub is_some {ℓ} : {A : Type ℓ} → Option A → Bool
is_some none = false
is_some (some a) = true

-- Bit `n` of a 64-bit set.
abbrev pub has_bit : ℕ → ℕ → Bool
has_bit x n = (x / 2 ^ n) % 2 == 1

-- `for hour := 0; hour < 24; hour++`, from `hour` with the rounds that are left.
unfoldable pub night_hour : ℕ → ℕ → ℕ → Bool
night_hour hours zero h = false
night_hour hours (suc rounds) h =
    (has_bit hours h && (ltb h 5 || ltb 23 h)) || night_hour hours rounds (h + 1)

unfoldable pub validate_daytime_schedule : Schedule → Checked (Unit {0})
validate_daytime_schedule schedule = do
  spec ← or_bad not_a_spec schedule.spec
  guard (not (night_hour spec.hours 24 0)) night_hours
  guard (not (has_bit spec.hours 23 && has_bit spec.minutes 59)) crosses_midnight
