-- ===== src/Clock/Units.antt =====
-- Instants, durations and their comparisons.
use codex_daily_prewarm.Base.{Bool, ltb, pos, pos_part, sub_ℕ, ℕ, ℤ, ◌*◌, ◌+ℤ◌, ◌/◌, ◌==◌}

abbrev pub Time : Type 0
Time = ℕ

abbrev pub Duration : Type 0
Duration = ℤ

abbrev pub second : ℕ
second = 1_000_000_000

abbrev pub minute : ℕ
minute = 60_000_000_000

abbrev pub hour : ℕ
hour = 3_600_000_000_000

abbrev pub day : ℕ
day = 86_400_000_000_000

abbrev pub is_zero : Time → Bool
is_zero t = t == 0

abbrev pub is_after : Time → Time → Bool
is_after a b = ltb b a

abbrev pub is_before : Time → Time → Bool
is_before a b = ltb a b

-- `a.Sub(b)`.
abbrev pub sub_time : Time → Time → Duration
sub_time a b = sub_ℕ a b

-- `t.Unix()`: the zero time lies 62135596800 seconds before 1970.
abbrev pub unix : Time → ℤ
unix t = sub_ℕ (t / second) 62_135_596_800

-- `time.Unix(seconds, 0)`.
abbrev pub of_unix : ℤ → Time
of_unix s = pos_part (s +ℤ pos 62_135_596_800) * second
