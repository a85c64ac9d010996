-- ===== src/Float.antt =====
-- float64 as the quota percentages need it. A finite float64 is an integer multiple of the smallest
-- positive one, 2 ^ -1074, so comparisons with whole percentages are exact on that integer.
use codex_daily_prewarm.Base.{pos, ℕ, ℤ, ◌*◌, ◌^◌}

pub data Float64 : Type 0 where
  nan : Float64
  inf : Float64
  neg_inf : Float64
  finite : ℤ → Float64

-- A finite float64, in units of 2 ^ -1074.
abbrev pub Percent : Type 0
Percent = ℤ

unfoldable pub float_unit : ℕ
float_unit = 2 ^ 1074

-- A whole number of percent.
abbrev pub percent : ℕ → Percent
percent k = pos (k * float_unit)
