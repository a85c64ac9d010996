-- ===== src/Clock/Zone.antt =====
-- A `*time.Location` is the offset of its zone from UTC at each instant (the zone database is data,
-- not code). The wall clock of an instant is counted in nanoseconds from midnight of 1 January of
-- year 1, so that its day, hour and minute are quotients and remainders.
use codex_daily_prewarm.Base.{pos, pos_part, sub_ℕ, ℕ, ℤ, ◌%◌, ◌*◌, ◌+ℤ◌, ◌+◌, ◌-ℤ◌, ◌/◌}
use codex_daily_prewarm.Clock.Units.{Time, day, hour}

pub record Location : Type 0 where
  pub offset : Time → ℤ

-- `t.In(location)`: the wall clock.
unfoldable pub local : Location → Time → ℕ
local loc t = pos_part (pos t +ℤ loc.offset t)

-- `time.Date(…, location)`: the offset is looked up at the wall clock read as UTC, then at the
-- instant that this gives.
unfoldable pub from_local : Location → ℕ → Time
from_local loc w =
    let guess = pos_part (pos w -ℤ loc.offset w) in pos_part (pos w -ℤ loc.offset guess)

unfoldable pub local_hour : Location → Time → ℕ
local_hour loc t = local loc t % day / hour

unfoldable pub local_day : Location → Time → ℕ
local_day loc t = local loc t / day

-- `t.In(location).AddDate(0, 0, n)`.
unfoldable pub add_days : Location → ℕ → Time → Time
add_days loc n t = from_local loc (local loc t + n * day)

-- `t.In(location).AddDate(0, 0, -n)`.
unfoldable pub sub_days : Location → ℕ → Time → Time
sub_days loc n t = from_local loc (pos_part (sub_ℕ (local loc t) (n * day)))
