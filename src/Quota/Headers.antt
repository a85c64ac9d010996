-- ===== src/Quota/Headers.antt =====
-- quota.go: the quota headers of a model response. The headers come read: what `strconv.Atoi`,
-- `ParseFloat`, `ParseInt` and `time.Parse` make of the bounded header, `none` where they fail, as
-- they do on an empty header.
use codex_daily_prewarm.Base.{
  Option, if◌then◌else◌, leb_ℤ, ltb_ℤ, negsuc, none, pos, pos_part, some, ℕ, ℤ, ◌&&◌, ◌*◌, ◌+◌,
  ◌==◌, ◌>>=◌, ◌||◌,
}
use codex_daily_prewarm.Clock.{Time, is_zero, of_unix, second}
use codex_daily_prewarm.Float.{Float64, Percent, finite, percent}
use codex_daily_prewarm.Quota.{QuotaWindow, five_hour_minutes, no_window, weekly_minutes}

pub record ResetFields : Type 0 where
  pub reset_unix : Option ℤ
  pub reset_rfc3339 : Option Time
  pub after_seconds : Option ℤ

pub record HeaderFields : Type 0 where
  pub header_minutes : Option ℤ
  pub header_used : Option Float64
  pub header_reset : ResetFields

abbrev pub to_duration : ℤ → ℕ
to_duration s = pos_part s * second

-- A number of seconds from `low` to `high`, added to now; else the zero time.
abbrev pub reset_after : Option ℤ → ℤ → ℤ → Time → Time
reset_after none low high now = 0
reset_after (some s) low high now = if leb_ℤ low s && leb_ℤ s high then now + to_duration s else 0

abbrev pub reset_parsed : Option Time → Time → Time
reset_parsed none otherwise = otherwise
reset_parsed (some t) otherwise = t

abbrev pub reset_from_unix : Option ℤ → Time → Time
reset_from_unix none otherwise = otherwise
reset_from_unix (some s) otherwise = if ltb_ℤ (pos 0) s then of_unix s else otherwise

unfoldable pub quota_reset_at : ResetFields → Time → Time
quota_reset_at f now = reset_from_unix f.reset_unix (
    reset_parsed f.reset_rfc3339 (reset_after f.after_seconds (pos 0) (pos (8 * 24 * 60 * 60)) now))

-- runtime.go: the same for the primary window, with other bounds on the seconds.
unfoldable pub primary_reset : ResetFields → Time → Time
primary_reset f now = reset_from_unix f.reset_unix (
    reset_parsed f.reset_rfc3339 (reset_after f.after_seconds (pos 1) (pos (7 * 24 * 60 * 60)) now))

abbrev pub window_length : ℤ → Option ℕ
window_length (negsuc n) = none
window_length (pos n) = if n == five_hour_minutes || n == weekly_minutes then some n else none

abbrev pub percent_in_range : Float64 → Option Percent
percent_in_range (finite used) =
    if ltb_ℤ used (pos 0) || ltb_ℤ (percent 100) used then none else some used
percent_in_range _ = none

abbrev pub known_time : Time → Option Time
known_time t = if is_zero t then none else some t

unfoldable pub parse_quota_window : HeaderFields → Time → Option QuotaWindow
unfolding quota_reset_at
parse_quota_window h now = do
  m ← h.header_minutes
  minutes ← window_length m
  u ← h.header_used
  used ← percent_in_range u
  at ← known_time (quota_reset_at h.header_reset now)
  some (record { window_minutes = minutes; used_percent = used; reset_at = at; observed_at = now })

-- The length of the window, not the label, says which limit it is; a later header wins.
abbrev pub place_window : QuotaWindow × QuotaWindow → Option QuotaWindow → QuotaWindow × QuotaWindow
place_window (five, week) none = (five, week)
place_window (five, week) (some w) =
    if w.window_minutes == five_hour_minutes
    then (w, week)
    else if w.window_minutes == weekly_minutes
    then (five, w)
    else (five, week)

-- The primary headers, then the secondary ones: (five-hour, weekly).
unfoldable pub parse_quota_windows : HeaderFields → HeaderFields → Time → QuotaWindow × QuotaWindow
parse_quota_windows primary secondary now =
    place_window (place_window (no_window, no_window) (parse_quota_window primary now))
      (parse_quota_window secondary now)
