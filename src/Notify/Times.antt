-- ===== src/Notify/Times.antt =====
-- notifications.go: `localTimeOn`, `digestEnd`, `quietUntil`.
use codex_daily_prewarm.Base.{String, if◌then◌else◌, not, ℕ, ◌&&◌, ◌*◌, ◌+◌}
use codex_daily_prewarm.Clock.{
  Location, Time, add_days, day, from_local, is_before, local_day, minute,
}
use codex_daily_prewarm.Config.Names.{parse_clock}
use codex_daily_prewarm.Config.Parse.{given}
use codex_daily_prewarm.Data.Config.{PluginConfig}

-- The minute of the day; a text that does not parse is midnight, as in the source.
abbrev pub clock_minutes : String → ℕ
clock_minutes text = given (parse_clock text) 0

-- The clock time on the local day of `at`.
unfoldable pub local_time_on : Time → String → Location → Time
local_time_on at clock location =
    from_local location (local_day location at * day + clock_minutes clock * minute)

unfoldable pub digest_end : PluginConfig → Time → Time
digest_end cfg at =
    let end = local_time_on at cfg.digest_time cfg.location in
    if not (is_before at end) then add_days cfg.location 1 end else end

-- The end of the quiet hours that `at` lies in, else the zero time.
unfoldable pub quiet_until : PluginConfig → Time → Time
quiet_until cfg at =
    let start = local_time_on at cfg.quiet_start cfg.location in
    let end = local_time_on at cfg.quiet_end cfg.location in
    if is_before end start
    then if is_before at end
      then end
      else if not (is_before at start)
      then add_days cfg.location 1 end
      else 0
    else if not (is_before at start) && is_before at end
    then end
    else 0
