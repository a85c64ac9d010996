-- ===== src/Clock.antt =====
-- Go's `time` as the plugin uses it. A `Time` is the number of nanoseconds since Go's zero time
-- (1 January of year 1, UTC), so `IsZero` is a test for 0; a time before that is not represented.
-- A `Duration` is a signed number of nanoseconds. The saturation of Go's `Sub` at 292 years is not
-- modelled: every duration here is compared with bounds of at most 45 days.
mod Units
mod Zone
pub use Units.*
unfoldable pub use Zone.*
