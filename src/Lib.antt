-- ===== src/Lib.antt =====
-- codex-daily-prewarm, a plugin that keeps the five-hour windows of Codex accounts open by one short
-- model request per account, queries their quotas, follows up resets, and reports by Bark.
--
-- The parts of the program and the modules that model them:
-- - Clock, Text, Float: what the code uses of Go's `time`, `strings` and float64. A `Time` counts
--   nanoseconds since Go's zero time, so that 0 is the zero time; a `Location` is its offset from UTC
--   at each instant; `Duration` is an integer without the bound of 64 bits, which no value of the
--   program comes near. A subtraction of a constant from a time stops at the zero time.
-- - Data: the records of runtime.go, config.go, scheduler.go and notifications.go. Go's maps with
--   string keys are association lists, with the zero value for a missing key.
-- - Quota (quota.go, quota_fetch.go, idle_confirmation.go): windows from headers and from the usage
--   body, `fetchUsage` over the record UsageHost of its two host calls, `confirmedIdle`,
--   `confirmIdleAfterSpacing`. The callbacks of the latter are the record Callbacks over a world that
--   each of them may change.
-- - Account (runtime.go, scheduler.go): `recentAttempts`, `warmLimitReason`, `reserveAttempt`,
--   `saveQuota`, `saveQuotaFailure`, `recordAccountResult`, `updateFollowupPlan`,
--   `scheduleQuotaRetry`, `clearQuotaRetry`. Account/Events has them as events in any order.
-- - Model (runtime.go): `executeAccountWithGuard` and the reading of its answers, over a record Host
--   of what the surroundings do (stop signal, reservation, host call, wait, clock). Model/Logged
--   wraps a host so that it writes down each reservation and call. The loops recurse on the number of
--   rounds, the retry count plus one, and on the list of models.
-- - Config (config.go): `defaultPluginConfig` and `parsePluginConfig` over decoded YAML; the parsers
--   of cron texts, zones, durations and URLs are the record Env.
-- - Notify (notifications.go): digest windows, alerts and their deduplication, quiet hours, delivery
--   with its writes before and after. Writes and deliveries are answered by arguments.
-- - Lifecycle (runtime.go): `startRunJob`, `startNamedRun`, `runQueue`, `quiesce` under the lock, and
--   `requeueInterrupted`. A run is an event; what it does is in the other parts.
-- - Scheduler (scheduler.go): `latestCronSlot`, `planSlot`, `processDue` with its claims, its failed
--   write and its starts, and `bootstrap`. The fuel of `latestCronSlot` is the number of nanoseconds
--   in its 25 hours, and the loop of `planSlot` has the source's own bound of 64.
-- - Run (runtime.go, initial_quota.go): `executeRun` with its deferred function. Run/Host has the
--   surroundings, RunHost over a World: the runtime together with everything else. Every action of
--   the surroundings may change both, since other goroutines use the runtime during a run, and each
--   operation of the program is a change of the runtime between such actions. Run/Inventory chooses
--   the accounts, Run/Initial has the goroutines of `fetchInitialUsagesUntil` as a list of events in
--   any order (those that have not ended by then end in `Wait`), Run/Check is what is looked at before
--   a call, Run/Account the call and its result, Run/Loop the loop, Run/Finish the rest with
--   `resetSpread` and `appendRun`. The loops recurse on the lists of accounts.
-- - StateFile (runtime.go): `readState` over a file that is missing, unreadable or a text with what it
--   decodes to, and its migration of old histories; `writeState` as the sequence of its calls of the
--   file system, each of which may fail, over a disk that tells a synced text from one that is not.
-- - Reload (runtime.go): `configure`, `quiesce` as a whole and `shutdown`, over the record ReloadHost
--   of the cron library, the files and the wait for other goroutines.
-- - Display (account_display.go): `safeDisplayName`, `loadAccountDisplayDetails`, and the preference of
--   the displays with its cache, in memory and in the state file. The loop of `safeDisplayName` has the
--   number of characters as its fuel, since each round drops one.
-- - Management (management.go): `dispatchManagement` over decoded bodies.
-- - Bark (bark.go): `barkPushTarget` and `sendBarkWith`; what a URL parses to is an argument.
--
-- How they interact: `processDue` first settles the notices, then claims slots and follow-ups, writes
-- the claims, and starts requests on the queue; `executeRun` asks `confirmIdleAfterSpacing` for each
-- account and calls `executeAccountWithGuard` with `reserveAttempt` as its guard;
-- `recordAccountResult` and `saveQuota` feed `updateFollowupPlan`, which plans what the next ticks
-- claim; `recordNotifications` enters the record of the run in the digest window; `configure` quiesces
-- the old runs, which puts their claims back, reads the state file and starts the scheduler anew.
--
-- The mutexes leave no trace: each function is one critical section, or a sequence of them with
-- nothing in between. In Run and Reload the rest of the program may act wherever the source queries,
-- waits, calls a model or writes. Whether a write to the state file succeeds is an argument of each
-- operation, or an answer of the surroundings.
--
-- Not modelled: what only reads, encodes or sends, which is main.go, audit.go, the pages of
-- management.go, the status and history views of runtime.go, and the texts of the messages with the
-- names in them; and the identifiers and dates in the record of a run. `skipReason`, `completedToday`
-- and `markCompleted` of runtime.go are used by tests alone.
mod Base
pub mod Clock
pub mod Float
pub mod Text
pub mod Quota
pub mod Data
pub mod Account
pub mod Model
pub mod Config
pub mod Notify
pub mod Lifecycle
pub mod Scheduler
pub mod Run
pub mod StateFile
pub mod Reload
pub mod Display
pub mod Management
pub mod Bark
mod Tests
