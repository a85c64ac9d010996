-- ===== src/Tests/Daily.antt =====
-- The theorems on runs and on the history, at an example run.
use mathlib.Core.List.{Permᴰ}
use codex_daily_prewarm.Base.{
  String, false, insert, keep, lookup, refl, some, ◌*◌, ◌+◌, ◌≡◌, ◌≤◌, ◌⊎◌,
}
use codex_daily_prewarm.Clock.{hour}
use codex_daily_prewarm.Data.Account.{no_account}
use codex_daily_prewarm.Data.Run.{RunRecord}
use codex_daily_prewarm.Data.State.{Runtime, new_state, set_account}
use codex_daily_prewarm.Quota.Fetch.{fetch_usage}
use codex_daily_prewarm.Quota.Fetched.{IsAnswered, IsRefused, fetch_usage-IsRead}
use codex_daily_prewarm.Run.Clearance.{AreCalled}
use codex_daily_prewarm.Run.Cleared.{IsReachedResult, execute_run-AreCleared}
use codex_daily_prewarm.Run.Counted.{IsTallied}
use codex_daily_prewarm.Run.Finish.{
  append_run, audited, effective_request, execute_run, reset_spread, resets_of, spread_of,
  spread_over, started_run,
}
use codex_daily_prewarm.Run.Host.{Auth}
use codex_daily_prewarm.Run.Initial.{fetch_initial_usages_until, fetch_steps, started_fetches}
use codex_daily_prewarm.Run.Inventory.{eligible_codex_auths, is_eligible}
use codex_daily_prewarm.Run.Places.{
  AreAnswers, fetch_initial_usages_until-AreAnswers, fetching_count,
}
use codex_daily_prewarm.Run.Recorded.{IsRecorded, append_run-IsRecorded}
use codex_daily_prewarm.Run.Sorted.{AreSorted, eligible_codex_auths-AreSorted}
use codex_daily_prewarm.Run.Spread.{IsMeasured, reset_spread-IsMeasured}
use codex_daily_prewarm.Run.Verdict.{IsComplete, execute_run-IsTallied}
use codex_daily_prewarm.Tests.Samples.{fresh_runtime, noon, unused_window}
use codex_daily_prewarm.Tests.Surroundings.{
  live_config, manual_run, noon_world, sample_surroundings, two_auths, two_fetches, unused_host,
}

execute_run-AreCleared_example :
    let request' = effective_request manual_run in
    AreCalled
      (IsReachedResult sample_surroundings live_config request' two_fetches
        (started_run live_config request' (sample_surroundings.run_clock noon_world))
        (audited sample_surroundings noon_world))
      (execute_run sample_surroundings live_config manual_run two_fetches noon_world).1.results
execute_run-AreCleared_example =
    execute_run-AreCleared sample_surroundings live_config manual_run two_fetches noon_world

execute_run-IsTallied_example :
    let run = (execute_run sample_surroundings live_config manual_run two_fetches noon_world).1 in
    IsTallied run × ((run.success ≡ false) ⊎ IsComplete run)
execute_run-IsTallied_example =
    execute_run-IsTallied sample_surroundings live_config manual_run two_fetches noon_world

fetch_initial_usages_until-AreAnswers_example :
    (fetching_count
        (fetch_steps sample_surroundings two_fetches
          (started_fetches sample_surroundings two_auths noon_world)).workers
      ≤ 3)
    × AreAnswers sample_surroundings two_auths
        (fetch_initial_usages_until sample_surroundings two_fetches two_auths noon_world).0
fetch_initial_usages_until-AreAnswers_example =
    fetch_initial_usages_until-AreAnswers sample_surroundings two_fetches two_auths noon_world

fetch_usage-IsRead_example :
    (((fetch_usage unused_host "a" noon_world).1 ≡ "")
      × IsAnswered unused_host "a" noon_world (fetch_usage unused_host "a" noon_world).0)
    ⊎ IsRefused
        (fetch_usage unused_host "a" noon_world).0
        (fetch_usage unused_host "a" noon_world).1
fetch_usage-IsRead_example = fetch_usage-IsRead unused_host "a" noon_world

abbrev sample_run : RunRecord
sample_run = started_run live_config manual_run noon

append_run-IsRecorded_example :
    IsRecorded false sample_run fresh_runtime
      (append_run sample_run false fresh_runtime).0
      (append_run sample_run false fresh_runtime).1
append_run-IsRecorded_example = append_run-IsRecorded sample_run false fresh_runtime

eligible_codex_auths-AreSorted_example :
    AreSorted (eligible_codex_auths (λ s. s) two_auths)
    × Permᴰ (keep (is_eligible (λ s. s)) two_auths) (eligible_codex_auths (λ s. s) two_auths)
eligible_codex_auths-AreSorted_example = eligible_codex_auths-AreSorted (λ s. s) two_auths

-- Two accounts whose windows reset an hour and two hours after noon.
abbrev reset_runtime : Runtime
reset_runtime =
    set_account "a" (record no_account { five_hour_window = unused_window 300 (noon + hour) noon })
      (set_account "b"
        (record no_account { five_hour_window = unused_window 300 (noon + 2 * hour) noon })
        fresh_runtime)

abbrev named_by_id : Auth → String
named_by_id a = a.auth_id

an_hour_apart : reset_spread named_by_id two_auths noon reset_runtime ≡ (2, some 3600)
unfolding reset_spread spread_of spread_over insert lookup new_state
an_hour_apart = refl

reset_spread-IsMeasured_example :
    IsMeasured
      (resets_of named_by_id two_auths reset_runtime)
      noon
      (reset_spread named_by_id two_auths noon reset_runtime)
reset_spread-IsMeasured_example = reset_spread-IsMeasured named_by_id two_auths noon reset_runtime
