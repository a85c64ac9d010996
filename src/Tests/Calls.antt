-- ===== src/Tests/Calls.antt =====
-- The model calls at a concrete host.
use codex_daily_prewarm.Base.{[], false, ◌∷◌, ◌≤◌}
use codex_daily_prewarm.Model.Attempts.{execute_account_bounded, most_attempts}
use codex_daily_prewarm.Model.Discipline.{Agrees, execute_account-Agrees}
use codex_daily_prewarm.Model.Execute.{execute_account_with_guard}
use codex_daily_prewarm.Model.Logged.{logged}
use codex_daily_prewarm.Notify.Added.{HasAdded}
use codex_daily_prewarm.Notify.Alerts.{HasDistinctAlerts, note_items-HasDistinctAlerts}
use codex_daily_prewarm.Notify.Record.{note_items}
use codex_daily_prewarm.Tests.Samples.{
  failed_result, no_notings, noon, sample_config, sample_job, silent_host,
}

execute_account-Agrees_example :
    let p =
      execute_account_with_guard (logged silent_host) sample_config sample_job "a" "plus" (0, []) in
    Agrees p.0 p.1.1
execute_account-Agrees_example =
    execute_account-Agrees silent_host sample_config sample_job "a" "plus" 0

execute_account_bounded_example :
    (execute_account_with_guard silent_host sample_config sample_job "a" "plus" 0).0.attempts
    ≤ most_attempts sample_config.retry_count
execute_account_bounded_example =
    execute_account_bounded silent_host sample_config sample_job "a" "plus" 0

no_notings-HasDistinctAlerts : HasDistinctAlerts no_notings
no_notings-HasDistinctAlerts = record { known = tt; distinct_alerts = tt }

note_items-HasDistinctAlerts_example :
    let s =
      note_items
        (λ n. "")
        sample_config
        noon
        false
        (failed_result ∷ failed_result ∷ [])
        no_notings in
    HasAdded no_notings s × HasDistinctAlerts s
note_items-HasDistinctAlerts_example =
    note_items-HasDistinctAlerts (λ n. "") sample_config noon false
      (failed_result ∷ failed_result ∷ []) no_notings no_notings-HasDistinctAlerts
