-- ===== src/Tests/Files.antt =====
-- The theorems on the state file, the reload and the turns of the queue, at concrete inputs.
use codex_daily_prewarm.Base.{
  Bool, [], arith, false, insert, length, lookup, none, pos, refl, some, true, ℕ, ◌+◌, ◌-◌, ◌∷◌,
  ◌≡◌, ◌≤◌,
}
use codex_daily_prewarm.Clock.{day, hour}
use codex_daily_prewarm.Data.Run.{AccountResult, RunRecord}
use codex_daily_prewarm.Data.State.{Runtime, RuntimeState, new_state}
use codex_daily_prewarm.Lifecycle.Order.{after_events, finishes, starts}
use codex_daily_prewarm.Lifecycle.Served.{IsWaiting, after_events-IsRunning}
use codex_daily_prewarm.Reload.Configure.{ReloadHost, configure}
use codex_daily_prewarm.Reload.Kept.{IsReload, configure-IsReload}
use codex_daily_prewarm.Run.Finish.{max_history_items, started_run}
use codex_daily_prewarm.StateFile.Atomic.{IsAtomic, write_state-IsAtomic}
use codex_daily_prewarm.StateFile.Migrated.{read_state-written_state}
use codex_daily_prewarm.StateFile.Read.{
  StateFile, file_text, import_result, import_results, import_runs, migrated, read_as, read_state,
  window_of,
}
use codex_daily_prewarm.StateFile.Write.{
  Disk, FileCall, rename_temp, synced, write_state, written_state,
}
use codex_daily_prewarm.Tests.Samples.{failed_result, fresh_runtime, noon, timed}
use codex_daily_prewarm.Tests.Surroundings.{live_config, manual_run, noon_world, sample_answers}

-- A run of an older version, with one attempt for one account an hour ago.
abbrev old_result : AccountResult
old_result = record failed_result {
  attempts = 1;
  finished_at = noon - hour;
  response_received = true;
}

abbrev old_run : RunRecord
old_run = record (started_run live_config manual_run noon) { results = old_result ∷ [] }

abbrev old_state : RuntimeState
old_state = record new_state { history = old_run ∷ [] }

abbrev old_file : StateFile
old_file = file_text 900 (some (record { version = pos 1; stated = old_state }))

old_file_read : read_state old_file noon ≡ read_as (migrated noon old_state)
unfolding read_state
old_file_read = refl

attempt_imported :
    (window_of (migrated noon old_state).accounts "a").attempt_times ≡ (noon - hour) ∷ []
unfolding migrated new_state import_runs import_results import_result insert lookup
attempt_imported = refl

read_state-written_state_example :
    (length (migrated noon old_state).history ≤ max_history_items)
    × (read_state (file_text 1200 (some (written_state (migrated noon old_state)))) (noon + day)
        ≡ read_as (migrated noon old_state))
read_state-written_state_example =
    read_state-written_state old_file noon (noon + day) 1200 (migrated noon old_state) old_file_read
      (omega arith) (omega arith)

-- Every call succeeds but the last but one.
abbrev no_rename : FileCall → Bool
no_rename rename_temp = false
no_rename other = true

abbrev old_disk : Disk
old_disk = record {
  at_path = some (synced (record { version = pos 1; stated = old_state }));
  temporary = none;
}

write_state-IsAtomic_example :
    IsAtomic
      (written_state new_state)
      no_rename
      old_disk.at_path
      (write_state new_state true no_rename old_disk)
write_state-IsAtomic_example = write_state-IsAtomic new_state true no_rename old_disk

-- The old file lies at the path of the state.
abbrev reload_host : ReloadHost ℕ
reload_host = record {
  read_file = λ path w. old_file;
  reload_clock = λ w. w.1;
  drain = λ w. w;
  requeue_writes = λ w n. true;
  adds_job = λ job. true;
  first_tick = λ w. record {
    quiet_answers = sample_answers;
    digest_answers = sample_answers;
    claim_written = true;
    requeue_written = λ n. true;
    plan_written = λ n. true;
    random = λ n. 20;
    stamp = λ t. "";
  };
}

configure-IsReload_example :
    IsReload reload_host live_config noon_world
      (configure reload_host (some live_config) noon_world)
configure-IsReload_example = configure-IsReload reload_host live_config noon_world

abbrev three_running : Runtime
three_running = record fresh_runtime {
  running = true;
  current_request = some (timed "a");
  pending = timed "b" ∷ timed "c" ∷ [];
}

c-IsWaiting : IsWaiting three_running (timed "b" ∷ []) (timed "c")
c-IsWaiting = record { open_gate = refl; under_way = refl; behind_it = []; in_line = refl }

after_events-IsRunning_example :
    (after_events three_running
      (finishes "" ∷ starts (timed "d") ∷ finishes "interrupted" ∷ [])).current_request
    ≡ some (timed "c")
after_events-IsRunning_example =
    after_events-IsRunning (finishes "" ∷ starts (timed "d") ∷ finishes "interrupted" ∷ [])
      three_running (timed "b" ∷ []) (timed "c") (refl, (refl, (refl, tt))) c-IsWaiting
      (omega arith)
