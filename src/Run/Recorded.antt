-- ===== src/Run/Recorded.antt =====
-- runtime.go: `appendRun`, which puts the record of a run into the history.
use codex_daily_prewarm.Base.{
  Bool, false, inl, inr, length, length-take-le, refl, some, take, true, ◌+◌, ◌∷◌, ◌≡◌, ◌≤◌, ◌⊎◌,
}
use codex_daily_prewarm.Data.Run.{RunRecord}
use codex_daily_prewarm.Data.State.{Runtime, persist_state}
use codex_daily_prewarm.Run.Finish.{append_run, max_history_items, unsaved_run}

-- After `appendRun` with the state `r`, which has left `run'` and `r'`.
pub record IsRecorded (written : Bool) (run : RunRecord) (r : Runtime) (run' : RunRecord)
    (r' : Runtime) : Type 0 where
  pub newest_first : r'.state.history ≡ run' ∷ take 29 r.state.history
  pub bounded : length r'.state.history ≤ max_history_items
  pub same_results : run'.results ≡ run.results
  pub on_disk :
      ((written ≡ true)
        × (run' ≡ run)
        × (r'.disk ≡ some r'.state)
        × (r'.state_write_failures ≡ r.state_write_failures))
      ⊎ ((written ≡ false)
          × (run'.success ≡ false)
          × (run'.run_error_code ≡ "state_write_failed")
          × (r'.disk ≡ r.disk)
          × (r'.last_error ≡ "state_write_failed")
          × (r'.state_write_failures ≡ r.state_write_failures + 1))

-- `appendRun` puts the record before the newest twenty-nine of the history, which stays within thirty
-- records. Either the state with it is in the file, or the write is counted as failed, the file is as
-- before, and the record that is returned and kept says that it is not a success.
pub append_run-IsRecorded :
    (run : RunRecord) (written : Bool) (r : Runtime)
    → IsRecorded written run r (append_run run written r).0 (append_run run written r).1
unfolding append_run persist_state
append_run-IsRecorded run true r = record {
  newest_first = refl;
  bounded = length-take-le 30 (run ∷ r.state.history);
  same_results = refl;
  on_disk = inl (refl, refl, refl, refl);
}
append_run-IsRecorded run false r = record {
  newest_first = refl;
  bounded = length-take-le 30 (unsaved_run run ∷ r.state.history);
  same_results = refl;
  on_disk = inr (refl, refl, refl, refl, refl, refl);
}
