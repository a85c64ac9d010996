-- ===== src/Reload/Kept.antt =====
-- runtime.go: what a reload does to the runtime and to what is remembered of the accounts.
use codex_daily_prewarm.Base.{
  Bool, [], arith, both-true, false, if-both, if-split, inl, inr, not, refl, some, str_eq, true,
  ◌&&◌, ◌≡◌, ◌≢◌, ◌⊎◌,
}
use codex_daily_prewarm.Data.Config.{PluginConfig}
use codex_daily_prewarm.Data.State.{RuntimeState, new_state}
use codex_daily_prewarm.Lifecycle.Queue.{close_gate, requeue_all}
use codex_daily_prewarm.Reload.Configure.{
  Configured, ReloadHost, all_added, config_loaded, configure, configure_with, had_state,
  has_producers, install, is_bad_target, is_readable, job_refused, load_read, loaded_runtime,
  plugin_shut_down, quiesce, read_at, start_producers, state_refused,
}
use codex_daily_prewarm.Reload.Planned.{IsInForce, bootstrap-IsInForce}
use codex_daily_prewarm.Run.Host.{World, on_runtime}
use codex_daily_prewarm.Scheduler.Slots.{scheduled_jobs}
use codex_daily_prewarm.StateFile.Read.{ReadState, missing_state, read_as, refused_state}

-- Why a state is refused: its file cannot be read, or there is none although there is a state to lose.
abbrev pub IsBad : Bool → ReadState → Type 0
IsBad had read = (read ≡ refused_state) ⊎ ((read ≡ missing_state) × (had ≡ true))

is_bad_target-IsBad :
    (had : Bool) (read : ReadState) → is_bad_target had read ≡ true → IsBad had read
is_bad_target-IsBad had missing_state e = inr (refl, e)
is_bad_target-IsBad had refused_state e = inl refl
is_bad_target-IsBad had (read_as s) e = cc e

module _ {W : Type 0} (h : ReloadHost W) where
  -- The gate has been closed, with the state as it was; then came the drain, and last the requests
  -- that had been waiting were put back.
  pub record IsQuiesced (w q : World W) : Type 0 where
    pub drained : World W
    pub gate_closed_first : drained.0.closed ≡ true
    pub stopped_first : drained.0.stopped ≡ true
    pub none_waiting : drained.0.pending ≡ []
    pub not_scheduled : drained.0.scheduled ≡ false
    pub state_kept : drained.0.state ≡ w.0.state
    pub outside_kept : drained.1 ≡ w.1
    pub handed_on :
        q
        ≡ on_runtime
            (requeue_all w.0.pending (h.requeue_writes (h.drain drained)))
            (h.drain drained)

  quiesce-IsQuiesced : (w : World W) → IsQuiesced w (quiesce h w)
  unfolding quiesce close_gate
  quiesce-IsQuiesced w = record {
    drained = ((close_gate w.0).1, w.1);
    gate_closed_first = refl;
    stopped_first = refl;
    none_waiting = refl;
    not_scheduled = refl;
    state_kept = refl;
    outside_kept = refl;
    handed_on = refl;
  }

  -- The new configuration is in force, with a state that comes from its file, or with the empty one
  -- where there is neither a file nor anything to lose; the only error is a schedule that is refused.
  pub record IsLoaded (new_cfg : PluginConfig) (q : World W) (p : Configured × World W)
      : Type 0 where
    pub its_state : RuntimeState
    pub its_source :
        (read_at h new_cfg.state_path q ≡ read_as its_state)
        ⊎ ((read_at h new_cfg.state_path q ≡ missing_state)
            × (had_state q.0 ≡ false)
            × (its_state ≡ new_state))
    pub its_outcome :
        (p.0 ≡ config_loaded)
        ⊎ ((p.0 ≡ job_refused) × (all_added h.adds_job (scheduled_jobs new_cfg) ≡ false))
    pub now_in_force : IsInForce new_cfg its_state p.1.0
    pub whole_state : (has_producers new_cfg ≡ true) ⊎ (p.1.0.state ≡ its_state)
    pub outside : p.1.1 ≡ q.1

  -- An error that leaves the world as it was, an error behind the closed gate, or a new state.
  pub data IsReload (new_cfg : PluginConfig) (w : World W) (p : Configured × World W) : Type 0 where
    untouched :
        p.1 ≡ w
        → p.0 ≢ config_loaded
        → (w.0.terminal ≡ true) ⊎ IsBad (had_state w.0) (read_at h new_cfg.state_path w)
        → IsReload new_cfg w p
    gate_closed :
        IsQuiesced w p.1
        → p.0 ≢ config_loaded
        → IsBad (had_state w.0) (read_at h new_cfg.state_path w)
          ⊎ IsBad (had_state p.1.0) (read_at h new_cfg.state_path p.1)
        → IsReload new_cfg w p
    reloaded :
        (q : World W)
        → w.0.terminal ≡ false
        → IsQuiesced w q
        → IsLoaded new_cfg q p
        → IsReload new_cfg w p

  start_producers-IsLoaded :
      (new_cfg : PluginConfig) (s : RuntimeState) (q : World W)
      → (read_at h new_cfg.state_path q ≡ read_as s)
        ⊎ ((read_at h new_cfg.state_path q ≡ missing_state)
            × (had_state q.0 ≡ false)
            × (s ≡ new_state))
      → IsLoaded new_cfg q (install h new_cfg s q)
  unfolding start_producers
  start_producers-IsLoaded new_cfg s q source =
      let w = on_runtime (loaded_runtime new_cfg s (h.read_file new_cfg.state_path q)) q in
      let fresh : IsInForce new_cfg s w.0 = record {
        in_force = refl;
        gate_open = refl;
        goes_on = refl;
        remembered = (refl, refl, refl, refl);
      } in
      let marked : IsInForce new_cfg s (record (w.0) { scheduled = true }) = record {
        in_force = refl;
        gate_open = refl;
        goes_on = refl;
        remembered = (refl, refl, refl, refl);
      } in
      if-split (IsLoaded new_cfg q) (not (has_producers new_cfg)) (config_loaded, w) _
        (λ _. record {
          its_state = s;
          its_source = source;
          its_outcome = inl refl;
          now_in_force = fresh;
          whole_state = inr refl;
          outside = refl;
        })
        (λ busy.
          if-split (IsLoaded new_cfg q) (all_added h.adds_job (scheduled_jobs new_cfg)) _
            (job_refused, w)
            (λ _. record {
              its_state = s;
              its_source = source;
              its_outcome = inl refl;
              now_in_force =
                  bootstrap-IsInForce new_cfg s (h.first_tick w) (h.reload_clock w)
                    (record (w.0) { scheduled = true }) marked;
              whole_state = inl (ground (arith, busy));
              outside = refl;
            })
            (λ none_added. record {
              its_state = s;
              its_source = source;
              its_outcome = inr (refl, none_added);
              now_in_force = fresh;
              whole_state = inr refl;
              outside = refl;
            }))

  load_read-IsReload :
      (new_cfg : PluginConfig) (s : ReadState) (w : World W)
      → w.0.terminal ≡ false
      → read_at h new_cfg.state_path (quiesce h w) ≡ s
      → IsReload new_cfg w (load_read h new_cfg s (quiesce h w))
  unfolding load_read
  load_read-IsReload new_cfg missing_state w on e =
      if-split (IsReload new_cfg w) (had_state (quiesce h w).0) _ _
        (λ had. gate_closed (quiesce-IsQuiesced w) (λ same. cc) (inr (inr (e, had))))
        (λ fresh.
          reloaded (quiesce h w) on (quiesce-IsQuiesced w)
            (start_producers-IsLoaded new_cfg new_state (quiesce h w) (inr (e, fresh, refl))))
  load_read-IsReload new_cfg refused_state w on e =
      gate_closed (quiesce-IsQuiesced w) (λ same. cc) (inr (inl e))
  load_read-IsReload new_cfg (read_as s) w on e =
      reloaded (quiesce h w) on (quiesce-IsQuiesced w)
        (start_producers-IsLoaded new_cfg s (quiesce h w) (inl e))

  configure_with-IsReload :
      (new_cfg : PluginConfig) (w : World W)
      → w.0.terminal ≡ false
      → IsReload new_cfg w (configure_with h new_cfg w)
  unfolding configure_with
  configure_with-IsReload new_cfg w on =
      let read = read_at h new_cfg.state_path w in
      if-split (IsReload new_cfg w)
        (not (str_eq new_cfg.state_path w.0.cfg.state_path) && is_bad_target (had_state w.0) read) _
        _
        (λ e.
          let why =
            is_bad_target-IsBad (had_state w.0) read
              (both-true (not (str_eq new_cfg.state_path w.0.cfg.state_path)) _ e).1 in
          if-both (IsReload new_cfg w) (is_readable (read_at h w.0.cfg.state_path w))
            (state_refused, w) (state_refused, quiesce h w) (untouched refl (λ same. cc) (inr why))
            (gate_closed (quiesce-IsQuiesced w) (λ same. cc) (inl why)))
        (λ _. load_read-IsReload new_cfg _ w on refl)

  -- Whatever the files hold and whatever the runs under way still do, `configure` of a configuration
  -- that parses ends in one of three ways. With an error and everything as it was, since the plugin
  -- has been shut down or the new state file is bad: it cannot be read, or it is missing although
  -- there is a state to lose. Or with an error behind the gate, which was closed with the state as it
  -- was before the runs drained, since the file is bad, before that or after it. Or, after the gate
  -- was closed and the runs have drained, with the new configuration in force, the gate open again,
  -- and the accounts, runs, days and notices of the state that its file holds then, or of the empty
  -- state if there is neither a file nor anything to lose; the only error is a refused schedule. That
  -- state is in force as a whole if there are neither automatic runs nor a quota refresh nor Bark.
  pub configure-IsReload :
      (new_cfg : PluginConfig) (w : World W) → IsReload new_cfg w (configure h (some new_cfg) w)
  unfolding configure
  configure-IsReload new_cfg w =
      if-split (IsReload new_cfg w) w.0.terminal (plugin_shut_down, w) _
        (λ shut. untouched refl (λ same. cc) (inl shut)) (configure_with-IsReload new_cfg w)
