-- ===== src/Notify/Windows.antt =====
-- notifications.go: the digest windows, kept by their ends.
use codex_daily_prewarm.Base.{
  Bool, List, Option, [], if◌then◌else◌, keep, none, not, some, ◌==◌, ◌∷◌,
}
use codex_daily_prewarm.Clock.{Time, is_before, sub_days}
use codex_daily_prewarm.Config.Names.{is_some}
use codex_daily_prewarm.Data.Config.{PluginConfig}
use codex_daily_prewarm.Data.Notice.{DigestWindow, FailureNotice, NotificationState}

abbrev pub Windows : Type 0
Windows = List (Time × DigestWindow)

unfoldable pub window_at : Time → Windows → Option DigestWindow
window_at end [] = none
window_at end ((e, w) ∷ ws) = if e == end then some w else window_at end ws

unfoldable pub put_window : Time → DigestWindow → Windows → Windows
put_window end w [] = (end, w) ∷ []
put_window end w ((e, v) ∷ ws) = if e == end then (end, w) ∷ ws else (e, v) ∷ put_window end w ws

abbrev pub new_window : PluginConfig → Time → DigestWindow
new_window cfg end = record {
  window_start = sub_days cfg.location 1 end;
  window_end = end;
  runs = 0;
  window_succeeded = 0;
  window_failed = 0;
  digest_accounts = [];
  skips = [];
  failures = [];
  digest_attempts = 0;
  next_attempt_at = 0;
  digest_result = "";
}

-- `n.window(cfg, end)`: the window that ends there, made if there is none yet.
unfoldable pub window : PluginConfig → Time → NotificationState → DigestWindow
window cfg end n = elim (window_at end n.windows) [ none ↦ new_window cfg end | some w ↦ w ]

abbrev pub with_window : Time → DigestWindow → NotificationState → NotificationState
with_window end w n = record n { windows = put_window end w n.windows }

abbrev pub ends_before : Time → Time × DigestWindow → Bool
ends_before cutoff (key, w) = is_before w.window_end cutoff

abbrev pub has_window : Windows → FailureNotice → Bool
has_window ws notice = is_some (window_at notice.notice_window_end ws)

-- Old windows go, and with them the queued notices that belong to none.
unfoldable pub prune_windows_before : Time → NotificationState → NotificationState
prune_windows_before cutoff n =
    let kept = keep (λ p. not (ends_before cutoff p)) n.windows in
    record n { windows = kept; pending_notices = keep (has_window kept) n.pending_notices }
