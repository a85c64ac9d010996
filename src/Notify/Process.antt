-- ===== src/Notify/Process.antt =====
-- notifications.go: `processNotifications` and `finishDigestLocked`, and the end of
-- `recordNotifications`. The outcome of each write to disk and of each delivery is an argument; a
-- message that is handed to Bark is listed. The texts of the messages are not modelled.
use codex_daily_prewarm.Base.{
  Bool, List, String, [], false, if◌then◌else◌, keep, leb, length, ltb, none, not, some, str_append,
  str_eq, true, ℕ, ◌&&◌, ◌*◌, ◌++◌, ◌+◌, ◌==◌, ◌||◌, ◌∷◌,
}
use codex_daily_prewarm.Clock.{Time, add_days, is_after, is_before, is_zero, minute}
use codex_daily_prewarm.Data.Config.{PluginConfig}
use codex_daily_prewarm.Data.Notice.{DigestWindow, FailureNotice, NotificationState}
use codex_daily_prewarm.Data.Run.{RunRecord}
use codex_daily_prewarm.Data.State.{Runtime, persist_state, set_last_error}
use codex_daily_prewarm.Notify.Record.{failure_key, note_run, with_failure}
use codex_daily_prewarm.Notify.Times.{digest_end, local_time_on, quiet_until}
use codex_daily_prewarm.Notify.Windows.{prune_windows_before, window, window_at, with_window}

pub data Message : Type 0 where
  failure_message : List FailureNotice → Message
  quiet_message : List FailureNotice → Message
  digest_message : DigestWindow → Message
  manual_message : RunRecord → Message

-- What the file system and Bark answer: the writes before and after a delivery, and the result.
pub record Answers : Type 0 where
  pub written_first : Bool
  pub written_before : Bool
  pub written_after : Bool
  pub delivered : String

abbrev pub digest_retry_interval : ℕ
digest_retry_interval = 5 * minute

abbrev pub on_notifications : (NotificationState → NotificationState) → Runtime → Runtime
on_notifications f r = record r {
  state = record (r.state) { notifications = f r.state.notifications };
}

-- `persistNotificationResult`.
unfoldable pub persist_result : Bool → Runtime → Runtime
persist_result written r =
    let r' = persist_state written r in
    if written then r' else set_last_error "notification_state_write_failed" r'

-- `TrimPrefix(result, "abandoned_")` for the results that the source can hold here.
abbrev pub abandoned : String → String
abandoned result =
    if str_eq result "abandoned_uncertain_delivery" then result else str_append "abandoned_" result

abbrev pub is_delivered : String → Bool
is_delivered result = str_eq result "accepted" || str_eq result "not_configured"

unfoldable pub finish_digest :
    PluginConfig → DigestWindow → Time → NotificationState → NotificationState
finish_digest cfg w now n =
    let tomorrow = add_days cfg.location 1 w.window_end in
    let planned = local_time_on tomorrow cfg.digest_time cfg.location in
    let next = if not (is_after planned now) then digest_end cfg now else planned in
    prune_windows_before next (record n {
      last_digest_end = w.window_end;
      last_digest_attempts = w.digest_attempts;
      last_digest_result =
          if is_delivered w.digest_result then w.digest_result else abandoned w.digest_result;
      next_digest_at = next;
    })

-- A quiet-hours message whose delivery a crash left open is given up.
unfoldable pub settle_quiet : Bool → Runtime → Runtime
settle_quiet written r =
    if str_eq r.state.notifications.last_quiet_result "sending"
    then persist_result written
        (on_notifications (λ n. record n { last_quiet_result = "abandoned_uncertain_delivery" }) r)
    else r

unfoldable pub plan_first_digest : PluginConfig → Time → Bool → Runtime → Runtime
plan_first_digest cfg now written r =
    if is_zero r.state.notifications.next_digest_at
    then persist_result written
        (on_notifications (λ n. record n { next_digest_at = digest_end cfg now }) r)
    else r

abbrev pub is_quiet_due : PluginConfig → Time → FailureNotice → Bool
is_quiet_due cfg now notice =
    not (is_after notice.notice_due_at now) && is_zero (quiet_until cfg now)

-- The outcome of the delivery is noted in the windows of the notices that still have one.
unfoldable pub settle_notices : String → List FailureNotice → NotificationState → NotificationState
settle_notices result [] n = n
settle_notices result (notice ∷ notices) n =
    let key = failure_key notice.notice_account notice.category in
    let n' : NotificationState = elim (window_at notice.notice_window_end n.windows) [
      | none ↦ n
      | some w ↦ with_window notice.notice_window_end (with_failure key result w) n
    ] in
    settle_notices result notices n'

-- The notices that are due are sent as one message. `false` ends the round.
unfoldable pub send_quiet : PluginConfig → Time → Answers → Runtime → Bool × List Message × Runtime
send_quiet cfg now a r =
    let n = r.state.notifications in
    let due = keep (is_quiet_due cfg now) n.pending_notices in
    let rest = keep (λ notice. not (is_quiet_due cfg now notice)) n.pending_notices in
    let claimed =
      on_notifications
        (λ n. record n {
          pending_notices = rest;
          last_quiet_at = now;
          last_quiet_result = "sending";
        })
        r in
    if length due == 0
    then (true, [], r)
    else if not a.written_before
    then (
      false,
      [],
      set_last_error "notification_state_write_failed" (
          on_notifications
            (λ n. record n {
              pending_notices = rest ++ due;
              last_quiet_result = "state_write_failed";
            })
            (persist_state false claimed)),
    )
    else (
      true,
      quiet_message due ∷ [],
      persist_result a.written_after (
          on_notifications
            (λ n. settle_notices a.delivered due (record n { last_quiet_result = a.delivered }))
            (persist_state true claimed)),
    )

-- After the delivery: the result is noted, and the window is closed if it was the last attempt.
unfoldable pub digest_sent :
    PluginConfig → Time → DigestWindow → Time → NotificationState → NotificationState
digest_sent cfg end w now n =
    let noted = record (with_window end w n) {
      last_digest_result = w.digest_result;
      last_digest_end = w.window_end;
      last_digest_attempts = w.digest_attempts;
      last_digest_at = if str_eq w.digest_result "accepted" then now else n.last_digest_at;
    } in
    if is_delivered w.digest_result || leb 3 w.digest_attempts
    then finish_digest cfg w now noted
    else noted

-- The digest that is due: given up, waited for, or tried, at most three times.
unfoldable pub send_digest : PluginConfig → Time → Answers → Runtime → List Message × Runtime
send_digest cfg now a r =
    let n = r.state.notifications in
    let end = n.next_digest_at in
    let w = window cfg end n in
    let uncertain = record w { digest_result = "abandoned_uncertain_delivery" } in
    let claimed = record w {
      digest_attempts = w.digest_attempts + 1;
      digest_result = "sending";
      next_attempt_at = now + digest_retry_interval;
    } in
    let failed' = record claimed { digest_result = "state_write_failed" } in
    let sent = record claimed { digest_result = a.delivered } in
    let reserved = on_notifications (with_window end claimed) r in
    if is_before now end
    then ([], r)
    else if str_eq w.digest_result "sending"
    then (
      [],
      persist_result a.written_after
          (on_notifications (λ n. finish_digest cfg uncertain now (with_window end uncertain n)) r),
    )
    else if is_after w.next_attempt_at now
    then ([], on_notifications (with_window end w) r)
    else if leb 3 w.digest_attempts
    then (
      [],
      persist_result a.written_after
          (on_notifications (λ n. finish_digest cfg w now (with_window end w n)) r),
    )
    else if not a.written_before
    then (
      [],
      set_last_error "notification_state_write_failed"
          (on_notifications (with_window end failed') (persist_state false reserved)),
    )
    else (
      digest_message claimed ∷ [],
      persist_result a.written_after
          (on_notifications (λ n. digest_sent cfg end sent now n) (persist_state true reserved)),
    )

-- `processNotifications`; `first` answers for the writes of the first two steps, `quiet` and
-- `digest` for those of the quiet-hours message and of the digest.
unfoldable pub process_notifications : Time → Answers → Answers → Runtime → List Message × Runtime
process_notifications now quiet digest r =
    let cfg' = r.cfg in
    let r1 = plan_first_digest cfg' now quiet.written_first (settle_quiet digest.written_first r) in
    let (on, messages, r2) = send_quiet cfg' now quiet r1 in
    let (more, r3) = send_digest cfg' now digest r2 in
    if r.closed then ([], r) else if on then (messages ++ more, r3) else (messages, r2)

-- The end of `recordNotifications`: write, then send the manual feedback or the failures at once.
unfoldable pub record_notifications :
    (ℕ → String)
    → PluginConfig
    → Time
    → RunRecord
    → Bool
    → Answers
    → Runtime
    → String × List Message × Runtime
record_notifications streak_text cfg now run notify a r =
    let (s, n) = note_run streak_text cfg now run notify r.state.notifications in
    let noted = on_notifications (λ _. n) r in
    let saved = persist_state true noted in
    if not a.written_before
    then (
      "notification_state_write_failed",
      [],
      set_last_error "notification_state_write_failed" (persist_state false noted),
    )
    else if notify
    then (str_append "manual_" a.delivered, manual_message run ∷ [], saved)
    else if ltb 0 (length s.immediate)
    then (
      str_append "failure_" a.delivered,
      failure_message s.immediate ∷ [],
      persist_result a.written_after
          (on_notifications (settle_notices a.delivered s.immediate) saved),
    )
    else if s.queued
    then ("failure_queued_quiet_hours", [], saved)
    else if s.deduplicated
    then ("failure_deduplicated", [], saved)
    else ("deferred_to_digest", [], saved)
