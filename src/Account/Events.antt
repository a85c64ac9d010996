-- ===== src/Account/Events.antt =====
-- The operations on account records as events of the runtime, in any order and for any accounts.
use codex_daily_prewarm.Base.{
  Bool, List, String, [], arith, false, if◌then◌else◌, refl, str_eq, true, ◌++◌, ◌+◌, ◌∷◌, ◌≡◌,
}
use codex_daily_prewarm.Account.Followup.{clear_quota_retry, retry_delay, schedule_quota_retry}
use codex_daily_prewarm.Account.Keeps.{
  account_window-set_account, attempts-set_account, attempts_of, state-persist_state,
  with_quota-attempts, with_result-attempts,
}
use codex_daily_prewarm.Account.Limits.{reserve_attempt, with_attempt}
use codex_daily_prewarm.Account.Results.{
  record_account_result, save_quota, save_quota_failure, with_quota, with_result,
}
use codex_daily_prewarm.Clock.{Time}
use codex_daily_prewarm.Data.Account.{AccountWindow}
use codex_daily_prewarm.Data.Config.{PluginConfig}
use codex_daily_prewarm.Data.Run.{AccountResult}
use codex_daily_prewarm.Data.State.{Runtime, account_window, persist_state, set_account}
use codex_daily_prewarm.Quota.{QuotaObservation}

-- The outcome of the write to disk is the last argument of each.
pub data AccountEvent : Type 0 where
  reserves : String → Time → Bool → AccountEvent
  saves_quota : PluginConfig → String → QuotaObservation → Bool → AccountEvent
  saves_failure : String → Time → String → Bool → AccountEvent
  plans_retry : PluginConfig → String → Time → String → Bool → AccountEvent
  clears_retry : String → Bool → AccountEvent
  records_result : PluginConfig → String → AccountResult → Bool → AccountEvent

-- The answer of a reservation, `false` for any other event, and the runtime after the event.
unfoldable pub account_step : Runtime → AccountEvent → Bool × Runtime
account_step r (reserves k now b) = reserve_attempt k now b r
account_step r (saves_quota cfg k o b) = (false, (save_quota cfg k o b r).1)
account_step r (saves_failure k now reason b) = (false, save_quota_failure k now reason b r)
account_step r (plans_retry cfg k now reason b) = (false, schedule_quota_retry cfg k now reason b r)
account_step r (clears_retry k b) = (false, clear_quota_retry k b r)
account_step r (records_result cfg k res b) = (false, record_account_result cfg k res b r)

-- The times at which the account was given leave for a model call, oldest first.
abbrev pub granted_now : String → AccountEvent → Bool → List Time
granted_now account (reserves k now b) true = if str_eq k account then now ∷ [] else []
granted_now account (reserves k now b) false = []
granted_now account _ answer = []

unfoldable pub granted_times : String → Runtime → List AccountEvent → List Time
granted_times account r [] = []
granted_times account r (e ∷ es) =
    granted_now account e (account_step r e).0 ++ granted_times account (account_step r e).1 es

set_persist :
    (k a : String) (w : AccountWindow) (b : Bool) (r : Runtime)
    → w.attempt_times ≡ attempts_of r k
    → attempts_of (persist_state b (set_account k w r)) a ≡ attempts_of r a
set_persist k a w b r h =
    rw (state-persist_state b (set_account k w r)) (attempts-set_account k a w r h)

abbrev pub IsQuiet : String → AccountEvent → Type 0
IsQuiet account (reserves k now b) = str_eq k account ≡ false
IsQuiet account _ = Unit {0}

-- The event leaves the attempts of the account alone unless it is a reservation of that account.
pub account_step-attempts :
    (account : String) (r : Runtime) (e : AccountEvent)
    → IsQuiet account e
    → attempts_of (account_step r e).1 account ≡ attempts_of r account
unfolding account_step reserve_attempt save_quota save_quota_failure schedule_quota_retry
    clear_quota_retry record_account_result
account_step-attempts a r (reserves k now b) quiet = ground (
  arith,
  state-persist_state b (set_account k (with_attempt (account_window r k) now) r),
  account_window-set_account k a (with_attempt (account_window r k) now) r,
)
account_step-attempts a r (saves_quota cfg k o b) quiet =
    let w = with_quota cfg o (account_window r k) in
    ground (arith, set_persist k a w b r (with_quota-attempts cfg o (account_window r k)))
account_step-attempts a r (saves_failure k now reason b) quiet =
    let w = account_window r k in
    let w' = record w { last_quota_checked_at = now; quota_status = reason } in
    ground (arith, set_persist k a w' b r refl)
account_step-attempts a r (plans_retry cfg k now reason b) quiet =
    let w = account_window r k in
    let w' = record w {
      quota_retry_at = now + retry_delay w.quota_retry_step;
      quota_retry_step = w.quota_retry_step + 1;
    } in
    ground (arith, set_persist k a w' b r refl)
account_step-attempts a r (clears_retry k b) quiet =
    let w = account_window r k in
    let w' = record w { quota_retry_at = 0; quota_retry_step = 0 } in
    ground (arith, set_persist k a w' b r refl)
account_step-attempts a r (records_result cfg k res b) quiet =
    let w = with_result cfg res (account_window r k) in
    ground (arith, set_persist k a w b r (with_result-attempts cfg res (account_window r k)))
