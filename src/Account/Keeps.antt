-- ===== src/Account/Keeps.antt =====
-- Which operations write the attempts of an account: `reserveAttempt` alone, and only its own.
use codex_daily_prewarm.Base.{
  Bool, List, String, arith, eq_iff, if◌then◌else◌, lookup-insert, str_eq, ◌≡◌,
}
use codex_daily_prewarm.Account.Followup.{
  update_five_hour_plan, update_followup_plan, update_weekly_plan,
}
use codex_daily_prewarm.Account.Results.{with_outcome, with_quota, with_response, with_result}
use codex_daily_prewarm.Clock.{Time}
use codex_daily_prewarm.Data.Account.{AccountWindow}
use codex_daily_prewarm.Data.Config.{PluginConfig}
use codex_daily_prewarm.Data.Run.{AccountResult}
use codex_daily_prewarm.Data.State.{Runtime, account_window, persist_state, set_account}
use codex_daily_prewarm.Quota.{QuotaObservation}

abbrev pub attempts_of : Runtime → String → List Time
attempts_of r account = (account_window r account).attempt_times

pub account_window-set_account :
    (k j : String) (w : AccountWindow) (r : Runtime)
    → account_window (set_account k w r) j ≡ (if str_eq k j then w else account_window r j)
account_window-set_account k j w r = ground (arith, lookup-insert k j w r.state.accounts)

pub state-persist_state : (b : Bool) (r : Runtime) → (persist_state b r).state ≡ r.state
unfolding persist_state
state-persist_state b r = ground arith

pub update_five_hour_plan-attempts :
    (w : AccountWindow) (o : QuotaObservation)
    → (update_five_hour_plan w o).attempt_times ≡ w.attempt_times
unfolding update_five_hour_plan
update_five_hour_plan-attempts w o = ground arith

pub update_followup_plan-attempts :
    (w : AccountWindow) (o : QuotaObservation)
    → (update_followup_plan w o).attempt_times ≡ w.attempt_times
unfolding update_weekly_plan update_followup_plan
update_followup_plan-attempts w o = ground (arith, update_five_hour_plan-attempts w o)

pub with_quota-attempts :
    (cfg : PluginConfig) (o : QuotaObservation) (w : AccountWindow)
    → (with_quota cfg o w).attempt_times ≡ w.attempt_times
with_quota-attempts cfg o w = grind (arith, update_followup_plan-attempts)

with_response-attempts :
    (cfg : PluginConfig) (res : AccountResult) (w : AccountWindow)
    → (with_response cfg res w).attempt_times ≡ w.attempt_times
unfolding with_response
with_response-attempts cfg res w = grind (arith, update_followup_plan-attempts)

with_outcome-attempts :
    (cfg : PluginConfig) (res : AccountResult) (w : AccountWindow)
    → (with_outcome cfg res w).attempt_times ≡ w.attempt_times
unfolding with_outcome
with_outcome-attempts cfg res w =
    ground (arith, with_response-attempts cfg res (record w { last_prewarm_at = res.finished_at }))

pub with_result-attempts :
    (cfg : PluginConfig) (res : AccountResult) (w : AccountWindow)
    → (with_result cfg res w).attempt_times ≡ w.attempt_times
unfolding with_result
with_result-attempts cfg res w = with_outcome-attempts cfg res w

-- An update that keeps the attempts of the record it changes keeps those of every account.
pub attempts-set_account :
    (k a : String) (w : AccountWindow) (r : Runtime)
    → w.attempt_times ≡ attempts_of r k
    → attempts_of (set_account k w r) a ≡ attempts_of r a
attempts-set_account k a w r h = ground (arith, account_window-set_account k a w r, eq_iff k a)
