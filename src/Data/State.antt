-- ===== src/Data/State.antt =====
-- runtime.go: `runtimeState`, what is written to the state file, and `runtime` around it. Each
-- function of the model is one critical section or a sequence of them, so the mutexes leave no trace.
use codex_daily_prewarm.Base.{
  Bool, List, Map, Option, String, [], if◌then◌else◌, insert, lookup, none, some, ℕ, ◌+◌,
}
use codex_daily_prewarm.Data.Account.{AccountWindow, no_account}
use codex_daily_prewarm.Data.Config.{PluginConfig}
use codex_daily_prewarm.Data.Notice.{NotificationState, no_notifications}
use codex_daily_prewarm.Data.Run.{RunRecord, RunRequest, ScheduledSlot}

pub record RuntimeState : Type 0 where
  pub daily : Map (Map Bool)
  pub accounts : Map AccountWindow
  pub slots : Map ScheduledSlot
  pub history : List RunRecord
  pub notifications : NotificationState

-- `stopped` says that `stopCh` is closed, `scheduled` that a scheduler is installed. `disk` is the
-- content of the state file, `none` while there is none.
pub record Runtime : Type 0 where
  pub cfg : PluginConfig
  pub state : RuntimeState
  pub disk : Option RuntimeState
  pub state_write_failures : ℕ
  pub terminal : Bool
  pub generation : ℕ
  pub scheduled : Bool
  pub stopped : Bool
  pub current_request : Option RunRequest
  pub running : Bool
  pub pending : List RunRequest
  pub closed : Bool
  pub last_error : String

unfoldable pub new_state : RuntimeState
new_state = record {
  daily = [];
  accounts = [];
  slots = [];
  history = [];
  notifications = no_notifications;
}

-- `r.state.Accounts[account]`.
abbrev pub account_window : Runtime → String → AccountWindow
account_window r account = elim (lookup account r.state.accounts) [ none ↦ no_account | some w ↦ w ]

abbrev pub set_account : String → AccountWindow → Runtime → Runtime
set_account account w r = record r {
  state = record (r.state) { accounts = insert account w r.state.accounts };
}

-- `persistState`: a copy of the state replaces the file, or the write fails and is counted. Whether
-- it succeeds is up to the file system, and so an argument.
unfoldable pub persist_state : Bool → Runtime → Runtime
persist_state written r =
    if written
    then record r { disk = some r.state }
    else record r { state_write_failures = r.state_write_failures + 1 }

abbrev pub set_last_error : String → Runtime → Runtime
set_last_error error r = record r { last_error = error }
