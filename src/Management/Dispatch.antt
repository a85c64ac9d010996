-- ===== src/Management/Dispatch.antt =====
-- management.go: `dispatchManagement`. A body comes with its size and with what it decodes to for
-- each of the two structs that are asked for; a response is its status with the value that is
-- encoded. The status page and the status are views of the runtime, of which only the model is kept.
use codex_daily_prewarm.Base.{
  Bool, List, Option, String, false, if◌then◌else◌, none, some, str_append, str_eq, ℕ, ◌&&◌, ◌==◌,
  ◌||◌,
}
use codex_daily_prewarm.Data.Run.{RunRecord}
use codex_daily_prewarm.Data.State.{Runtime}
use codex_daily_prewarm.Display.Names.{DisplayAuth, DisplayHost}
use codex_daily_prewarm.Display.Store.{
  AccountDisplayState, DisplayRuntime, DisplaySaved, clone_account_display, display_saved,
  set_account_display,
}
use codex_daily_prewarm.Lifecycle.Queue.{
  Started, already_running, job_not_found, run_accepted, shutting_down, start_named_run,
}
use codex_daily_prewarm.Text.{trim_slashes, trim_space}

pub record RunInput : Type 0 where
  pub input_force : Bool
  pub input_notify : Bool
  pub input_job : String

pub record ManagementRequest : Type 0 where
  pub method : String
  pub path : String
  pub body_bytes : ℕ
  pub body_as_display : Option (Option Bool)
  pub body_as_run : Option RunInput

pub data ManagementResponse : Type 0 where
  status_page : String → ManagementResponse
  status_answer : Runtime → ManagementResponse
  history_answer : List RunRecord → AccountDisplayState → ManagementResponse
  display_answer : AccountDisplayState → ManagementResponse
  run_started : RunInput → ManagementResponse
  refused_request : ℕ → String → ManagementResponse

abbrev pub management_route_prefix : String
management_route_prefix = "/plugins/codex-daily-prewarm"

unfoldable pub is_management_path : String → String → Bool
is_management_path path suffix =
    let trimmed = trim_slashes (trim_space path) in
    let route = str_append management_route_prefix suffix in
    str_eq trimmed route || str_eq trimmed (str_append "/v0/management" route)

unfoldable pub is_resource_status_path : String → Bool
is_resource_status_path path =
    let trimmed = trim_slashes (trim_space path) in
    let route = str_append management_route_prefix "/status" in
    str_eq trimmed (str_append "/v0/resource" route)
    || str_eq trimmed (str_append "/resource" route)

abbrev pub method_of : (String → String) → ManagementRequest → String
method_of upper request =
    let given_method = upper (trim_space request.method) in
    if str_eq given_method "" then "GET" else given_method

abbrev pub Managed : Type 0
Managed = Runtime × DisplayRuntime

abbrev pub no_input : RunInput
no_input = record { input_force = false; input_notify = false; input_job = "" }

-- The body of a request for a run, `none` where it does not decode.
abbrev pub run_input : ManagementRequest → Option RunInput
run_input request = if request.body_bytes == 0 then some no_input else request.body_as_run

abbrev pub run_answer : RunInput → Started → ManagementResponse
run_answer input run_accepted = run_started input
run_answer input already_running = refused_request 409 "already_running"
run_answer input shutting_down = refused_request 503 "runtime_error"
run_answer input job_not_found = refused_request 400 "job_not_found"

abbrev pub manual_start : RunInput → Runtime → Started × Runtime
manual_start input r =
    start_named_run "manual" input.input_job input.input_force input.input_notify r

unfoldable pub run_now : Option RunInput → Managed → ManagementResponse × Managed
run_now none w = (refused_request 400 "invalid_json", w)
run_now (some input) w =
    let (outcome, r) = manual_start input w.0 in (run_answer input outcome, (r, w.1))

abbrev pub display_reply : DisplaySaved × DisplayRuntime → ManagementResponse
display_reply (display_saved, d) = display_answer (clone_account_display d.display)
display_reply (other, d) = refused_request 503 "account_display_save_failed"

-- `files` and `written` are what the list of files gives and whether the write succeeds.
unfoldable pub put_display :
    DisplayHost
    → Option (List DisplayAuth)
    → Bool
    → Option (Option Bool)
    → Managed
    → ManagementResponse × Managed
put_display h files written (some (some enabled)) w =
    let p = set_account_display h enabled files written w.1 in (display_reply p, (w.0, p.1))
put_display h files written other w = (refused_request 400 "invalid_json", w)

unfoldable pub dispatch_management :
    (String → String)
    → DisplayHost
    → Option (List DisplayAuth)
    → Bool
    → ManagementRequest
    → Managed
    → ManagementResponse × Managed
dispatch_management upper h files written request w =
    let used = method_of upper request in
    let shown = clone_account_display w.1.display in
    if str_eq used "GET" && is_resource_status_path request.path
    then (status_page w.0.cfg.model, w)
    else if str_eq used "GET" && is_management_path request.path "/status"
    then (status_answer w.0, w)
    else if str_eq used "GET" && is_management_path request.path "/history"
    then (history_answer w.0.state.history shown, w)
    else if str_eq used "GET" && is_management_path request.path "/account-details"
    then (display_answer shown, w)
    else if str_eq used "PUT" && is_management_path request.path "/account-details"
    then put_display h files written request.body_as_display w
    else if str_eq used "POST" && is_management_path request.path "/run-now"
    then run_now (run_input request) w
    else (refused_request 404 "not_found", w)
