-- ===== src/Lifecycle/Queue.antt =====
-- runtime.go: `startNamedRunWithNotify`, `startRunJob`, `runQueue`, `requeueInterrupted` and the
-- locked part of `quiesce`. The loop of `runQueue` is cut at the runs: `finish_run` is what it does
-- between two of them.
use Prim.Native.Char.{code}
use codex_daily_prewarm.Base.{
  Bool, List, Option, String, [], any, false, if◌then◌else◌, insert, lookup, none, not, some,
  str_eq, suc, true, ℕ, ◌&&◌, ◌++◌, ◌+◌, ◌==◌, ◌||◌, ◌∷◌,
}
use codex_daily_prewarm.Clock.{Time, is_zero}
use codex_daily_prewarm.Data.Account.{AccountWindow}
use codex_daily_prewarm.Data.Config.{PrewarmJob}
use codex_daily_prewarm.Data.Run.{RunRequest, ScheduledSlot}
use codex_daily_prewarm.Data.State.{
  Runtime, account_window, persist_state, set_account, set_last_error,
}

pub data Started : Type 0 where
  run_accepted : Started
  already_running : Started
  shutting_down : Started
  job_not_found : Started

-- The four fields by which a request is recognised.
abbrev pub same_request : RunRequest → RunRequest → Bool
same_request a b =
    str_eq a.trigger b.trigger
    && str_eq a.job.name b.job.name
    && str_eq a.target_account b.target_account
    && str_eq a.slot b.slot

abbrev pub is_current : Runtime → RunRequest → Bool
is_current r request = elim r.current_request [
  | none ↦ false
  | some current ↦ same_request current request
]

abbrev pub is_known : Runtime → RunRequest → Bool
is_known r request = is_current r request || any (λ queued. same_request queued request) r.pending

abbrev pub is_refused : Runtime → RunRequest → Bool
is_refused r request =
    r.closed
    || not (request.request_generation == 0) && not (request.request_generation == r.generation)

unfoldable pub start_run_job : RunRequest → Runtime → Started × Runtime
start_run_job request r =
    if is_refused r request
    then (shutting_down, r)
    else if r.running
    then if str_eq request.trigger "manual"
      then (already_running, r)
      else if is_known r request
      then (run_accepted, r)
      else (run_accepted, record r { pending = r.pending ++ request ∷ [] })
    else (
      run_accepted,
      record r { running = true; current_request = some request; last_error = "" },
    )

abbrev pub find_job : String → List PrewarmJob → Option PrewarmJob
find_job wanted [] = none
find_job wanted (j ∷ js) = if str_eq j.name wanted then some j else find_job wanted js

abbrev pub first_name : List PrewarmJob → String
first_name [] = ""
first_name (j ∷ js) = j.name

abbrev pub manual_request : ℕ → String → PrewarmJob → Bool → Bool → RunRequest
manual_request generation source j forced notified = record {
  request_generation = generation;
  trigger = source;
  job = j;
  force = forced;
  target_account = "";
  followup_kind = [];
  due_at = 0;
  slot = "";
  slot_base = 0;
  request_planned_at = 0;
  request_jitter = 0;
  read_only = false;
  observe_only = false;
  notify = notified;
}

unfoldable pub start_named_run : String → String → Bool → Bool → Runtime → Started × Runtime
start_named_run source wanted forced notified r =
    let chosen = if str_eq wanted "" then first_name r.cfg.jobs else wanted in
    elim (find_job chosen r.cfg.jobs) [
      | none ↦ (job_not_found, r)
      | some j ↦ start_run_job (manual_request r.generation source j forced notified) r
    ]

abbrev pub noted_error : String → Runtime → Runtime
noted_error code r = record r { last_error = if str_eq code "" then r.last_error else code }

abbrev pub idle : Runtime → Runtime
idle r = record r { pending = []; running = false; current_request = none }

abbrev pub next_request : Bool → List RunRequest → Runtime → Runtime
next_request shut [] r = idle r
next_request true (q ∷ qs) r = idle r
next_request false (q ∷ qs) r = record r { pending = qs; current_request = some q }

-- The end of the current run, which returned a record with this error code.
unfoldable pub finish_run : String → Runtime → Runtime
finish_run code r = let noted = noted_error code r in next_request noted.closed noted.pending noted

-- `quiesce` under the lock: the requests that wait are handed back, the scheduler is dropped.
unfoldable pub close_gate : Runtime → List RunRequest × Runtime
close_gate r = (
  r.pending,
  record r {
    stopped = true;
    closed = true;
    generation = r.generation + 1;
    pending = [];
    scheduled = false;
  },
)

-- `switch kind` for one follow-up of a stopped run.
abbrev pub restored_kind : Time → String → AccountWindow → AccountWindow
restored_kind due kind w =
    if str_eq kind "five_hour"
    then record w { five_hour_followup_at = due }
    else if str_eq kind "weekly"
    then record w { weekly_followup_at = due }
    else if str_eq kind "retry"
    then record w { quota_retry_at = due }
    else w

abbrev pub restored_kinds : Time → List String → AccountWindow → AccountWindow
restored_kinds due [] w = w
restored_kinds due (kind ∷ kinds) w = restored_kinds due kinds (restored_kind due kind w)

abbrev pub set_slot : String → ScheduledSlot → Runtime → Runtime
set_slot key s r = record r { state = record (r.state) { slots = insert key s r.state.slots } }

abbrev pub unclaimed : String → Runtime → Option ScheduledSlot → Option Runtime
unclaimed key r none = none
unclaimed key r (some s) =
    if is_zero s.slot_started_at
    then none
    else some (set_slot key (record s { slot_started_at = 0 }) r)

abbrev pub unclaimed_slot : String → Runtime → Option Runtime
unclaimed_slot key r = unclaimed key r (lookup key r.state.slots)

abbrev pub restored_followup : RunRequest → Runtime → Option Runtime
restored_followup request r =
    if str_eq request.target_account "" || is_zero request.due_at
    then none
    else some (
        set_account request.target_account
          (restored_kinds request.due_at request.followup_kind
            (account_window r request.target_account))
          r)

-- The runtime after the claim is put back, `none` when there is nothing to put back.
unfoldable pub put_back : RunRequest → Runtime → Option Runtime
put_back request r =
    if str_eq request.trigger "schedule" || str_eq request.trigger "quota_refresh"
    then unclaimed_slot request.slot r
    else if str_eq request.trigger "reset_followup"
    then restored_followup request r
    else none

abbrev pub written_back : Bool → Runtime → Option Runtime → Runtime
written_back written r none = r
written_back written r (some changed) =
    let r' = persist_state written changed in
    if written then r' else set_last_error "interrupted_requeue_write_failed" r'

unfoldable pub requeue_interrupted : RunRequest → Bool → Runtime → Runtime
requeue_interrupted request written r = written_back written r (put_back request r)

-- `for _, request := range pending`, with the outcome of each write.
unfoldable pub requeue_all : List RunRequest → (ℕ → Bool) → Runtime → Runtime
requeue_all [] writes r = r
requeue_all (q ∷ qs) writes r =
    requeue_all qs (λ n. writes (suc n)) (requeue_interrupted q (writes 0) r)
