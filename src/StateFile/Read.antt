-- ===== src/StateFile/Read.antt =====
-- runtime.go: `readState`, with the import of the attempts and the accounts that an older version has
-- left in its history. The decoding of JSON is a library's: a text comes with its size and with what
-- it decodes to. A list of accounts or slots that is missing decodes to an empty one.
use codex_daily_prewarm.Base.{
  Bool, List, Map, Option, String, [], false, if◌then◌else◌, insert, leb_ℤ, lookup, ltb, none, not,
  pos, some, str_eq, suc, take, true, zero, ℕ, ℤ, ◌&&◌, ◌*◌, ◌++◌, ◌-◌, ◌==◌, ◌∷◌,
}
use codex_daily_prewarm.Clock.{Time, hour, is_after, is_zero}
use codex_daily_prewarm.Data.Account.{AccountWindow, no_account}
use codex_daily_prewarm.Data.Run.{AccountResult, RunRecord}
use codex_daily_prewarm.Data.State.{RuntimeState}
use codex_daily_prewarm.Run.Finish.{max_history_items}

abbrev pub state_version : ℤ
state_version = pos 1

abbrev pub max_state_size : ℕ
max_state_size = 2_097_152

pub record StateText : Type 0 where
  pub version : ℤ
  pub stated : RuntimeState

-- What `os.ReadFile` gives at the path.
pub data StateFile : Type 0 where
  no_file : StateFile
  unreadable_file : StateFile
  file_text : ℕ → Option StateText → StateFile

-- `missing_state` is the error that `errors.Is` knows as `os.ErrNotExist`.
pub data ReadState : Type 0 where
  missing_state : ReadState
  refused_state : ReadState
  read_as : RuntimeState → ReadState

abbrev pub is_nil {ℓ} : {A : Type ℓ} → List A → Bool
is_nil [] = true
is_nil (x ∷ xs) = false

abbrev pub window_of : Map AccountWindow → String → AccountWindow
window_of known account = elim (lookup account known) [ none ↦ no_account | some w ↦ w ]

-- `knownAttempts`.
abbrev pub has_attempts : Map AccountWindow → String → Bool
has_attempts known account = not (is_nil (window_of known account).attempt_times)

abbrev pub is_usable_attempt : AccountResult → Bool
is_usable_attempt res =
    not (str_eq res.account "") && not (res.attempts == 0) && not (is_zero res.finished_at)

-- `now.Add(-24 * time.Hour)` stops at the zero time here.
abbrev pub is_importable : Map AccountWindow → Time → AccountResult → Bool
is_importable original now res =
    is_usable_attempt res
    && is_after res.finished_at (now - 24 * hour)
    && not (has_attempts original res.account)

abbrev pub copies : ℕ → Time → List Time
copies zero at = []
copies (suc n) at = at ∷ copies n at

abbrev pub with_imported : AccountResult → AccountWindow → AccountWindow
with_imported res w = record w {
  attempt_times =
      w.attempt_times ++ copies (if ltb res.attempts 5 then res.attempts else 5) res.finished_at;
}

unfoldable pub import_result :
    Map AccountWindow → Time → AccountResult → Map AccountWindow → Map AccountWindow
import_result original now res known =
    if is_importable original now res
    then insert res.account (with_imported res (window_of known res.account)) known
    else known

unfoldable pub import_results :
    Map AccountWindow → Time → List AccountResult → Map AccountWindow → Map AccountWindow
import_results original now [] known = known
import_results original now (res ∷ rest) known =
    import_results original now rest (import_result original now res known)

-- The runs of the history, the newest first.
unfoldable pub import_runs :
    Map AccountWindow → Time → List RunRecord → Map AccountWindow → Map AccountWindow
import_runs original now [] known = known
import_runs original now (run ∷ runs) known =
    import_runs original now runs (import_results original now run.results known)

abbrev pub is_seed : AccountResult → Bool
is_seed res = not (str_eq res.account "") && not (is_zero res.finished_at)

abbrev pub seeded : AccountResult → AccountWindow → AccountWindow
seeded res w =
    if res.response_received
    then record w {
      last_probe_at = res.finished_at;
      account_reset_at = res.primary_reset_at;
      retry_after = 0;
    }
    else if str_eq res.error_code "usage_limit_reached"
    then record w { retry_after = res.primary_reset_at }
    else w

unfoldable pub seed_results : List AccountResult → Map AccountWindow → Map AccountWindow
seed_results [] known = known
seed_results (res ∷ rest) known = seed_results rest (
    if is_seed res
    then insert res.account (seeded res (window_of known res.account)) known
    else known)

-- The runs of the history, the oldest first.
unfoldable pub seed_runs : List RunRecord → Map AccountWindow → Map AccountWindow
seed_runs [] known = known
seed_runs (run ∷ older) known = seed_results run.results (seed_runs older known)

abbrev pub seed_if_empty : List RunRecord → Map AccountWindow → Map AccountWindow
seed_if_empty runs known = if is_nil known then seed_runs runs known else known

-- One `time.Now()` stands for those of the loop.
unfoldable pub migrated : Time → RuntimeState → RuntimeState
migrated now s = record s {
  accounts = seed_if_empty s.history (import_runs s.accounts now s.history s.accounts);
  history = take max_history_items s.history;
}

abbrev pub is_version : ℤ → Bool
is_version v = leb_ℤ v state_version && leb_ℤ state_version v

abbrev pub decoded_state : Option StateText → Time → ReadState
decoded_state none now = refused_state
decoded_state (some t) now =
    if is_version t.version then read_as (migrated now t.stated) else refused_state

unfoldable pub read_state : StateFile → Time → ReadState
read_state no_file now = missing_state
read_state unreadable_file now = refused_state
read_state (file_text size text) now =
    if ltb max_state_size size then refused_state else decoded_state text now
