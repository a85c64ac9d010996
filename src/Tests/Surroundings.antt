-- ===== src/Tests/Surroundings.antt =====
-- The surroundings of an example run: every write succeeds, every account is unused, every model
-- call ends without a known outcome, and waiting is all that takes time.
use codex_daily_prewarm.Base.{List, String, [], false, pos, pos_part, some, true, ℕ, ◌+ℤ◌, ◌+◌, ◌∷◌}
use codex_daily_prewarm.Clock.{Time, unix}
use codex_daily_prewarm.Data.Config.{PluginConfig}
use codex_daily_prewarm.Data.Run.{RunRequest}
use codex_daily_prewarm.Float.{finite}
use codex_daily_prewarm.Lifecycle.Queue.{manual_request}
use codex_daily_prewarm.Model.Answer.{other_error}
use codex_daily_prewarm.Notify.Process.{Answers}
use codex_daily_prewarm.Quota.Fetch.{UsageHost, credential, usage_answer}
use codex_daily_prewarm.Quota.Usage.{UsageWindow}
use codex_daily_prewarm.Run.Host.{Auth, RunHost, World}
use codex_daily_prewarm.Run.Initial.{InitialEvent, answers_query, takes_place}
use codex_daily_prewarm.Tests.Samples.{fresh_runtime, noon, sample_config, sample_job}

abbrev unused_usage : ℕ → Time → UsageWindow
unused_usage seconds now = record {
  used_percent = some (finite (pos 0));
  reset_after_seconds = some (pos seconds);
  reset_at = some (unix now +ℤ pos seconds);
}

abbrev pub unused_host : UsageHost (World ℕ)
unused_host = record {
  get_credential =
      λ index w. (credential (some (record { access_token = "token"; account_id = "id" })), w);
  get_usage = λ c w. (
    usage_answer (pos 200) 400 (
        some (record {
          allowed = some true;
          primary_window = some (unused_usage 18000 w.1);
          secondary_window = some (unused_usage 604_800 w.1);
        })),
    w,
  );
  usage_clock = λ w. w.1;
  status_text = λ status. "";
}

abbrev pub sample_auth : String → Auth
sample_auth name = record {
  auth_id = name;
  auth_index = name;
  provider = "codex";
  auth_kind = "";
  auth_account_type = "plus";
  disabled = false;
}

abbrev pub two_auths : List Auth
two_auths = sample_auth "b" ∷ sample_auth "a" ∷ []

abbrev pub sample_answers : Answers
sample_answers = record {
  written_first = true;
  written_before = true;
  written_after = true;
  delivered = "";
}

abbrev pub sample_surroundings : RunHost ℕ
sample_surroundings = record {
  is_stopped = λ w. w.0.stopped;
  run_clock = λ w. w.1;
  next_write = λ w. (true, w);
  next_audit = λ w. (true, w);
  refresh_display = λ w. w;
  list_files = λ w. (some two_auths, w);
  usage = unused_host;
  elapse = λ d w. (true, (w.0, w.1 + pos_part d));
  call_model = λ model w. (other_error, w);
  notice_answers = λ w. (sample_answers, w);
  fingerprint_of = λ text. text;
  lower = λ text. text;
  show_integer = λ n. "";
  show_natural = λ n. "";
}

abbrev pub live_config : PluginConfig
live_config = record sample_config { dry_run = false; expected_account_count = pos 2 }

abbrev pub manual_run : RunRequest
manual_run = manual_request 1 "manual" sample_job false false

abbrev pub noon_world : World ℕ
noon_world = (fresh_runtime, noon)

-- Both accounts begin, the second one asks first.
abbrev pub two_fetches : List InitialEvent
two_fetches = takes_place 0 ∷ takes_place 1 ∷ answers_query 1 ∷ answers_query 0 ∷ []
