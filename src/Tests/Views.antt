-- ===== src/Tests/Views.antt =====
-- The theorems on the displays, the management interface and Bark, at concrete inputs.
use codex_daily_prewarm.Base.{
  List, [], false, inr, none, pos, refl, some, str_eq, true, ℕ, ◌+◌, ◌∷◌, ◌≡◌, ◌≢◌, ◌⊎◌,
}
use codex_daily_prewarm.Bark.Delivered.{IsDelivery, send_bark_with-IsDelivery}
use codex_daily_prewarm.Bark.Send.{BarkHost, ParsedUrl, bark_push_target, push_to, send_bark_with}
use codex_daily_prewarm.Display.Names.{
  DisplayAuth, DisplayHost, safe_display_name, without_controls,
}
use codex_daily_prewarm.Display.Safe.{IsSafeName, safe_display_name-IsSafeName}
use codex_daily_prewarm.Display.Saved.{
  DisplayEvent, IsInForce, IsKept, after_display, after_display-IsKept, refreshes,
  set_account_display_atomic, sets_display,
}
use codex_daily_prewarm.Display.Store.{
  AccountDisplayState, DisplayRuntime, display_saved, set_account_display,
}
use codex_daily_prewarm.Management.Dispatch.{ManagementRequest}
use codex_daily_prewarm.Tests.Surroundings.{sample_auth}
use codex_daily_prewarm.Text.{trim_space}

safe_display_name-IsSafeName_example :
    IsSafeName (without_controls (trim_space " a\tb ")) (safe_display_name " a\tb ")
safe_display_name-IsSafeName_example = safe_display_name-IsSafeName " a\tb "

abbrev display_host : DisplayHost
display_host = record {
  plan_type = λ index. some "plus";
  base_name = λ name. name;
  equal_fold = str_eq;
  digest_of = λ text. text;
  lower_word = λ text. text;
}

abbrev display_files : List DisplayAuth
display_files =
    record { base_auth = sample_auth "a"; label = "first"; email = ""; file_name = "" }
    ∷ record { base_auth = sample_auth "b"; label = ""; email = "b@example"; file_name = "" }
    ∷ []

abbrev display_off : AccountDisplayState
display_off = record { display_enabled = false; display_accounts = [] }

abbrev first_display : DisplayRuntime
first_display = record {
  display_terminal = false;
  display = display_off;
  display_on_disk = none;
  display_error = "";
}

first_display-IsKept : IsKept first_display
first_display-IsKept = record { private_now = (tt, inr refl); private_file = tt }

-- The names are shown, the refresh cannot be written, and the names are hidden again.
abbrev display_events : List DisplayEvent
display_events =
    sets_display true (some display_files) true
    ∷ refreshes (some display_files) false
    ∷ sets_display false none true
    ∷ []

after_display-IsKept_example : IsKept (after_display display_host first_display display_events)
after_display-IsKept_example =
    after_display-IsKept display_host display_events first_display first_display-IsKept

set_account_display_atomic_example :
    let p = set_account_display display_host true (some display_files) false first_display in
    IsInForce true p ⊎ ((p.0 ≢ display_saved) × (p.1 ≡ first_display))
set_account_display_atomic_example =
    set_account_display_atomic display_host true (some display_files) false first_display

abbrev run_request : ManagementRequest
run_request = record {
  method = "POST";
  path = "/v0/management/plugins/codex-daily-prewarm/run-now/";
  body_bytes = 0;
  body_as_display = none;
  body_as_run = none;
}

abbrev bark_url_of : ParsedUrl
bark_url_of = record {
  scheme = "https";
  host = "api.day.app";
  has_user = false;
  fragment = "";
  raw_query = "";
  opaque_part = "";
  escaped_path = "/key/";
  push_text = "https://api.day.app/push";
}

-- A world that counts the pushes; each is acknowledged.
abbrev bark_host : BarkHost ℕ
bark_host = record {
  urls = record { parse_url = λ text. some bark_url_of; path_unescape = λ text. some text };
  encodes = λ push. true;
  send_push = λ push w. (some (pos 200, some (pos 200)), w + 1);
  show_status = λ status. "";
}

bark_accepted :
    send_bark_with bark_host "https://api.day.app/key/" "t" "b" "active" 0 ≡ ("accepted", 1)
unfolding send_bark_with push_to bark_push_target trim_space
bark_accepted = refl

send_bark_with-IsDelivery_example :
    IsDelivery bark_host "https://api.day.app/key/" "t" "b" "active" 0
      (send_bark_with bark_host "https://api.day.app/key/" "t" "b" "active" 0)
send_bark_with-IsDelivery_example =
    send_bark_with-IsDelivery bark_host "https://api.day.app/key/" "t" "b" "active" 0
