-- ===== src/Management/Routed.antt =====
-- management.go: which requests change anything.
use codex_daily_prewarm.Base.{Bool, List, Option, String, false, str_eq, true, ◌&&◌, ◌≡◌}
use codex_daily_prewarm.Display.Names.{DisplayAuth, DisplayHost}
use codex_daily_prewarm.Display.Store.{
  AccountDisplayState, clone_account_display, set_account_display,
}
use codex_daily_prewarm.Management.Dispatch.{
  Managed, ManagementRequest, ManagementResponse, RunInput, is_management_path, method_of,
  run_started,
}
use codex_daily_prewarm.Management.Manual.{IsManualRun}

abbrev pub is_run_started : ManagementResponse → Bool
is_run_started (run_started input) = true
is_run_started other = false

module _ (upper : String → String) (h : DisplayHost) (files : Option (List DisplayAuth))
    (written : Bool) (request : ManagementRequest) (w : Managed) where
  pub data IsRouted (p : ManagementResponse × Managed) : Type 0 where
    has_read : p.1 ≡ w → is_run_started p.0 ≡ false → IsRouted p
    has_set :
        (enabled : Bool)
        → str_eq (method_of upper request) "PUT" ≡ true
        → is_management_path request.path "/account-details" ≡ true
        → is_run_started p.0 ≡ false
        → p.1 ≡ (w.0, (set_account_display h enabled files written w.1).1)
        → IsRouted p
    has_asked :
        (input : RunInput)
        → str_eq (method_of upper request) "POST" ≡ true
        → is_management_path request.path "/run-now" ≡ true
        → IsManualRun input w.0 (p.0, p.1.0)
        → p.1.1 ≡ w.1
        → IsRouted p

  abbrev get_of : Bool → Bool
  get_of matches = str_eq (method_of upper request) "GET" && matches

  abbrev shown_now : AccountDisplayState
  shown_now = clone_account_display w.1.display
