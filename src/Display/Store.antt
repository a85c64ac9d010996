-- ===== src/Display/Store.antt =====
-- account_display.go: the preference of the displays with its cache, and how it is saved. Of the
-- runtime and of the state file this model has the part that account_display.go changes: `writeState`
-- replaces the whole file, in which this part is then `cloneAccountDisplay` of the one in memory.
use codex_daily_prewarm.Base.{
  Bool, List, Map, Option, String, [], false, if◌then◌else◌, none, not, some, true,
}
use codex_daily_prewarm.Display.Names.{
  AccountDisplayDetail, DisplayAuth, DisplayHost, load_account_display_details,
}

pub record AccountDisplayState : Type 0 where
  pub display_enabled : Bool
  pub display_accounts : Map AccountDisplayDetail

pub record DisplayRuntime : Type 0 where
  pub display_terminal : Bool
  pub display : AccountDisplayState
  pub display_on_disk : Option AccountDisplayState
  pub display_error : String

pub data DisplaySaved : Type 0 where
  runtime_closed : DisplaySaved
  account_details_unavailable : DisplaySaved
  display_unsaved : DisplaySaved
  display_saved : DisplaySaved

unfoldable pub clone_account_display : AccountDisplayState → AccountDisplayState
clone_account_display d =
    if d.display_enabled then d else record { display_enabled = false; display_accounts = [] }

-- Whether the write succeeds is an argument.
unfoldable pub save_account_display :
    AccountDisplayState → Bool → DisplayRuntime → DisplaySaved × DisplayRuntime
save_account_display next written r =
    if written
    then (
      display_saved,
      record r { display = next; display_on_disk = some (clone_account_display next) },
    )
    else (display_unsaved, r)

module _ (h : DisplayHost) where
  abbrev pub enable_with :
      Option (Map AccountDisplayDetail) → Bool → DisplayRuntime → DisplaySaved × DisplayRuntime
  enable_with none written r = (account_details_unavailable, r)
  enable_with (some details) written r =
      save_account_display (record { display_enabled = true; display_accounts = details }) written r

  unfoldable pub set_account_display :
      Bool → Option (List DisplayAuth) → Bool → DisplayRuntime → DisplaySaved × DisplayRuntime
  set_account_display enabled files written r =
      if r.display_terminal
      then (runtime_closed, r)
      else if enabled
      then enable_with (load_account_display_details h files) written r
      else save_account_display (record { display_enabled = false; display_accounts = [] }) written
          r

  abbrev pub noted_display : DisplaySaved × DisplayRuntime → DisplayRuntime
  noted_display (display_unsaved, r) = record r { display_error = "account_display_write_failed" }
  noted_display (other, r) = r

  unfoldable pub refresh_account_display :
      Option (List DisplayAuth) → Bool → DisplayRuntime → DisplayRuntime
  refresh_account_display files written r =
      if not (clone_account_display r.display).display_enabled
      then r
      else noted_display (enable_with (load_account_display_details h files) written r)
