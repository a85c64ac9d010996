-- ===== src/StateFile/Write.antt =====
-- runtime.go: `writeState`, which writes a temporary file and renames it. A file holds `torn`
-- content, a whole text that a loss of power may still tear, or a whole text that is synced.
use codex_daily_prewarm.Base.{
  Bool, List, Option, [], false, if◌then◌else◌, none, not, some, true, ◌∷◌,
}
use codex_daily_prewarm.Data.State.{RuntimeState}
use codex_daily_prewarm.StateFile.Read.{StateText, state_version}

-- `state.Version = stateVersion`, and what the JSON text decodes to.
abbrev pub written_state : RuntimeState → StateText
written_state s = record { version = state_version; stated = s }

pub data Stored : Type 0 where
  torn : Stored
  unsynced : StateText → Stored
  synced : StateText → Stored

-- The file at the path and the temporary file.
pub record Disk : Type 0 where
  pub at_path : Option Stored
  pub temporary : Option Stored

pub data FileCall : Type 0 where
  make_dir : FileCall
  create_temp : FileCall
  chmod_temp : FileCall
  write_temp : FileCall
  sync_temp : FileCall
  close_temp : FileCall
  rename_temp : FileCall
  remove_temp : FileCall

abbrev pub synced_content : Option Stored → Option Stored
synced_content (some (unsynced text)) = some (synced text)
synced_content other = other

-- What a call that succeeds does.
abbrev pub effect : StateText → FileCall → Disk → Disk
effect text create_temp d = record d { temporary = some torn }
effect text write_temp d = record d { temporary = some (unsynced text) }
effect text sync_temp d = record d { temporary = synced_content d.temporary }
effect text rename_temp d = record { at_path = d.temporary; temporary = none }
effect text remove_temp d = record d { temporary = none }
effect text other d = d

-- A write that fails may have written a part.
abbrev pub failed_effect : FileCall → Disk → Disk
failed_effect write_temp d = record d { temporary = some torn }
failed_effect other d = d

-- `going` says that no call has failed, `passed` are the earlier disks, the latest first.
pub record Progress : Type 0 where
  pub going : Bool
  pub passed : List Disk
  pub disk_now : Disk

module _ (text : StateText) (answers : FileCall → Bool) where
  -- A call with its early return.
  unfoldable pub then_call : FileCall → Progress → Progress
  then_call c p =
      if not p.going
      then p
      else if answers c
      then record {
        going = true;
        passed = p.disk_now ∷ p.passed;
        disk_now = effect text c p.disk_now;
      }
      else record {
        going = false;
        passed = p.disk_now ∷ p.passed;
        disk_now = failed_effect c p.disk_now;
      }

  -- `defer os.Remove(tmpPath)`, whose error is dropped.
  unfoldable pub removed : Progress → Progress
  removed p = record {
    going = p.going;
    passed = p.disk_now ∷ p.passed;
    disk_now = if answers remove_temp then effect text remove_temp p.disk_now else p.disk_now;
  }

  unfoldable pub start_write : Disk → Progress
  start_write d =
      then_call create_temp
        (then_call make_dir (record { going = true; passed = []; disk_now = d }))

  unfoldable pub fill_and_rename : Progress → Progress
  fill_and_rename p =
      then_call rename_temp
        (then_call close_temp (then_call sync_temp (then_call write_temp (then_call chmod_temp p))))

  abbrev pub write_text : Disk → Progress
  write_text d = let p = start_write d in if p.going then removed (fill_and_rename p) else p

-- `encoded` says that `json.MarshalIndent` gives no error.
unfoldable pub write_state : RuntimeState → Bool → (FileCall → Bool) → Disk → Progress
write_state s encoded answers d =
    if encoded
    then write_text (written_state s) answers d
    else record { going = false; passed = []; disk_now = d }
