-- ===== src/Display/Names.antt =====
-- account_display.go: `safeDisplayName` and `loadAccountDisplayDetails`. A text is a list of code
-- points; its size in bytes is that of its UTF-8.
use Prim.Native.Char.{code}
use codex_daily_prewarm.Base.{
  Bool, List, Map, Option, String, [], if◌then◌else◌, insert, ltb, none, not, some, str_eq, suc,
  zero, ℕ, ◌&&◌, ◌+◌, ◌==◌, ◌||◌, ◌∷◌,
}
use codex_daily_prewarm.Run.Host.{Auth}
use codex_daily_prewarm.Run.Inventory.{safe_account_type}
use codex_daily_prewarm.Text.{is_blank, trim_space}

abbrev pub char_bytes : ℕ → ℕ
char_bytes c = if ltb c 0x80 then 1 else if ltb c 0x800 then 2 else if ltb c 0x10000 then 3 else 4

-- `len(name)`.
abbrev pub byte_length : String → ℕ
byte_length String.[] = 0
byte_length (String.◌∷◌ letter text) = char_bytes (code letter) + byte_length text

abbrev pub is_control : ℕ → Bool
is_control c = ltb c 32 || (c == 127)

-- `strings.Map`, which drops the control characters.
unfoldable pub without_controls : String → String
without_controls String.[] = ""
without_controls (String.◌∷◌ letter text) =
    let rest = without_controls text in
    if is_control (code letter) then rest else String.◌∷◌ letter rest

-- `string(r[:len(r)-1])`.
abbrev pub drop_last : String → String
drop_last String.[] = ""
drop_last (String.◌∷◌ letter String.[]) = ""
drop_last (String.◌∷◌ letter (String.◌∷◌ next text)) =
    String.◌∷◌ letter (drop_last (String.◌∷◌ next text))

abbrev pub char_count : String → ℕ
char_count String.[] = 0
char_count (String.◌∷◌ letter text) = char_count text + 1

-- The loop drops a character in each round, so that the number of characters is enough fuel.
unfoldable pub shortened : ℕ → String → String
shortened zero name = name
shortened (suc fuel) name =
    let rest = shortened fuel (drop_last name) in if ltb 128 (byte_length name) then rest else name

unfoldable pub safe_display_name : String → String
safe_display_name name =
    let printable = without_controls (trim_space name) in shortened (char_count printable) printable

pub record AccountDisplayDetail : Type 0 where
  pub display_name : String
  pub display_type : String

-- `pluginapi.HostAuthFileEntry`, as far as the displays read it.
pub record DisplayAuth : Type 0 where
  pub base_auth : Auth
  pub label : String
  pub email : String
  pub file_name : String

-- `plan_type` answers for an index with the plan in the credential, `none` where the call or the
-- decoding fails. `base_name` is `filepath.Base`, `equal_fold` is `strings.EqualFold`.
pub record DisplayHost : Type 0 where
  pub plan_type : String → Option String
  pub base_name : String → String
  pub equal_fold : String → String → Bool
  pub digest_of : String → String
  pub lower_word : String → String

module _ (h : DisplayHost) where
  abbrev pub type_of_plan : Option String → String
  type_of_plan none = ""
  type_of_plan (some plan) = safe_account_type h.lower_word plan

  unfoldable pub account_display_plan : Auth → String
  account_display_plan auth =
      let known = safe_account_type h.lower_word auth.auth_account_type in
      if not (str_eq known "")
      then known
      else if is_blank auth.auth_index
      then ""
      else type_of_plan (h.plan_type auth.auth_index)

  abbrev pub file_base : String → String
  file_base name =
      let last = h.base_name (trim_space name) in
      if str_eq last "." || str_eq last "/" then "" else last

  unfoldable pub raw_display_name : DisplayAuth → String
  raw_display_name auth =
      if not (str_eq (trim_space auth.label) "")
      then trim_space auth.label
      else if not (str_eq (trim_space auth.email) "")
      then trim_space auth.email
      else file_base auth.file_name

  abbrev pub is_displayed : DisplayAuth → Bool
  is_displayed auth =
      (h.equal_fold auth.base_auth.provider "codex"
        || h.equal_fold auth.base_auth.auth_kind "codex")
      && not (str_eq (trim_space auth.base_auth.auth_id) "")

  abbrev pub detail_of : DisplayAuth → AccountDisplayDetail
  detail_of auth = record {
    display_name = safe_display_name (raw_display_name auth);
    display_type = account_display_plan auth.base_auth;
  }

  unfoldable pub details_from :
      List DisplayAuth → Map AccountDisplayDetail → Map AccountDisplayDetail
  details_from [] details = details
  details_from (auth ∷ rest) details = details_from rest (
      if is_displayed auth
      then insert (h.digest_of (trim_space auth.base_auth.auth_id)) (detail_of auth) details
      else details)

  -- `none` where the list of files is not there or does not decode.
  abbrev pub load_account_display_details :
      Option (List DisplayAuth) → Option (Map AccountDisplayDetail)
  load_account_display_details none = none
  load_account_display_details (some files) = some (details_from files [])
