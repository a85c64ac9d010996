-- ===== src/Bark/Send.antt =====
-- bark.go: `barkPushTarget` and `sendBarkWith`. The parser of URLs is a library's.
use codex_daily_prewarm.Base.{
  Bool, Option, String, any, false, if◌then◌else◌, ltb_ℤ, none, not, pos, some, str_append, str_eq,
  ℕ, ℤ, ◌&&◌, ◌==◌, ◌>>=◌, ◌||◌,
}
use codex_daily_prewarm.Model.Answer.{is_status}
use codex_daily_prewarm.Text.{codes, trim_left_slashes, trim_slashes, trim_space}

-- What `url.Parse` gives, and `push_text`, the text of the URL with the path `/push`.
pub record ParsedUrl : Type 0 where
  pub scheme : String
  pub host : String
  pub has_user : Bool
  pub fragment : String
  pub raw_query : String
  pub opaque_part : String
  pub escaped_path : String
  pub push_text : String

pub record UrlParser : Type 0 where
  pub parse_url : String → Option ParsedUrl
  pub path_unescape : String → Option String

-- `strings.ContainsAny(text, …)` for the characters that pass a test.
abbrev pub has_char : (ℕ → Bool) → String → Bool
has_char p text = any p (codes text)

abbrev pub is_slash : ℕ → Bool
is_slash c = c == 47

-- The characters of "/?#".
abbrev pub ends_key : ℕ → Bool
ends_key c = (c == 47) || (c == 63) || (c == 35)

abbrev pub is_keyed_https : ParsedUrl → Bool
is_keyed_https u =
    str_eq u.scheme "https"
    && not (str_eq u.host "")
    && not u.has_user
    && str_eq u.fragment ""
    && str_eq u.raw_query ""
    && str_eq u.opaque_part ""

abbrev pub is_escaped_key : String → Bool
is_escaped_key text = not (str_eq text "") && not (has_char is_slash text)

abbrev pub is_device_key : String → Bool
is_device_key text = not (str_eq text "") && not (has_char ends_key text)

-- `strings.Trim(u.EscapedPath(), "/")`.
abbrev pub key_path : ParsedUrl → String
key_path u = trim_slashes (trim_left_slashes u.escaped_path)

-- The URL of the push and the device key, `none` for `errInvalidBarkURL`.
unfoldable pub bark_push_target : UrlParser → String → Option (String × String)
bark_push_target parser raw = do
  u ← parser.parse_url (trim_space raw)
  checked ← if is_keyed_https u && is_escaped_key (key_path u) then some u else none
  key ← parser.path_unescape (key_path checked)
  if is_device_key key then some (checked.push_text, key) else none

-- A message with its level, to a device.
pub record Push : Type 0 where
  pub push_url : String
  pub device_key : String
  pub push_title : String
  pub push_body : String
  pub push_level : String

-- What sending answers: `none` for an error, else the status with `code` of the body, `none` where
-- the body does not decode. `encodes` says that `json.Marshal` gives no error.
pub record BarkHost (W : Type 0) : Type 0 where
  pub urls : UrlParser
  pub encodes : Push → Bool
  pub send_push : Push → W → Option (ℤ × Option ℤ) × W
  pub show_status : ℤ → String

abbrev pub is_success_status : ℤ → Bool
is_success_status status = not (ltb_ℤ status (pos 200)) && ltb_ℤ status (pos 300)

abbrev pub acknowledged : Option ℤ → Bool
acknowledged none = false
acknowledged (some n) = is_status n 200

abbrev pub bark_result : (ℤ → String) → Option (ℤ × Option ℤ) → String
bark_result show none = "transport_failed"
bark_result show (some (status, ack)) =
    if not (is_success_status status)
    then str_append "http_" (show status)
    else if acknowledged ack
    then "accepted"
    else "not_accepted"

module _ {W : Type 0} (h : BarkHost W) where
  unfoldable pub push_to : Push → W → String × W
  push_to push w =
      let (reply, w') = h.send_push push w in
      if h.encodes push
      then (bark_result h.show_status reply, w')
      else ("request_encoding_failed", w)

  abbrev pub send_to : Option (String × String) → String → String → String → W → String × W
  send_to none title text level w = ("invalid_bark_url", w)
  send_to (some (url, key)) title text level w =
      push_to
        (record {
          push_url = url;
          device_key = key;
          push_title = title;
          push_body = text;
          push_level = level;
        })
        w

  unfoldable pub send_bark_with : String → String → String → String → W → String × W
  send_bark_with bark_url title text level w =
      if str_eq bark_url ""
      then ("not_configured", w)
      else send_to (bark_push_target h.urls bark_url) title text level w
