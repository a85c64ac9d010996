-- ===== src/Model/Answer.antt =====
-- runtime.go: what is read from an answer or an error of the host. A body comes with its length and
-- with what `json.Unmarshal` makes of it for the struct that each function asks for, `none` where
-- the text is not JSON or does not fit the struct.
use codex_daily_prewarm.Base.{
  Bool, List, Option, String, any, false, if◌then◌else◌, leb, leb_ℤ, ltb, ltb_ℤ, negsuc, none, not,
  pos, some, str_append, str_eq, ℕ, ℤ, ◌&&◌, ◌*◌, ◌==◌, ◌||◌,
}
use codex_daily_prewarm.Clock.{Time, of_unix}
use codex_daily_prewarm.Quota.Headers.{HeaderFields, ResetFields, reset_after}
use codex_daily_prewarm.Text.{is_blank, trim_space}

-- `error.code` and `error.type`; `error.type` and `type`; `error.resets_at` and
-- `error.resets_in_seconds`.
pub record ErrorBody : Type 0 where
  pub error_size : ℕ
  pub error_codes : Option (String × String)
  pub error_types : Option (String × String)
  pub error_resets : Option (ℤ × ℤ)

-- `message.content`: a text, a list of parts, or anything else.
pub data Content : Type 0 where
  text_content : String → Content
  part_list : ℕ → Content
  other_content : Content

pub record ModelBody : Type 0 where
  pub body_status : String
  pub choices : List Content
  pub outputs : List (List String)

pub record ModelAnswer : Type 0 where
  pub answer_status : ℤ
  pub reset_fields : ResetFields
  pub primary_fields : HeaderFields
  pub secondary_fields : HeaderFields
  pub used_header : String
  pub body_size : ℕ
  pub body : Option ModelBody
  pub body_as_error : ErrorBody

-- The outcomes of `callHost`: a callback error with a status and a message, any other error, a reply
-- that does not decode, a reply.
pub data HostReply : Type 0 where
  callback_error : ℤ → ErrorBody → HostReply
  other_error : HostReply
  undecodable : HostReply
  answered : ModelAnswer → HostReply

abbrev pub is_status : ℤ → ℕ → Bool
is_status (pos n) k = n == k
is_status (negsuc n) k = false

-- Lower case, for the ASCII words that are looked for.
abbrev pub is_unsupported_code : (String → String) → String → Bool
is_unsupported_code lower text =
    let t = lower (trim_space text) in
    str_eq t "model_not_found" || str_eq t "unsupported_model" || str_eq t "model_not_supported"

-- `strings.ToLower` is the argument `lower`.
unfoldable pub explicit_unsupported_model : (String → String) → ℤ → ErrorBody → Bool
explicit_unsupported_model lower status b =
    if not (is_status status 400) && not (is_status status 404) && not (is_status status 422)
    then false
    else if b.error_size == 0 || ltb (16 * 1024) b.error_size
    then false
    else elim b.error_codes [
      | none ↦ false
      | some (code', type') ↦ is_unsupported_code lower code' || is_unsupported_code lower type'
    ]

abbrev pub has_content : Content → Bool
has_content (text_content s) = not (is_blank s)
has_content (part_list n) = ltb 0 n
has_content other_content = false

unfoldable pub valid_model_response : (String → String) → ℕ → Option ModelBody → Bool
valid_model_response lower size body =
    if size == 0 || ltb (4 * 1024 * 1024) size then false else elim body [
      | none ↦ false
      | some b ↦
          any has_content b.choices
          || any (any (λ t. not (is_blank t))) b.outputs
          || str_eq (lower (trim_space b.body_status)) "completed"
    ]

unfoldable pub upstream_reset_at : ErrorBody → Time → Time
upstream_reset_at b now =
    if b.error_size == 0 || ltb (16 * 1024) b.error_size then 0 else elim b.error_resets [
      | none ↦ 0
      | some (at, seconds) ↦
          if ltb_ℤ (pos 0) at
          then of_unix at
          else reset_after (some seconds) (pos 1) (pos (45 * 24 * 60 * 60)) now
    ]

-- `fmt.Sprintf("http_%d", status)`, with the printing of integers as the argument `show`.
abbrev pub status_error_code : (ℤ → String) → ℤ → String
status_error_code show status =
    if leb_ℤ status (pos 0) then "model_response_invalid" else str_append "http_" (show status)

abbrev pub limit_reached : ErrorBody → Bool
limit_reached b = elim b.error_types [
  | none ↦ false
  | some (inner, outer) ↦ str_eq inner "usage_limit_reached" || str_eq outer "usage_limit_reached"
]

unfoldable pub upstream_error_code : (ℤ → String) → ErrorBody → ℤ → String
upstream_error_code show b status =
    if is_status status 429 && leb b.error_size (16 * 1024) && limit_reached b
    then "usage_limit_reached"
    else status_error_code show status

abbrev pub safe_to_retry_status : ℤ → Bool
safe_to_retry_status status =
    is_status status 408 || is_status status 502 || is_status status 503 || is_status status 504
