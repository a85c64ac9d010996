-- ===== src/Quota/Fetch.antt =====
-- quota_fetch.go: `fetchUsage`. The two host calls and the decoding of their answers are the record
-- UsageHost over a world `W`.
use codex_daily_prewarm.Base.{
  Bool, Option, String, if◌then◌else◌, none, not, some, str_append, str_eq, ℕ, ℤ, ◌&&◌,
}
use codex_daily_prewarm.Clock.{Time}
use codex_daily_prewarm.Model.Answer.{is_status}
use codex_daily_prewarm.Quota.{QuotaObservation, no_observation}
use codex_daily_prewarm.Quota.Confirm.{Outcome}
use codex_daily_prewarm.Quota.Usage.{Fetched, UsageRateLimit, failed, observed, parse_usage_body}
use codex_daily_prewarm.Text.{is_blank}

pub record Credential : Type 0 where
  pub access_token : String
  pub account_id : String

-- The answer to the request for a credential: the call failed, its result did not decode, or what
-- the credential's own JSON decodes to.
pub data CredentialReply : Type 0 where
  no_credential : CredentialReply
  garbled_credential : CredentialReply
  credential : Option Credential → CredentialReply

-- The answer to the usage request: the call failed, its result did not decode, or the status with
-- the size and the decoded rate limit of the body.
pub data UsageReply : Type 0 where
  no_usage : UsageReply
  garbled_usage : UsageReply
  usage_answer : ℤ → ℕ → Option UsageRateLimit → UsageReply

pub record UsageHost (W : Type 0) : Type 0 where
  pub get_credential : String → W → CredentialReply × W
  pub get_usage : Credential → W → UsageReply × W
  pub usage_clock : W → Time
  pub status_text : ℤ → String

abbrev pub is_complete : Credential → Bool
is_complete c = not (str_eq c.access_token "") && not (str_eq c.account_id "")

abbrev pub complete_credential : Option Credential → Option Credential
complete_credential none = none
complete_credential (some c) = if is_complete c then some c else none

abbrev pub fetched_usage : Fetched → QuotaObservation × String
fetched_usage (observed o) = (o, "")
fetched_usage (failed reason) = (no_observation, reason)

module _ {W : Type 0} (h : UsageHost W) where
  unfoldable pub read_usage : UsageReply → Time → QuotaObservation × String
  read_usage no_usage now = (no_observation, "usage_transport_failed")
  read_usage garbled_usage now = (no_observation, "usage_response_invalid")
  read_usage (usage_answer status size limit) now =
      if not (is_status status 200)
      then (no_observation, str_append "usage_http_" (h.status_text status))
      else fetched_usage (parse_usage_body size limit now)

  unfoldable pub usage_with : Option Credential → W → Outcome W
  usage_with none w = (no_observation, "credential_incomplete", w)
  usage_with (some c) w =
      let (reply, w') = h.get_usage c w in
      let (o, reason) = read_usage reply (h.usage_clock w') in (o, reason, w')

  unfoldable pub with_credential : CredentialReply → W → Outcome W
  with_credential no_credential w = (no_observation, "credential_unavailable", w)
  with_credential garbled_credential w = (no_observation, "credential_invalid", w)
  with_credential (credential c) w = usage_with (complete_credential c) w

  unfoldable pub fetch_usage : String → W → Outcome W
  fetch_usage auth_index w =
      let (reply, w') = h.get_credential auth_index w in
      if is_blank auth_index
      then (no_observation, "auth_index_missing", w)
      else with_credential reply w'
