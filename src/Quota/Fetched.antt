-- ===== src/Quota/Fetched.antt =====
-- quota_fetch.go: what stands behind an observation of `fetchUsage`, and behind none.
use mathlib.Core.Path.{subst}
use codex_daily_prewarm.Base.{
  Bool, Bool-cases, Option, String, ap, clash, eq_iff, false, if-both, if-false, if-true, inl, inr,
  ltb, none, not, option-both, refl, some, str_append-ne_empty, str_eq, sym, true, ℕ, ℤ, ◌==◌, ◌^◌,
  ◌||◌, ◌≡◌, ◌≢◌, ◌⊎◌,
}
use codex_daily_prewarm.Clock.{Time}
use codex_daily_prewarm.Config.Parse.{given}
use codex_daily_prewarm.Model.Answer.{is_status}
use codex_daily_prewarm.Quota.{
  QuotaObservation, QuotaWindow, five_hour_minutes, no_observation, weekly_minutes,
}
use codex_daily_prewarm.Quota.Fetch.{
  Credential, CredentialReply, UsageHost, UsageReply, credential, fetch_usage, fetched_usage,
  garbled_credential, garbled_usage, is_complete, no_credential, no_usage, read_usage, usage_answer,
  usage_with, with_credential,
}
use codex_daily_prewarm.Quota.Usage.{
  Fetched, UsageRateLimit, decoded_observation, failed, observed, parse_usage_body,
  usage_quota_window, windows_observation, with_allowed,
}
use codex_daily_prewarm.Text.{is_blank}

abbrev HasReason : Fetched → Type 0
HasReason (observed o) = Unit {0}
HasReason (failed reason) = reason ≢ ""

windows_observation-HasReason :
    (five week : Option QuotaWindow) (allowed : Bool) (now : Time)
    → HasReason (windows_observation five week allowed now)
unfolding windows_observation
windows_observation-HasReason (some five) (some week) allowed now = tt
windows_observation-HasReason (some five) none allowed now = λ e. cc
windows_observation-HasReason none week allowed now = λ e. cc

parse_usage_body-HasReason :
    (size : ℕ) (limit : Option UsageRateLimit) (now : Time)
    → HasReason (parse_usage_body size limit now)
unfolding parse_usage_body decoded_observation
parse_usage_body-HasReason size limit now =
    if-both HasReason (size == 0 || ltb (2 ^ 20) size) _ _ (λ e. cc)
      (option-both HasReason (with_allowed limit) (failed "invalid_usage_payload")
        (λ p.
          windows_observation (usage_quota_window p.0.primary_window five_hour_minutes now)
            (usage_quota_window p.0.secondary_window weekly_minutes now) p.1 now)
        (λ e. cc) (λ p. windows_observation-HasReason _ _ p.1 now))

-- A query without an observation, and why.
pub record IsRefused (o : QuotaObservation) (reason : String) : Type 0 where
  pub has_reason : reason ≢ ""
  pub without_observation : o ≡ no_observation

refused : (reason : String) → str_eq reason "" ≡ false → IsRefused no_observation reason
refused reason e = record {
  has_reason = λ same. clash (str_eq reason "") ((eq_iff reason "").1 same) e;
  without_observation = refl;
}

module _ {W : Type 0} (h : UsageHost W) where
  -- An observation that was read from the answer, with the status 200, to a request with the
  -- complete credential of the index.
  pub record IsAnswered (auth_index : String) (w : W) (o : QuotaObservation) : Type 0 where
    pub has_index : is_blank auth_index ≡ false
    pub its_credential : Credential
    pub whole_credential : is_complete its_credential ≡ true
    pub given_credential : (h.get_credential auth_index w).0 ≡ credential (some its_credential)
    pub its_status : ℤ
    pub its_size : ℕ
    pub its_limit : Option UsageRateLimit
    pub usage_reply :
        (h.get_usage its_credential (h.get_credential auth_index w).1).0
        ≡ usage_answer its_status its_size its_limit
    pub good_status : is_status its_status 200 ≡ true
    pub parsed :
        parse_usage_body its_size its_limit
          (h.usage_clock (h.get_usage its_credential (h.get_credential auth_index w).1).1)
        ≡ observed o

  abbrev IsRead : String → W → QuotaObservation → String → Type 0
  IsRead auth_index w o reason = ((reason ≡ "") × IsAnswered auth_index w o) ⊎ IsRefused o reason

  module _ (auth_index : String) (w : W) (given : is_blank auth_index ≡ false) where
    fetched-IsRead :
        (c : Credential) (status : ℤ) (size : ℕ) (limit : Option UsageRateLimit) (f : Fetched)
        → is_complete c ≡ true
        → (h.get_credential auth_index w).0 ≡ credential (some c)
        → (h.get_usage c (h.get_credential auth_index w).1).0 ≡ usage_answer status size limit
        → is_status status 200 ≡ true
        → parse_usage_body size limit
            (h.usage_clock (h.get_usage c (h.get_credential auth_index w).1).1)
          ≡ f
        → IsRead auth_index w (fetched_usage f).0 (fetched_usage f).1
    fetched-IsRead c status size limit (observed o) whole got reply good e = inl (
      refl,
      record {
        has_index = given;
        its_credential = c;
        whole_credential = whole;
        given_credential = got;
        its_status = status;
        its_size = size;
        its_limit = limit;
        usage_reply = reply;
        good_status = good;
        parsed = e;
      },
    )
    fetched-IsRead c status size limit (failed reason) whole got reply good e = inr (record {
      has_reason = subst HasReason e (parse_usage_body-HasReason size limit _);
      without_observation = refl;
    })

    read_usage-IsRead :
        (c : Credential) (reply : UsageReply)
        → is_complete c ≡ true
        → (h.get_credential auth_index w).0 ≡ credential (some c)
        → (h.get_usage c (h.get_credential auth_index w).1).0 ≡ reply
        → IsRead auth_index w
            (read_usage h reply
              (h.usage_clock (h.get_usage c (h.get_credential auth_index w).1).1)).0
            (read_usage h reply
              (h.usage_clock (h.get_usage c (h.get_credential auth_index w).1).1)).1
    unfolding read_usage
    read_usage-IsRead c no_usage whole got e = inr (refused "usage_transport_failed" refl)
    read_usage-IsRead c garbled_usage whole got e = inr (refused "usage_response_invalid" refl)
    read_usage-IsRead c (usage_answer status size limit) whole got e =
        let now = h.usage_clock (h.get_usage c (h.get_credential auth_index w).1).1 in
        let P : QuotaObservation × String → Type 0 = λ p. IsRead auth_index w p.0 p.1 in
        elim (Bool-cases (is_status status 200)) [
          | inl good ↦ subst P (sym (if-false (not (is_status status 200)) _ _ (ap not good))) (
              fetched-IsRead c status size limit (parse_usage_body size limit now) whole got e good
                refl)
          | inr other ↦ subst P (sym (if-true (not (is_status status 200)) _ _ (ap not other))) (
              inr (record {
                has_reason = str_append-ne_empty "usage_http_" (h.status_text status) refl;
                without_observation = refl;
              }))
        ]

    with_credential-IsRead :
        (reply : CredentialReply)
        → (h.get_credential auth_index w).0 ≡ reply
        → IsRead auth_index w
            (with_credential h reply (h.get_credential auth_index w).1).0
            (with_credential h reply (h.get_credential auth_index w).1).1
    unfolding with_credential usage_with
    with_credential-IsRead no_credential e = inr (refused "credential_unavailable" refl)
    with_credential-IsRead garbled_credential e = inr (refused "credential_invalid" refl)
    with_credential-IsRead (credential none) e = inr (refused "credential_incomplete" refl)
    with_credential-IsRead (credential (some c)) e = elim (Bool-cases (is_complete c)) [
      | inl whole ↦
          subst
            (λ o.
              IsRead auth_index w (usage_with h o (h.get_credential auth_index w).1).0
                (usage_with h o (h.get_credential auth_index w).1).1)
            (sym (if-true (is_complete c) (some c) none whole)) (read_usage-IsRead c _ whole e refl)
      | inr part ↦
          subst
            (λ o.
              IsRead auth_index w (usage_with h o (h.get_credential auth_index w).1).0
                (usage_with h o (h.get_credential auth_index w).1).1)
            (sym (if-false (is_complete c) (some c) none part))
            (inr (refused "credential_incomplete" refl))
    ]

  -- For every answer of the host: either the reason of `fetchUsage` is empty and its observation was
  -- read from an answer with the status 200 to a request that was made with the complete credential
  -- of an index that is not blank, or there is a reason and the observation is the empty one.
  pub fetch_usage-IsRead :
      (auth_index : String) (w : W)
      → (((fetch_usage h auth_index w).1 ≡ "")
          × IsAnswered auth_index w (fetch_usage h auth_index w).0)
        ⊎ IsRefused (fetch_usage h auth_index w).0 (fetch_usage h auth_index w).1
  unfolding fetch_usage
  fetch_usage-IsRead auth_index w =
      let P : QuotaObservation × String × W → Type 0 = λ p. IsRead auth_index w p.0 p.1 in
      elim (Bool-cases (is_blank auth_index)) [
        | inl blank ↦
            subst P (sym (if-true (is_blank auth_index) _ _ blank))
              (inr (refused "auth_index_missing" refl))
        | inr given ↦
            subst P (sym (if-false (is_blank auth_index) _ _ given))
              (with_credential-IsRead auth_index w given _ refl)
      ]
