-- ===== src/Bark/Delivered.antt =====
-- bark.go: what a result of `sendBarkWith` says.
use Prim.Native.Char.{code}
use text.Mathlib.TextLemmas.{cons-append}
use codex_daily_prewarm.Base.{
  Bool-cases, Option, String, ap, arith, bind-eq_some, both-true, false, if-both, if-false, if-true,
  if◌then◌else◌, inl, inr, kept-eq_some, negsuc, none, not, pos, refl, some, str_append, str_eq,
  sym, true, ℕ, ℤ, ◌&&◌, ◌<◌, ◌==◌, ◌∙◌, ◌≡◌, ◌≢◌, ◌≤◌, ◌⊎◌,
}
use codex_daily_prewarm.Bark.Send.{
  BarkHost, ParsedUrl, Push, UrlParser, bark_push_target, bark_result, is_device_key,
  is_escaped_key, is_keyed_https, is_success_status, key_path, push_to, send_bark_with, send_to,
}
use codex_daily_prewarm.Text.{trim_space}

-- Where a push may go: to the `/push` of an HTTPS URL without user, query and fragment, with a key
-- that cannot be taken for a part of a URL.
pub record IsTarget (parser : UrlParser) (raw : String) (url key : String) : Type 0 where
  pub its_url : ParsedUrl
  pub its_parse : parser.parse_url (trim_space raw) ≡ some its_url
  pub keyed_https : is_keyed_https its_url ≡ true
  pub whole_key : is_device_key key ≡ true
  pub its_key : parser.path_unescape (key_path its_url) ≡ some key
  pub its_push : url ≡ its_url.push_text

-- The answer has a status from 200 to 299 and the code 200.
pub record IsAcknowledged (reply : Option (ℤ × Option ℤ)) : Type 0 where
  pub reply_status : ℕ
  pub its_reply : reply ≡ some (pos reply_status, some (pos 200))
  pub from_200 : 200 ≤ reply_status
  pub below_300 : reply_status < 300

-- The result says that the message was accepted exactly when the answer does.
abbrev pub IsResult : Option (ℤ × Option ℤ) → String → Type 0
IsResult reply result =
    ((result ≡ "accepted") × IsAcknowledged reply)
    ⊎ ((result ≢ "accepted") × ¬ IsAcknowledged reply)

-- Without a request, or with one, which has been accepted exactly when this is the result.
pub data IsDelivery {W : Type 0} (h : BarkHost W) (bark_url title text level : String) (w : W)
    (p : String × W) : Type 0 where
  no_push : p.1 ≡ w → p.0 ≢ "accepted" → IsDelivery h bark_url title text level w p
  pushed_once :
      (push : Push)
      → IsTarget h.urls bark_url push.push_url push.device_key
      → push.push_title ≡ title
      → push.push_body ≡ text
      → p.1 ≡ (h.send_push push w).1
      → IsResult (h.send_push push w).0 p.0
      → IsDelivery h bark_url title text level w p

first_code : String → ℕ
first_code String.[] = 0
first_code (String.◌∷◌ letter text) = code letter

not_accepted : (result : String) → result ≡ "not_accepted" → result ≢ "accepted"
not_accepted result e k = cc

http_result : (text : String) → str_append "http_" text ≢ "accepted"
unfolding first_code
http_result text e =
    let same : 104 ≡ 97 = sym (ap first_code (cons-append "h" "ttp_" text)) ∙ ap first_code e in
    omega (arith, same)

acknowledged-result :
    (show : ℤ → String) (status : ℕ)
    → 200 ≤ status
    → status < 300
    → bark_result show (some (pos status, some (pos 200))) ≡ "accepted"
acknowledged-result show status from below = ground (arith, from, below)

IsAcknowledged-result :
    (show : ℤ → String) (reply : Option (ℤ × Option ℤ))
    → IsAcknowledged reply
    → bark_result show reply ≡ "accepted"
IsAcknowledged-result show reply t =
    ap (bark_result show) t.its_reply
    ∙ acknowledged-result show t.reply_status t.from_200 t.below_300

other-IsResult :
    (show : ℤ → String) (reply : Option (ℤ × Option ℤ))
    → bark_result show reply ≢ "accepted"
    → IsResult reply (bark_result show reply)
other-IsResult show reply other = inr (other, λ t. other (IsAcknowledged-result show reply t))

accepted-IsResult :
    (show : ℤ → String) (reply : Option (ℤ × Option ℤ))
    → bark_result show reply ≡ "accepted"
    → IsAcknowledged reply
    → IsResult reply (bark_result show reply)
accepted-IsResult show reply e t = inl (e, t)

code-IsAcknowledged :
    (status n : ℕ)
    → is_success_status (pos status) ≡ true
    → (n == 200) ≡ true
    → IsAcknowledged (some (pos status, some (pos n)))
code-IsAcknowledged status n good e = record {
  reply_status = status;
  its_reply = ap (λ k. some (pos status, some (pos k))) (ground (arith, e));
  from_200 = ground (arith, good);
  below_300 = ground (arith, good);
}

code-result :
    (show : ℤ → String) (status n : ℕ)
    → is_success_status (pos status) ≡ true
    → (n == 200) ≡ true
    → bark_result show (some (pos status, some (pos n))) ≡ "accepted"
code-result show status n good e =
    if-false (not (is_success_status (pos status))) _ _ (ap not good) ∙ if-true (n == 200) _ _ e

other_code-result :
    (show : ℤ → String) (status n : ℕ)
    → is_success_status (pos status) ≡ true
    → (n == 200) ≡ false
    → bark_result show (some (pos status, some (pos n))) ≡ "not_accepted"
other_code-result show status n good e =
    if-false (not (is_success_status (pos status))) _ _ (ap not good) ∙ if-false (n == 200) _ _ e

negative_status : (k : ℕ) → not (is_success_status (negsuc k)) ≡ true
negative_status k = ground arith

bark_result-IsResult :
    (show : ℤ → String) (reply : Option (ℤ × Option ℤ)) → IsResult reply (bark_result show reply)
bark_result-IsResult show none = other-IsResult show none (λ e. cc)
bark_result-IsResult show (some (negsuc k, ack)) =
    let same : bark_result show (some (negsuc k, ack)) ≡ str_append "http_" (show (negsuc k)) =
      if-true (not (is_success_status (negsuc k))) _ _ (negative_status k) in
    other-IsResult show (some (negsuc k, ack)) (λ e. http_result (show (negsuc k)) (sym same ∙ e))
bark_result-IsResult show (some (pos status, none)) =
    other-IsResult show (some (pos status, none)) (
      if-both (λ s. s ≢ "accepted") (not (is_success_status (pos status))) _ "not_accepted"
        (http_result (show (pos status))) (λ e. cc))
bark_result-IsResult show (some (pos status, some (negsuc k))) =
    other-IsResult show (some (pos status, some (negsuc k))) (
      if-both (λ s. s ≢ "accepted") (not (is_success_status (pos status))) _ "not_accepted"
        (http_result (show (pos status))) (λ e. cc))
bark_result-IsResult show (some (pos status, some (pos n))) =
    elim (Bool-cases (is_success_status (pos status))) [
      | inr out ↦ other-IsResult show (some (pos status, some (pos n))) (λ e.
          http_result (show (pos status))
            (sym (if-true (not (is_success_status (pos status))) _ _ (ap not out)) ∙ e))
      | inl good ↦ elim (Bool-cases (n == 200)) [
        | inl e ↦
            accepted-IsResult show (some (pos status, some (pos n)))
              (code-result show status n good e) (code-IsAcknowledged status n good e)
        | inr e ↦
            other-IsResult show (some (pos status, some (pos n)))
              (not_accepted _ (other_code-result show status n good e))
      ]
    ]

module _ {W : Type 0} (h : BarkHost W) (bark_url title text level : String) (w : W) where
  bark_push_target-IsTarget :
      (url key : String)
      → bark_push_target h.urls bark_url ≡ some (url, key)
      → IsTarget h.urls bark_url url key
  unfolding bark_push_target
  bark_push_target-IsTarget url key e =
      let (u, parse, e1) = bind-eq_some (h.urls.parse_url (trim_space bark_url)) _ (url, key) e in
      let (checked, kept, e2) =
        bind-eq_some (if is_keyed_https u && is_escaped_key (key_path u) then some u else none) _
          (url, key) e1 in
      let (valid, same) =
        kept-eq_some (is_keyed_https u && is_escaped_key (key_path u)) u checked kept in
      let (found, unescaped, e3) =
        bind-eq_some (h.urls.path_unescape (key_path checked)) _ (url, key) e2 in
      let (whole, pair) =
        kept-eq_some (is_device_key found) (checked.push_text, found) (url, key) e3 in
      let same_key : found ≡ key = ap (λ p. p.1) pair in
      record {
        its_url = u;
        its_parse = parse;
        keyed_https = (both-true (is_keyed_https u) _ valid).0;
        whole_key = sym (ap is_device_key same_key) ∙ whole;
        its_key = ap (λ v. h.urls.path_unescape (key_path v)) same ∙ unescaped ∙ ap some same_key;
        its_push = sym (ap (λ p. p.0) pair) ∙ ap (λ v. v.push_text) (sym same);
      }

  send_to-IsDelivery :
      (target : Option (String × String))
      → bark_push_target h.urls bark_url ≡ target
      → IsDelivery h bark_url title text level w (send_to h target title text level w)
  unfolding push_to
  send_to-IsDelivery none e = no_push refl (λ same. cc)
  send_to-IsDelivery (some (url, key)) e =
      let push : Push = record {
        push_url = url;
        device_key = key;
        push_title = title;
        push_body = text;
        push_level = level;
      } in
      if-both (IsDelivery h bark_url title text level w) (h.encodes push) _
        ("request_encoding_failed", w)
        (pushed_once push (bark_push_target-IsTarget url key e) refl refl refl
          (bark_result-IsResult h.show_status (h.send_push push w).0))
        (no_push refl (λ same. cc))

  -- `sendBarkWith` sends nothing and does not say that the message was accepted, or it sends the
  -- message once, to the `/push` of an HTTPS URL without user, query and fragment and with a key that
  -- cannot be taken for a part of a URL; and then it says "accepted" exactly if the answer has a status
  -- from 200 to 299 and the code 200.
  pub send_bark_with-IsDelivery :
      IsDelivery h bark_url title text level w (send_bark_with h bark_url title text level w)
  unfolding send_bark_with
  send_bark_with-IsDelivery =
      if-both (IsDelivery h bark_url title text level w) (str_eq bark_url "") ("not_configured", w)
        _ (no_push refl (λ same. cc)) (send_to-IsDelivery (bark_push_target h.urls bark_url) refl)
