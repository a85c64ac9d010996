-- ===== src/Model/Discipline.antt =====
-- What `executeAccountWithGuard` does with its host.
use codex_daily_prewarm.Base.{
  Bool, Bool-cases, List, String, [], ap, arith, false, inl, inr, leb_ℤ, ltb, ltb_ℤ, not, pos, refl,
  str_eq, suc, true, zero, ℕ, ℤ, ◌&&◌, ◌*◌, ◌+◌, ◌||◌, ◌∙◌, ◌∷◌, ◌≡◌,
}
use codex_daily_prewarm.Clock.{Time, second}
use codex_daily_prewarm.Data.Config.{PluginConfig, PrewarmJob}
use codex_daily_prewarm.Data.Run.{AccountResult}
use codex_daily_prewarm.Model.Answer.{
  HostReply, answered, callback_error, other_error, safe_to_retry_status, undecodable,
  valid_model_response,
}
use codex_daily_prewarm.Model.Execute.{
  Host, Verdict, after_verdict, attempt_loop, execute_account_with_guard, interrupted, model_loop,
  models_of, refused, reply_verdict, rounds_of, settled,
}
use codex_daily_prewarm.Model.Logged.{
  Log, asked_leave, called_host, calls, grants, is_disciplined, is_open, is_uncertain, logged,
  waited_for,
}

-- The result agrees with the log.
pub record Agrees (res : AccountResult) (l : Log) : Type 0 where
  pub disciplined : is_disciplined l ≡ true
  pub counted : res.attempts ≡ grants l
  pub sent : res.request_sent ≡ ltb 0 (calls l)

-- A result that differs in other fields only.
abbrev SameCounts : AccountResult → AccountResult → Type 0
SameCounts a b = (a.attempts ≡ b.attempts) × (a.request_sent ≡ b.request_sent)

Agrees-same : (a b : AccountResult) (l : Log) → SameCounts a b → Agrees b l → Agrees a l
Agrees-same a b l (e, f) v = record {
  disciplined = v.disciplined;
  counted = e ∙ v.counted;
  sent = f ∙ v.sent;
}

module _ {W : Type 0} (h : Host W) where
  -- What a verdict keeps of the result; only a certain reply is refused.
  abbrev VerdictKeeps : HostReply → AccountResult → Verdict → Type 0
  VerdictKeeps reply res (settled res') = SameCounts res' res
  VerdictKeeps reply res (refused res' status u) =
      SameCounts res' res × (is_uncertain reply ≡ false)

  reply_verdict-VerdictKeeps :
      (reply : HostReply) (now : Time) (res : AccountResult)
      → VerdictKeeps reply res (reply_verdict h reply now res)
  unfolding reply_verdict
  reply_verdict-VerdictKeeps (callback_error status b) now res =
      elim (Bool-cases (ltb_ℤ (pos 0) status)) [
        | inl e ↦ rw e ((refl, refl), ground arith)
        | inr e ↦ rw e (refl, refl)
      ]
  reply_verdict-VerdictKeeps other_error now res = (refl, refl)
  reply_verdict-VerdictKeeps undecodable now res = (refl, refl)
  reply_verdict-VerdictKeeps (answered a) now res =
      elim (Bool-cases (
        leb_ℤ (pos 200) a.answer_status
        && ltb_ℤ a.answer_status (pos 300)
        && valid_model_response h.lower_case a.body_size a.body)) [
          | inl e ↦ rw e (refl, refl)
          | inr e ↦ rw e ((refl, refl), refl)
        ]

-- Between two attempts: the log may go on.
record Ready (res : AccountResult) (l : Log) : Type 0 where
  agrees : Agrees res l
  open_end : is_open l ≡ true

-- At the end of the attempts with one model: the log may go on if the model is unsupported.
record Finished {W : Type 0} (p : AccountResult × Bool × (W × Log)) : Type 0 where
  ends : Agrees p.0 p.2.1
  goes_on : p.1 ≡ true → is_open p.2.1 ≡ true

Finished-open :
    {W : Type 0} (res : AccountResult) (u : Bool) (w : W) (l : Log)
    → Agrees res l
    → is_open l ≡ true
    → Finished (res, u, (w, l))
Finished-open res u w l v o = record { ends = v; goes_on = λ _. o }

Agrees-wait :
    (res : AccountResult) (b : Bool) (l : Log)
    → is_open l ≡ true
    → Agrees res l
    → Agrees res (waited_for b ∷ l)
Agrees-wait res b l o v = record {
  disciplined = ground (arith, v.disciplined);
  counted = v.counted;
  sent = v.sent;
}

-- A reservation that was refused.
Agrees-denied :
    (res : AccountResult) (l : Log)
    → is_open l ≡ true
    → Agrees res l
    → Agrees res (asked_leave false ∷ l)
Agrees-denied res l o v = record {
  disciplined = ground (arith, v.disciplined);
  counted = v.counted;
  sent = v.sent;
}

-- A reservation that was granted is one attempt.
Agrees-granted :
    (res : AccountResult) (l : Log)
    → is_open l ≡ true
    → Agrees res l
    → Agrees (record res { attempts = res.attempts + 1 }) (asked_leave true ∷ l)
Agrees-granted res l o v = record {
  disciplined = ground (arith, v.disciplined);
  counted = omega (arith, v.counted);
  sent = v.sent;
}

-- A call behind a granted reservation.
Agrees-called :
    (res : AccountResult) (model : String) (reply : HostReply) (l : Log)
    → Agrees res (asked_leave true ∷ l)
    → Agrees (record res { request_sent = true }) (called_host model reply ∷ asked_leave true ∷ l)
Agrees-called res model reply l v = record {
  disciplined = v.disciplined;
  counted = v.counted;
  sent = ground arith;
}

is_open-called :
    (model : String) (reply : HostReply) (l : Log)
    → is_open (called_host model reply ∷ l) ≡ not (is_uncertain reply)
is_open-called model reply l = refl

module _ {W : Type 0} (h : Host W) (model : String) (retry_count : ℤ) where
  -- What the next round may be handed.
  abbrev GoesOn : (AccountResult → Bool → W × Log → AccountResult × Bool × (W × Log)) → Type 0
  GoesOn again =
      (res : AccountResult) (u : Bool) (w : W) (l : Log)
      → u ≡ false
      → Ready res l
      → Finished (again res u (w, l))

  after_verdict-Finished :
      (attempt : ℕ) (unsupported : Bool)
      (again : AccountResult → Bool → W × Log → AccountResult × Bool × (W × Log)) (v : Verdict)
      (w : W) (l : Log) (reply : HostReply) (res : AccountResult)
      → GoesOn again
      → unsupported ≡ false
      → VerdictKeeps (logged h) reply res v
      → is_open l ≡ not (is_uncertain reply)
      → Agrees res l
      → Finished (after_verdict (logged h) retry_count attempt unsupported again v (w, l))
  unfolding after_verdict logged
  after_verdict-Finished attempt u again (settled res') w l reply res step e keeps o v = record {
    ends = Agrees-same res' res l keeps v;
    goes_on = λ t. cc (t, e);
  }
  after_verdict-Finished attempt u again (refused res' status u') w l reply res step e keeps o v =
      let v' = Agrees-same res' res l keeps.0 v in
      let o' = o ∙ ap not keeps.1 in
      elim (Bool-cases
        (u' || leb_ℤ retry_count (pos attempt) || not (safe_to_retry_status status))) [
          | inl stop ↦ rw stop (Finished-open res' u' w l v' o')
          | inr more ↦ elim (Bool-cases (h.pause (pos ((attempt + 1) * 2 * second)) w).0) [
            | inl waited ↦
                rw (more, waited)
                  (step res' u' _ _ (ground (arith, more))
                    (record { agrees = Agrees-wait res' true l o' v'; open_end = refl }))
            | inr cut ↦
                rw (more, cut)
                  (Finished-open (interrupted (logged h) res') u' _ _
                    (Agrees-same _ res' _ (refl, refl) (Agrees-wait res' false l o' v')) refl)
          ]
        ]

  attempt_loop-Finished :
      (rounds attempt : ℕ) (res : AccountResult) (u : Bool) (w : W) (l : Log)
      → u ≡ false
      → Ready res l
      → Finished (attempt_loop (logged h) model retry_count rounds attempt res u (w, l))
  unfolding attempt_loop logged
  attempt_loop-Finished zero attempt res u w l e v = Finished-open res u w l v.agrees v.open_end
  attempt_loop-Finished (suc rounds) attempt res u w l e v =
      elim (Bool-cases (h.stop_requested w)) [
        | inl stop ↦ rw stop (
            Finished-open (interrupted (logged h) res) u w l
              (Agrees-same _ res l (refl, refl) v.agrees) v.open_end)
        | inr on ↦ elim (Bool-cases (h.reserve w).0) [
          | inr denied ↦
              rw (on, denied)
                (Finished-open _ u _ _
                  (Agrees-same _ res _ (refl, refl) (Agrees-denied res l v.open_end v.agrees)) refl)
          | inl leave ↦
              let counted = Agrees-granted res l v.open_end v.agrees in
              let reply = (h.call_host model (h.reserve w).1).0 in
              elim (Bool-cases (h.stop_requested (h.reserve w).1)) [
                | inl stop ↦
                    rw (on, leave, stop)
                      (Finished-open _ u _ _ (Agrees-same _ _ _ (refl, refl) counted) refl)
                | inr go ↦
                    rw (on, leave, go)
                      (after_verdict-Finished attempt u _ _ _ _ reply _
                        (attempt_loop-Finished rounds (attempt + 1)) e
                        (reply_verdict-VerdictKeeps (logged h) reply _ _)
                        (is_open-called model reply (asked_leave true ∷ l))
                        (Agrees-called _ model reply l counted))
              ]
        ]
      ]

module _ {W : Type 0} (h : Host W) (retry_count : ℤ) where
  -- The attempts with one model, from the result with its name.
  abbrev tried : String → Bool → AccountResult → W × Log → AccountResult × Bool × (W × Log)
  tried model fallback res p =
      attempt_loop (logged h) model retry_count (rounds_of (logged h) retry_count) 0
        (record res { result_model = model; fallback_used = fallback }) false p

  abbrev is_last : AccountResult × Bool × (W × Log) → Bool
  is_last p = p.0.response_received || not p.1 || str_eq p.0.error_code "interrupted"

  tried-Finished :
      (model : String) (fallback : Bool) (res : AccountResult) (w : W) (l : Log)
      → Ready res l
      → Finished (tried model fallback res (w, l))
  tried-Finished model fallback res w l v =
      attempt_loop-Finished h model retry_count _ 0 _ false w l refl
        (record { agrees = Agrees-same _ res l (refl, refl) v.agrees; open_end = v.open_end })

  model_loop-Agrees :
      (fallback : Bool) (models : List String) (res : AccountResult) (w : W) (l : Log)
      → Ready res l
      → let p = model_loop (logged h) retry_count fallback models res (w, l) in Agrees p.0 p.1.1
  unfolding model_loop logged
  model_loop-Agrees fallback [] res w l v = v.agrees
  model_loop-Agrees fallback (model ∷ models) res w l v =
      let f = tried-Finished model fallback res w l v in
      elim (Bool-cases (h.stop_requested w)) [
        | inl stop ↦ rw stop (Agrees-same _ res l (refl, refl) v.agrees)
        | inr on ↦ elim (Bool-cases (is_last (tried model fallback res (w, l)))) [
          | inl end ↦ rw (on, end) f.ends
          | inr more ↦
              rw (on, more)
                (model_loop-Agrees true models _ _ _
                  (record { agrees = f.ends; open_end = f.goes_on (ground (arith, more)) }))
        ]
      ]

module _ {W : Type 0} (h : Host W) where
  -- However the host answers and whenever the plugin is stopped, `executeAccountWithGuard` sends each
  -- model request directly after a reservation that was granted for it, does nothing more with the
  -- host after a call whose outcome is not known, counts one attempt for each granted reservation,
  -- and reports a request as sent exactly if it made a call.
  pub execute_account-Agrees :
      (cfg : PluginConfig) (job : PrewarmJob) (fingerprint kind : String) (w : W)
      → let p = execute_account_with_guard (logged h) cfg job fingerprint kind (w, []) in
        Agrees p.0 p.1.1
  unfolding execute_account_with_guard
  execute_account-Agrees cfg job fingerprint kind w =
      Agrees-same _ _ _ (refl, refl)
        (model_loop-Agrees h cfg.retry_count false (models_of (logged h) cfg job) _ w [] (record {
          agrees = record { disciplined = refl; counted = refl; sent = refl };
          open_end = refl;
        }))
