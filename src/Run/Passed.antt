-- ===== src/Run/Passed.antt =====
-- runtime.go: what it means that the look at an account gives no reason against a call.
use text.Mathlib.Text.{starts_with}
use codex_daily_prewarm.Base.{
  Bool, Bool-cases, String, ap, clash, eq_iff, false, if-both, if-false, if-true, if◌then◌else◌,
  inl, inr, not, refl, str_eq, sym, true, ◌&&◌, ◌∙◌, ◌≡◌, ◌⊎◌,
}
use codex_daily_prewarm.Clock.{Time}
use codex_daily_prewarm.Data.Config.{PluginConfig}
use codex_daily_prewarm.Data.Run.{AccountResult, RunRequest}
use codex_daily_prewarm.Model.Logged.{calls}
use codex_daily_prewarm.Quota.{QuotaObservation}
use codex_daily_prewarm.Quota.Confirm.{Outcome, confirm_idle_after_spacing, quota_candidate_reason}
use codex_daily_prewarm.Run.Check.{
  Looked, check_account, check_confirmed, clear_retry, confirm_account, is_allowed_account,
  is_empty, is_targeted, judge_account, limit_now, note_query_failure, run_callbacks,
  save_observation, settled_retry, spacing_left, static_reason, with_observation, with_status,
}
use codex_daily_prewarm.Run.Host.{Auth, RunHost, World}

pub empty-eq : (text : String) → is_empty text ≡ true → text ≡ ""
empty-eq text h = (eq_iff text "").0 h

-- A test that gives its reason when there is one has been passed.
pub if-empty {ℓ} :
    {A : Type ℓ} (reason_of : A → String) (reason : String) (stop go : A)
    → reason_of stop ≡ reason
    → is_empty (reason_of (if not (is_empty reason) then stop else go)) ≡ true
    → (is_empty reason ≡ true) × ((if not (is_empty reason) then stop else go) ≡ go)
if-empty reason_of reason stop go same pass = elim (Bool-cases (is_empty reason)) [
  | inl passed ↦ (passed, if-false (not (is_empty reason)) stop go (ap not passed))
  | inr held ↦
      clash (is_empty reason)
        (sym (
            ap (λ r. is_empty (reason_of r)) (if-true (not (is_empty reason)) stop go (ap not held))
            ∙ ap is_empty same)
          ∙ pass)
        held
]

-- Three tests of which none gave a reason.
chain-passed :
    (candidate limit : String) (allowed : Bool)
    → is_empty (
        if not (is_empty candidate)
        then candidate
        else if not (is_empty limit)
        then limit
        else if allowed
        then ""
        else "gray_not_selected")
      ≡ true
    → (candidate ≡ "") × (allowed ≡ true)
chain-passed candidate limit allowed pass =
    let last_test : String = if allowed then "" else "gray_not_selected" in
    let second_test : String = if not (is_empty limit) then limit else last_test in
    let step = if-empty (λ t. t) candidate candidate second_test refl pass in
    let pass' = sym (ap is_empty step.1) ∙ pass in
    let step' = if-empty (λ t. t) limit limit last_test refl pass' in
    (empty-eq candidate step.0, allowed-passed allowed (sym (ap is_empty step'.1) ∙ pass'))
  where
    allowed-passed : (b : Bool) → is_empty (if b then "" else "gray_not_selected") ≡ true → b ≡ true
    allowed-passed true e = refl
    allowed-passed false e = clash (is_empty "gray_not_selected") e refl

module _ {W : Type 0} (h : RunHost W) (cfg : PluginConfig) (request : RunRequest)
    (auth : Auth) where
  module _ (first : QuotaObservation) (last : Time) (res : AccountResult) (w : World W) where
    abbrev pub idle_look : Outcome (World W)
    idle_look =
        confirm_idle_after_spacing (run_callbacks h cfg request auth) first
          (spacing_left h cfg request auth last w) w

    confirm_account-prefixed :
        starts_with idle_look.1 "idle_confirmation_" ≡ true
        → (confirm_account h cfg request auth first last res w).1 ≡ idle_look.1
    unfolding confirm_account
    confirm_account-prefixed e =
        ap {A = Looked W} (λ p. p.1) (if-true (starts_with idle_look.1 "idle_confirmation_") _ _ e)

    confirm_account-plain :
        starts_with idle_look.1 "idle_confirmation_" ≡ false
        → confirm_account h cfg request auth first last res w ≡ (
            if is_empty idle_look.1
            then (
              with_observation idle_look.0 res,
              limit_now h cfg request auth idle_look.2,
              idle_look.2,
            )
            else (with_observation idle_look.0 res, idle_look.1, idle_look.2))
    unfolding confirm_account
    confirm_account-plain e = if-false (starts_with idle_look.1 "idle_confirmation_") _ _ e

    -- No reason after the second look.
    confirm_account-passed :
        is_empty (confirm_account h cfg request auth first last res w).1 ≡ true
        → (idle_look.1 ≡ "")
          × (limit_now h cfg request auth idle_look.2 ≡ "")
          × ((confirm_account h cfg request auth first last res w).2 ≡ idle_look.2)
    confirm_account-passed pass = elim (Bool-cases (starts_with idle_look.1 "idle_confirmation_")) [
      | inl e ↦ clash (starts_with idle_look.1 "idle_confirmation_") e (
          ap (λ text. starts_with text "idle_confirmation_")
            (empty-eq idle_look.1 (sym (ap is_empty (confirm_account-prefixed e)) ∙ pass)))
      | inr e ↦ elim (Bool-cases (is_empty idle_look.1)) [
        | inl passed ↦
            let same = confirm_account-plain e ∙ if-true (is_empty idle_look.1) _ _ passed in
            (
              empty-eq idle_look.1 passed,
              empty-eq (limit_now h cfg request auth idle_look.2)
                  (sym (ap {A = Looked W} (λ p. is_empty p.1) same) ∙ pass),
              ap {A = Looked W} (λ p. p.2) same,
            )
        | inr stuck ↦
            let same = confirm_account-plain e ∙ if-false (is_empty idle_look.1) _ _ stuck in
            clash (is_empty idle_look.1) (sym (ap {A = Looked W} (λ p. is_empty p.1) same) ∙ pass)
              stuck
      ]
    ]

    -- No reason without a second look either.
    judge_account-passed :
        is_empty (judge_account h cfg request auth first last res w).1 ≡ true
        → (is_empty (static_reason h cfg request auth first w) ≡ true)
          × (judge_account h cfg request auth first last res w
              ≡ confirm_account h cfg request auth first last res w)
    unfolding judge_account
    judge_account-passed pass =
        let reason = static_reason h cfg request auth first w in
        if-empty {A = Looked W} (λ l. l.1) reason (res, reason, w)
          (confirm_account h cfg request auth first last res w) refl pass

    static_reason-passed :
        is_empty (static_reason h cfg request auth first w) ≡ true
        → (quota_candidate_reason first ≡ "") × (is_allowed_account h cfg request auth ≡ true)
    unfolding static_reason
    static_reason-passed pass =
        chain-passed (quota_candidate_reason first) (limit_now h cfg request auth w)
          (is_allowed_account h cfg request auth) pass

  module _ (first : QuotaObservation) (last : Time) (res : AccountResult) (w : World W) where
    abbrev pub confirmed_result : AccountResult
    confirmed_result = with_status "confirmed" (with_observation first res)

    abbrev pub saved_world : World W
    saved_world = (save_observation h cfg request auth first w).1

    abbrev pub judged_world : World W
    judged_world =
        if is_targeted h cfg request auth
        then saved_world
        else clear_retry h cfg request auth saved_world

    check_confirmed-passed :
        request.read_only ≡ false
        → is_empty (check_confirmed h cfg request auth first last res w).1 ≡ true
        → check_confirmed h cfg request auth first last res w
          ≡ judge_account h cfg request auth first last confirmed_result judged_world
    unfolding check_confirmed
    check_confirmed-passed calls pass =
        elim (Bool-cases (save_observation h cfg request auth first w).0) [
          | inl saved ↦
              if-false (not (save_observation h cfg request auth first w).0) _ _ (ap not saved)
              ∙ if-false request.read_only _ _ calls
          | inr unsaved ↦
              clash (is_empty "state_write_failed")
                (sym (
                    ap {A = Looked W} (λ p. is_empty p.1)
                      (if-true (not (save_observation h cfg request auth first w).0) _ _
                        (ap not unsaved)))
                  ∙ pass)
                refl
        ]

    settled_retry-passed :
        (l : Looked W)
        → ((settled_retry h cfg request auth l).1 ≡ l.1)
          × (((settled_retry h cfg request auth l).2 ≡ l.2)
              ⊎ ((settled_retry h cfg request auth l).2 ≡ clear_retry h cfg request auth l.2))
    settled_retry-passed (res', reason, w') =
        let cleared = clear_retry h cfg request auth w' in
        if-both {A = Looked W} (λ l. (l.1 ≡ reason) × ((l.2 ≡ w') ⊎ (l.2 ≡ cleared)))
          (is_targeted h cfg request auth && not (str_eq res'.result_quota_status "query_failed"))
          (res', reason, cleared) (res', reason, w') (refl, inr refl) (refl, inl refl)

    abbrev pub confirmed_look : Outcome (World W)
    confirmed_look = idle_look first last confirmed_result judged_world

    pub check_account-passed :
        (reason : String)
        → request.read_only ≡ false
        → is_empty (check_account h cfg request auth (first, reason) last res w).1 ≡ true
        → (quota_candidate_reason first ≡ "")
          × (is_allowed_account h cfg request auth ≡ true)
          × (reason ≡ "")
          × (confirmed_look.1 ≡ "")
          × (limit_now h cfg request auth confirmed_look.2 ≡ "")
          × (((check_account h cfg request auth (first, reason) last res w).2 ≡ confirmed_look.2)
              ⊎ ((check_account h cfg request auth (first, reason) last res w).2
                  ≡ clear_retry h cfg request auth confirmed_look.2))
    unfolding check_account
    check_account-passed reason calls pass = elim (Bool-cases (is_empty reason)) [
      | inr failed' ↦
          let noted : Looked W = (
            with_status "query_failed" res,
            reason,
            note_query_failure h cfg request auth reason reason w,
          ) in
          let same : check_account h cfg request auth (first, reason) last res w
              ≡ settled_retry h cfg request auth noted =
            if-false (is_empty reason) _ _ failed' in
          clash (is_empty reason)
            (sym (ap is_empty (settled_retry-passed noted).0)
              ∙ sym (ap (λ l. is_empty l.1) same)
              ∙ pass)
            failed'
      | inl good ↦
          let checked = check_confirmed h cfg request auth first last res w in
          let same : check_account h cfg request auth (first, reason) last res w
              ≡ settled_retry h cfg request auth checked =
            if-true (is_empty reason) _ _ good in
          let settled' = settled_retry-passed checked in
          let pass1 : is_empty checked.1 ≡ true =
            sym (ap is_empty settled'.0) ∙ sym (ap (λ l. is_empty l.1) same) ∙ pass in
          let e1 = check_confirmed-passed calls pass1 in
          let pass2 = sym (ap (λ l. is_empty l.1) e1) ∙ pass1 in
          let judged = judge_account-passed first last confirmed_result judged_world pass2 in
          let pass3 = sym (ap (λ l. is_empty l.1) judged.1) ∙ pass2 in
          let static = static_reason-passed first last confirmed_result judged_world judged.0 in
          let confirmed' = confirm_account-passed first last confirmed_result judged_world pass3 in
          let worlds = ap (λ l. l.2) e1 ∙ ap (λ l. l.2) judged.1 ∙ confirmed'.2 in
          (
            static.0,
            static.1,
            empty-eq reason good,
            confirmed'.0,
            confirmed'.1,
            elim settled'.1 [
              | inl e ↦ inl (ap (λ l. l.2) same ∙ e ∙ worlds)
              | inr e ↦ inr (ap (λ l. l.2) same ∙ e ∙ ap (clear_retry h cfg request auth) worlds)
            ],
          )
    ]
