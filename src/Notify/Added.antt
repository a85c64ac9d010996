-- ===== src/Notify/Added.antt =====
-- Which alerts the loop of `recordNotifications` adds.
use mathlib.Core.List.{append-nil, append_assoc}
use codex_daily_prewarm.Base.{
  All, All-append, All-map, Bool, Bool-cases, List, Map, String, [], ap, arith, false, inl, inr,
  insert, lookup, lookup-insert, refl, str_eq, sym, true, ℕ, ◌++◌, ◌∙◌, ◌∷◌, ◌≡◌,
}
use codex_daily_prewarm.Clock.{Time, is_zero}
use codex_daily_prewarm.Config.Names.{is_some}
use codex_daily_prewarm.Data.Config.{PluginConfig}
use codex_daily_prewarm.Data.Notice.{DigestWindow, FailureNotice}
use codex_daily_prewarm.Data.Run.{AccountResult}
use codex_daily_prewarm.Notify.Record.{
  Noting, count_of, failure_category, failure_key, note_failure, note_item, note_items, note_quota,
  note_skip, note_streak, note_success,
}
use codex_daily_prewarm.Notify.Times.{quiet_until}

abbrev pub notice_key : FailureNotice → String
notice_key notice = failure_key notice.notice_account notice.category

-- The kind of failure of this notice has not been met for its account in the window.
abbrev pub IsNew : Map String → FailureNotice → Type 0
IsNew failures notice = is_some (lookup (notice_key notice) failures) ≡ false

-- What has been added to the alerts sent at once and to the queue is new, and what is entered in the
-- window's failures stays entered.
pub record HasAdded (s s' : Noting) : Type 0 where
  pub added_now : List FailureNotice
  pub added_later : List FailureNotice
  pub sent : s'.immediate ≡ s.immediate ++ added_now
  pub queued_up : s'.queue ≡ s.queue ++ added_later
  pub new_now : All (IsNew s.window_now.failures) added_now
  pub new_later : All (IsNew s.window_now.failures) added_later
  pub stays :
      (k : String)
      → is_some (lookup k s.window_now.failures) ≡ true
      → is_some (lookup k s'.window_now.failures) ≡ true

pub note_success-failures :
    (now : Time) (item : AccountResult) (w : DigestWindow)
    → ((note_success now item w).failures ≡ w.failures)
      × ((note_success now item w).window_end ≡ w.window_end)
unfolding note_success
note_success-failures now item w = ground arith

pub note_quota-failures :
    (item : AccountResult) (w : DigestWindow)
    → ((note_quota item w).failures ≡ w.failures) × ((note_quota item w).window_end ≡ w.window_end)
unfolding note_quota
note_quota-failures item w = ground arith

pub note_skip-failures :
    (item : AccountResult) (w : DigestWindow)
    → ((note_skip item w).failures ≡ w.failures) × ((note_skip item w).window_end ≡ w.window_end)
unfolding note_skip
note_skip-failures item w = ground arith

IsNew-before :
    (before after : Map String)
    → ((k : String) → is_some (lookup k before) ≡ true → is_some (lookup k after) ≡ true)
    → (n : FailureNotice) → IsNew after n
    → IsNew before n
IsNew-before before after grows n new = elim (Bool-cases (is_some (lookup (notice_key n) before))) [
  | inl old ↦ cc (grows (notice_key n) old)
  | inr fresh ↦ fresh
]

-- Two steps one after the other.
HasAdded-trans : (s t u : Noting) → HasAdded s t → HasAdded t u → HasAdded s u
HasAdded-trans s t u a b = record {
  added_now = a.added_now ++ b.added_now;
  added_later = a.added_later ++ b.added_later;
  sent =
      b.sent
      ∙ ap (λ xs. xs ++ b.added_now) a.sent
      ∙ append_assoc s.immediate a.added_now b.added_now;
  queued_up =
      b.queued_up
      ∙ ap (λ xs. xs ++ b.added_later) a.queued_up
      ∙ append_assoc s.queue a.added_later b.added_later;
  new_now =
      All-append _ a.added_now b.added_now a.new_now (All-map _ _ b.added_now before b.new_now);
  new_later =
      All-append _ a.added_later b.added_later a.new_later
        (All-map _ _ b.added_later before b.new_later);
  stays = λ k e. b.stays k (a.stays k e);
}
  where
    before : (n : FailureNotice) → IsNew t.window_now.failures n → IsNew s.window_now.failures n
    before = IsNew-before s.window_now.failures t.window_now.failures a.stays

insert-stays :
    (key v : String) (m : Map String) (k : String)
    → is_some (lookup k m) ≡ true
    → is_some (lookup k (insert key v m)) ≡ true
insert-stays key v m k e = ground (arith, lookup-insert key k v m, e)

-- A step that adds nothing.
HasAdded-none :
    (s s' : Noting)
    → s'.immediate ≡ s.immediate
    → s'.queue ≡ s.queue
    → ((k : String)
        → is_some (lookup k s.window_now.failures) ≡ true
        → is_some (lookup k s'.window_now.failures) ≡ true)
    → HasAdded s s'
HasAdded-none s s' e f stays' = record {
  added_now = [];
  added_later = [];
  sent = e ∙ sym (append-nil s.immediate);
  queued_up = f ∙ sym (append-nil s.queue);
  new_now = tt;
  new_later = tt;
  stays = stays';
}

module _ (streak_text : ℕ → String) (cfg : PluginConfig) (now : Time) (notify : Bool) where
  note_failure-HasAdded :
      (item : AccountResult) (s : Noting)
      → HasAdded s (note_failure streak_text cfg now notify item s)
  unfolding note_failure
  note_failure-HasAdded item s = elim (Bool-cases (str_eq kind "")) [
    | inl fine ↦ rw fine (HasAdded-none s s refl refl (λ k e. e))
    | inr failing ↦ elim (Bool-cases (is_some (lookup key s.window_now.failures))) [
      | inl again ↦ rw (failing, again) (HasAdded-none s _ refl refl (λ k e. e))
      | inr new ↦ elim (Bool-cases notify) [
        | inl manual ↦
            rw (failing, new, manual)
              (HasAdded-none s _ refl refl (insert-stays key _ s.window_now.failures))
        | inr automatic ↦ elim (Bool-cases (is_zero (quiet_until cfg now))) [
          | inr quiet ↦
              rw (failing, new, automatic, quiet)
                (record {
                  added_now = [];
                  added_later = _ ∷ [];
                  sent = sym (append-nil s.immediate);
                  queued_up = refl;
                  new_now = tt;
                  new_later = (new, tt);
                  stays = insert-stays key _ s.window_now.failures;
                })
          | inl loud ↦
              rw (failing, new, automatic, loud)
                (record {
                  added_now = _ ∷ [];
                  added_later = [];
                  sent = refl;
                  queued_up = sym (append-nil s.queue);
                  new_now = (new, tt);
                  new_later = tt;
                  stays = insert-stays key _ s.window_now.failures;
                })
        ]
      ]
    ]
  ]
    where
      kind : String
      kind = failure_category item (count_of item.account s.streaks) cfg.unknown_failure_streak

      key : String
      key = failure_key item.account kind

  note_item-HasAdded :
      (item : AccountResult) (s : Noting) → HasAdded s (note_item streak_text cfg now notify item s)
  unfolding note_item
  note_item-HasAdded item s =
      HasAdded-trans s _ _ (HasAdded-none s counted refl refl (λ k e. rw same e))
        (note_failure-HasAdded item counted)
    where
      w1 : DigestWindow
      w1 = note_success now item s.window_now

      counted : Noting
      counted = record s {
        window_now = note_skip item (note_quota item w1);
        streaks = note_streak item s.streaks;
      }

      same : counted.window_now.failures ≡ s.window_now.failures
      same =
          (note_skip-failures item (note_quota item w1)).0
          ∙ (note_quota-failures item w1).0
          ∙ (note_success-failures now item s.window_now).0

  pub note_items-HasAdded :
      (items : List AccountResult) (s : Noting)
      → HasAdded s (note_items streak_text cfg now notify items s)
  unfolding note_items
  note_items-HasAdded [] s = HasAdded-none s s refl refl (λ k e. e)
  note_items-HasAdded (item ∷ items) s =
      HasAdded-trans s _ _ (note_item-HasAdded item s)
        (note_items-HasAdded items (note_item streak_text cfg now notify item s))
