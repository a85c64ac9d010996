-- ===== src/Notify/Alerts.antt =====
-- One alert for one account and kind of failure in one digest window.
use mathlib.Core.List.{append-nil, append_assoc, map-append}
use codex_daily_prewarm.Base.{
  Bool, Bool-cases, List, Map, String, [], arith, eq_iff, false, inl, inr, insert, keep,
  keep-append, lookup, lookup-insert, map, refl, str_eq, true, ℕ, ◌++◌, ◌==◌, ◌||◌, ◌∙◌, ◌∷◌, ◌≡◌,
}
use codex_daily_prewarm.Clock.{Time, is_zero}
use codex_daily_prewarm.Config.Names.{contains, is_some}
use codex_daily_prewarm.Config.Valid.{IsUnique, or-eq_false}
use codex_daily_prewarm.Data.Config.{PluginConfig}
use codex_daily_prewarm.Data.Notice.{DigestWindow, FailureNotice}
use codex_daily_prewarm.Data.Run.{AccountResult}
use codex_daily_prewarm.Notify.Added.{
  HasAdded, note_items-HasAdded, note_quota-failures, note_skip-failures, note_success-failures,
  notice_key,
}
use codex_daily_prewarm.Notify.Record.{
  Noting, count_of, failure_category, failure_key, note_failure, note_item, note_items, note_quota,
  note_skip, note_success,
}
use codex_daily_prewarm.Notify.Times.{quiet_until}

abbrev pub is_of : Time → FailureNotice → Bool
is_of end notice = notice.notice_window_end == end

-- The alerts of the current window: sent at once in this run, or queued.
abbrev pub alert_keys : Noting → List String
alert_keys s = map notice_key (s.immediate ++ keep (is_of s.window_now.window_end) s.queue)

abbrev pub IsKnown : Map String → List String → Type 0
IsKnown failures [] = Unit {0}
IsKnown failures (k ∷ ks) = (is_some (lookup k failures) ≡ true) × IsKnown failures ks

-- Every alert is entered in the window's failures, and no two are for one account and kind.
pub record AreDistinct (failures : Map String) (keys : List String) : Type 0 where
  pub known : IsKnown failures keys
  pub distinct_alerts : IsUnique keys

abbrev pub HasDistinctAlerts : Noting → Type 0
HasDistinctAlerts s = AreDistinct s.window_now.failures (alert_keys s)

IsKnown-insert :
    (k v : String) (m : Map String) (ks : List String) → IsKnown m ks → IsKnown (insert k v m) ks
IsKnown-insert k v m [] h = tt
IsKnown-insert k v m (j ∷ ks) h =
    (ground (arith, lookup-insert k j v m, h.0), IsKnown-insert k v m ks h.1)

-- A key that is not entered is none of the alerts.
not-contains :
    (k : String) (m : Map String) (ks : List String)
    → is_some (lookup k m) ≡ false
    → IsKnown m ks
    → contains k ks ≡ false
not-contains k m [] new h = refl
not-contains k m (j ∷ ks) new h = ground (arith, not-contains k m ks new h.1, eq_iff j k, h.0)

contains-middle :
    (j k : String) (xs ys : List String)
    → contains j (xs ++ k ∷ ys) ≡ (str_eq k j || contains j (xs ++ ys))
contains-middle j k [] ys = refl
contains-middle j k (x ∷ xs) ys = ground (arith, contains-middle j k xs ys)

IsUnique-middle :
    (k : String) (xs ys : List String)
    → contains k (xs ++ ys) ≡ false
    → IsUnique (xs ++ ys)
    → IsUnique (xs ++ k ∷ ys)
IsUnique-middle k [] ys new h = (new, h)
IsUnique-middle k (x ∷ xs) ys new h = ground (
  arith,
  contains-middle x k xs ys,
  eq_iff k x,
  eq_iff x k,
  IsUnique-middle k xs ys (or-eq_false (str_eq x k) (contains k (xs ++ ys)) new).1 h.1,
)

IsKnown-middle :
    (m : Map String) (k : String) (xs ys : List String)
    → is_some (lookup k m) ≡ true
    → IsKnown m (xs ++ ys)
    → IsKnown m (xs ++ k ∷ ys)
IsKnown-middle m k [] ys e h = (e, h)
IsKnown-middle m k (x ∷ xs) ys e h = (h.0, IsKnown-middle m k xs ys e h.1)

-- A new alert, entered in the failures.
AreDistinct-middle :
    (m : Map String) (k v : String) (xs ys : List String)
    → is_some (lookup k m) ≡ false
    → AreDistinct m (xs ++ ys)
    → AreDistinct (insert k v m) (xs ++ k ∷ ys)
AreDistinct-middle m k v xs ys new d = record {
  known =
      IsKnown-middle (insert k v m) k xs ys (ground (arith, lookup-insert k k v m, eq_iff k k))
        (IsKnown-insert k v m (xs ++ ys) d.known);
  distinct_alerts =
      IsUnique-middle k xs ys (not-contains k m (xs ++ ys) new d.known) d.distinct_alerts;
}

-- An entry in the failures with no new alert.
AreDistinct-insert :
    (m : Map String) (k v : String) (ks : List String)
    → AreDistinct m ks
    → AreDistinct (insert k v m) ks
AreDistinct-insert m k v ks d = record {
  known = IsKnown-insert k v m ks d.known;
  distinct_alerts = d.distinct_alerts;
}

sent-alerts :
    (n : FailureNotice) (xs ys : List FailureNotice)
    → map notice_key ((xs ++ n ∷ []) ++ ys) ≡ map notice_key xs ++ notice_key n ∷ map notice_key ys
sent-alerts n xs ys = rw (append_assoc xs (n ∷ []) ys) (map-append notice_key xs (n ∷ ys))

kept-last :
    (end : Time) (n : FailureNotice)
    → n.notice_window_end ≡ end
    → keep (is_of end) (n ∷ []) ≡ n ∷ []
kept-last end n e = ground arith

queued-alerts :
    (end : Time) (n : FailureNotice) (xs ys : List FailureNotice)
    → n.notice_window_end ≡ end
    → map notice_key (xs ++ keep (is_of end) (ys ++ n ∷ []))
      ≡ map notice_key (xs ++ keep (is_of end) ys) ++ notice_key n ∷ []
queued-alerts end n xs ys e =
    rw
      (
        keep-append (is_of end) ys (n ∷ []),
        kept-last end n e,
        ← append_assoc xs (keep (is_of end) ys) (n ∷ []),
      )
      (map-append notice_key (xs ++ keep (is_of end) ys) (n ∷ []))

-- A notice that is sent at once, and one that is queued.
AreDistinct-sent :
    (m : Map String) (v : String) (n : FailureNotice) (xs ys : List FailureNotice)
    → is_some (lookup (notice_key n) m) ≡ false
    → AreDistinct m (map notice_key (xs ++ ys))
    → AreDistinct (insert (notice_key n) v m) (map notice_key ((xs ++ n ∷ []) ++ ys))
AreDistinct-sent m v n xs ys new d = rw (sent-alerts n xs ys) (
    AreDistinct-middle m (notice_key n) v (map notice_key xs) (map notice_key ys) new
      (rw (map-append notice_key xs ys) at d))

AreDistinct-queued :
    (m : Map String) (v : String) (end : Time) (n : FailureNotice) (xs ys : List FailureNotice)
    → n.notice_window_end ≡ end
    → is_some (lookup (notice_key n) m) ≡ false
    → AreDistinct m (map notice_key (xs ++ keep (is_of end) ys))
    → AreDistinct
        (insert (notice_key n) v m)
        (map notice_key (xs ++ keep (is_of end) (ys ++ n ∷ [])))
AreDistinct-queued m v end n xs ys e new d = rw (queued-alerts end n xs ys e) (
    AreDistinct-middle m (notice_key n) v (map notice_key (xs ++ keep (is_of end) ys)) [] new
      (rw (append-nil (map notice_key (xs ++ keep (is_of end) ys))) d))

module _ (streak_text : ℕ → String) (cfg : PluginConfig) (now : Time) (notify : Bool) where
  note_failure-HasDistinctAlerts :
      (item : AccountResult) (s : Noting)
      → HasDistinctAlerts s
      → HasDistinctAlerts (note_failure streak_text cfg now notify item s)
        × ((note_failure streak_text cfg now notify item s).window_now.window_end
            ≡ s.window_now.window_end)
  unfolding note_failure
  note_failure-HasDistinctAlerts item s d = elim (Bool-cases (str_eq kind "")) [
    | inl fine ↦ rw fine (d, refl)
    | inr failing ↦ elim (Bool-cases (is_some (lookup key s.window_now.failures))) [
      | inl again ↦ rw (failing, again) (d, refl)
      | inr new ↦ elim (Bool-cases notify) [
        | inl manual ↦
            rw (failing, new, manual) (AreDistinct-insert s.window_now.failures key _ _ d, refl)
        | inr automatic ↦ elim (Bool-cases (is_zero (quiet_until cfg now))) [
          | inr quiet ↦
              rw (failing, new, automatic, quiet)
                (
                  AreDistinct-queued s.window_now.failures _ s.window_now.window_end _ s.immediate
                      s.queue refl new d,
                  refl,
                )
          | inl loud ↦
              rw (failing, new, automatic, loud)
                (AreDistinct-sent s.window_now.failures _ _ s.immediate _ new d, refl)
        ]
      ]
    ]
  ]
    where
      kind : String
      kind = failure_category item (count_of item.account s.streaks) cfg.unknown_failure_streak

      key : String
      key = failure_key item.account kind

  note_item-HasDistinctAlerts :
      (item : AccountResult) (s : Noting)
      → HasDistinctAlerts s
      → HasDistinctAlerts (note_item streak_text cfg now notify item s)
  unfolding note_item
  note_item-HasDistinctAlerts item s d =
      (note_failure-HasDistinctAlerts item _ (rw (same.0, same.1) d)).0
    where
      w1 : DigestWindow
      w1 = note_success now item s.window_now

      same :
          ((note_skip item (note_quota item w1)).failures ≡ s.window_now.failures)
          × ((note_skip item (note_quota item w1)).window_end ≡ s.window_now.window_end)
      same = (
        (note_skip-failures item (note_quota item w1)).0
            ∙ (note_quota-failures item w1).0
            ∙ (note_success-failures now item s.window_now).0,
        (note_skip-failures item (note_quota item w1)).1
            ∙ (note_quota-failures item w1).1
            ∙ (note_success-failures now item s.window_now).1,
      )

  note_items-distinct :
      (items : List AccountResult) (s : Noting)
      → HasDistinctAlerts s
      → HasDistinctAlerts (note_items streak_text cfg now notify items s)
  unfolding note_items
  note_items-distinct [] s d = d
  note_items-distinct (item ∷ items) s d =
      note_items-distinct items (note_item streak_text cfg now notify item s)
        (note_item-HasDistinctAlerts item s d)

  -- The loop of `recordNotifications` over the accounts of a run adds an alert, to those sent at once
  -- or to the queue, only for an account and a kind of failure that is not yet entered in the failures
  -- of the digest window, whatever became of the alert that entered it; and nothing that is entered is
  -- lost. If the alerts that are queued for the window, or sent in this run, are entered and no two of
  -- them are for one account and one kind of failure, then so are they after the loop.
  pub note_items-HasDistinctAlerts :
      (items : List AccountResult) (s : Noting)
      → HasDistinctAlerts s
      → HasAdded s (note_items streak_text cfg now notify items s)
        × HasDistinctAlerts (note_items streak_text cfg now notify items s)
  note_items-HasDistinctAlerts items s d =
      (note_items-HasAdded streak_text cfg now notify items s, note_items-distinct items s d)
