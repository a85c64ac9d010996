-- ===== src/Display/Saved.antt =====
-- account_display.go: what is kept of the names, in memory and in the file.
use codex_daily_prewarm.Base.{
  All, Bool, List, Map, Option, String, [], false, if-both, inl, inr, insert, none, not, refl, some,
  str_eq, true, ◌∷◌, ◌≡◌, ◌≢◌, ◌≤◌, ◌⊎◌,
}
use codex_daily_prewarm.Display.Names.{
  AccountDisplayDetail, DisplayAuth, DisplayHost, byte_length, details_from, is_displayed,
  load_account_display_details, raw_display_name,
}
use codex_daily_prewarm.Display.Safe.{IsPrintable, safe_display_name-IsSafeName}
use codex_daily_prewarm.Display.Store.{
  AccountDisplayState, DisplayRuntime, DisplaySaved, account_details_unavailable,
  clone_account_display, display_saved, display_unsaved, enable_with, noted_display,
  refresh_account_display, runtime_closed, save_account_display, set_account_display,
}

-- Every name that is kept is safe to show.
abbrev pub AreSafeNames : Map AccountDisplayDetail → Type 0
AreSafeNames details =
    All (λ d. (byte_length d.1.display_name ≤ 128) × IsPrintable d.1.display_name) details

-- A preference that is off keeps no names.
abbrev pub IsPrivate : AccountDisplayState → Type 0
IsPrivate d =
    AreSafeNames d.display_accounts × ((d.display_enabled ≡ true) ⊎ (d.display_accounts ≡ []))

abbrev IsPrivateFile : Option AccountDisplayState → Type 0
IsPrivateFile none = Unit {0}
IsPrivateFile (some d) = IsPrivate d

-- What is shown is what the file has, and neither keeps a name that is not to be shown.
pub record IsKept (r : DisplayRuntime) : Type 0 where
  pub private_now : IsPrivate r.display
  pub private_file : IsPrivateFile r.display_on_disk

insert-AreSafeNames :
    (account : String) (d : AccountDisplayDetail) (details : Map AccountDisplayDetail)
    → (byte_length d.display_name ≤ 128) × IsPrintable d.display_name
    → AreSafeNames details
    → AreSafeNames (insert account d details)
unfolding insert
insert-AreSafeNames account d [] safe all = (safe, tt)
insert-AreSafeNames account d (entry ∷ rest) safe all =
    if-both AreSafeNames (str_eq entry.0 account) _ _ (safe, all.1)
      (all.0, insert-AreSafeNames account d rest safe all.1)

IsPrivate-clone : (d : AccountDisplayState) → IsPrivate d → IsPrivate (clone_account_display d)
unfolding clone_account_display
IsPrivate-clone d t = if-both IsPrivate d.display_enabled _ _ t (tt, inr refl)

save_account_display-IsKept :
    (next : AccountDisplayState) (written : Bool) (r : DisplayRuntime)
    → IsPrivate next
    → IsKept r
    → IsKept (save_account_display next written r).1
unfolding save_account_display
save_account_display-IsKept next true r new t = record {
  private_now = new;
  private_file = IsPrivate-clone next new;
}
save_account_display-IsKept next false r new t = t

-- What happens to the displays: a change of the preference, or the refresh before a run, each with
-- what the list of files gives and whether the write succeeds.
pub data DisplayEvent : Type 0 where
  sets_display : Bool → Option (List DisplayAuth) → Bool → DisplayEvent
  refreshes : Option (List DisplayAuth) → Bool → DisplayEvent

-- The preference is in force, in memory and in the file.
pub record IsInForce (enabled : Bool) (p : DisplaySaved × DisplayRuntime) : Type 0 where
  pub answered_saved : p.0 ≡ display_saved
  pub preferred : p.1.display.display_enabled ≡ enabled
  pub same_in_file : p.1.display_on_disk ≡ some (clone_account_display p.1.display)

abbrev AllOrNothing : Bool → DisplayRuntime → DisplaySaved × DisplayRuntime → Type 0
AllOrNothing enabled r p = IsInForce enabled p ⊎ ((p.0 ≢ display_saved) × (p.1 ≡ r))

module _ (h : DisplayHost) where
  details_from-AreSafeNames :
      (files : List DisplayAuth) (details : Map AccountDisplayDetail)
      → AreSafeNames details
      → AreSafeNames (details_from h files details)
  unfolding details_from
  details_from-AreSafeNames [] details t = t
  details_from-AreSafeNames (auth ∷ rest) details t =
      let s = safe_display_name-IsSafeName (raw_display_name h auth) in
      details_from-AreSafeNames rest _ (
        if-both AreSafeNames (is_displayed h auth) _ _
          (insert-AreSafeNames _ _ details (s.short, s.printable) t) t)

  enable_with-IsKept :
      (files : Option (List DisplayAuth)) (written : Bool) (r : DisplayRuntime)
      → IsKept r
      → IsKept (enable_with h (load_account_display_details h files) written r).1
  enable_with-IsKept none written r t = t
  enable_with-IsKept (some files) written r t =
      save_account_display-IsKept _ written r (details_from-AreSafeNames files [] tt, inl refl) t

  set_account_display-IsKept :
      (enabled : Bool) (files : Option (List DisplayAuth)) (written : Bool) (r : DisplayRuntime)
      → IsKept r
      → IsKept (set_account_display h enabled files written r).1
  unfolding set_account_display
  set_account_display-IsKept enabled files written r t =
      let P : DisplaySaved × DisplayRuntime → Type 0 = λ p. IsKept p.1 in
      if-both P r.display_terminal _ _ t (
        if-both P enabled _ _ (enable_with-IsKept files written r t)
          (save_account_display-IsKept _ written r (tt, inr refl) t))

  noted_display-IsKept :
      (p : DisplaySaved × DisplayRuntime) → IsKept p.1 → IsKept (noted_display h p)
  noted_display-IsKept (runtime_closed, r) t = t
  noted_display-IsKept (account_details_unavailable, r) t = t
  noted_display-IsKept (display_unsaved, r) t = record {
    private_now = t.private_now;
    private_file = t.private_file;
  }
  noted_display-IsKept (display_saved, r) t = t

  refresh_account_display-IsKept :
      (files : Option (List DisplayAuth)) (written : Bool) (r : DisplayRuntime)
      → IsKept r
      → IsKept (refresh_account_display h files written r)
  unfolding refresh_account_display
  refresh_account_display-IsKept files written r t =
      if-both IsKept (not (clone_account_display r.display).display_enabled) _ _ t
        (noted_display-IsKept _ (enable_with-IsKept files written r t))

  unfoldable pub display_step : DisplayRuntime → DisplayEvent → DisplayRuntime
  display_step r (sets_display enabled files written) =
      (set_account_display h enabled files written r).1
  display_step r (refreshes files written) = refresh_account_display h files written r

  unfoldable pub after_display : DisplayRuntime → List DisplayEvent → DisplayRuntime
  after_display r [] = r
  after_display r (e ∷ es) = after_display (display_step r e) es

  display_step-IsKept :
      (r : DisplayRuntime) (e : DisplayEvent) → IsKept r → IsKept (display_step r e)
  unfolding display_step
  display_step-IsKept r (sets_display enabled files written) t =
      set_account_display-IsKept enabled files written r t
  display_step-IsKept r (refreshes files written) t =
      refresh_account_display-IsKept files written r t

  -- Whatever changes and refreshes of the displays follow, with failed lists and failed writes: if in
  -- memory and in the file each name has at most 128 bytes and no control character, and there are no
  -- names under a preference that is off, then it stays so.
  pub after_display-IsKept :
      (es : List DisplayEvent) (r : DisplayRuntime) → IsKept r → IsKept (after_display r es)
  unfolding after_display
  after_display-IsKept [] r t = t
  after_display-IsKept (e ∷ es) r t =
      after_display-IsKept es (display_step r e) (display_step-IsKept r e t)

  save-AllOrNothing :
      (next : AccountDisplayState) (written : Bool) (r : DisplayRuntime)
      → AllOrNothing next.display_enabled r (save_account_display next written r)
  unfolding save_account_display
  save-AllOrNothing next true r =
      inl (record { answered_saved = refl; preferred = refl; same_in_file = refl })
  save-AllOrNothing next false r = inr (λ e. cc, refl)

  enable_with-AllOrNothing :
      (details : Option (Map AccountDisplayDetail)) (written : Bool) (r : DisplayRuntime)
      → AllOrNothing true r (enable_with h details written r)
  enable_with-AllOrNothing none written r = inr (λ e. cc, refl)
  enable_with-AllOrNothing (some details) written r = save-AllOrNothing _ written r

  -- `setAccountDisplay` either brings the preference into force, in memory and in the file, and gives
  -- no error, or gives an error and changes nothing.
  pub set_account_display_atomic :
      (enabled : Bool) (files : Option (List DisplayAuth)) (written : Bool) (r : DisplayRuntime)
      → IsInForce enabled (set_account_display h enabled files written r)
        ⊎ (((set_account_display h enabled files written r).0 ≢ display_saved)
            × ((set_account_display h enabled files written r).1 ≡ r))
  unfolding set_account_display
  set_account_display_atomic true files written r =
      if-both (AllOrNothing true r) r.display_terminal _ _ (inr (λ e. cc, refl))
        (enable_with-AllOrNothing (load_account_display_details h files) written r)
  set_account_display_atomic false files written r =
      if-both (AllOrNothing false r) r.display_terminal _ _ (inr (λ e. cc, refl))
        (save-AllOrNothing (record { display_enabled = false; display_accounts = [] }) written r)
