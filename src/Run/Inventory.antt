-- ===== src/Run/Inventory.antt =====
-- runtime.go: `eligibleCodexAuths`, `abortForAccountCount`, `safeAccountType` and the choice of the
-- target account. Go compares texts by their bytes, which for UTF-8 is the order of the code points.
use codex_daily_prewarm.Base.{
  Bool, List, String, [], false, if◌then◌else◌, keep, leb_ℤ, ltb, ltb_ℤ, not, pos, str_eq, true, ℕ,
  ℤ, ◌&&◌, ◌==◌, ◌||◌, ◌∷◌,
}
use codex_daily_prewarm.Config.Names.{contains}
use codex_daily_prewarm.Run.Host.{Auth}
use codex_daily_prewarm.Text.{codes, trim_space}

abbrev pub codes_le : List ℕ → List ℕ → Bool
codes_le [] bs = true
codes_le (a ∷ as') [] = false
codes_le (a ∷ as') (b ∷ bs) = let rest = codes_le as' bs in if a == b then rest else ltb a b

abbrev pub id_le : Auth → Auth → Bool
id_le a b = codes_le (codes a.auth_id) (codes b.auth_id)

-- `sort.Slice` by ID; the order of entries with the same ID is left open by the library.
abbrev pub insert_auth : Auth → List Auth → List Auth
insert_auth a [] = a ∷ []
insert_auth a (b ∷ bs) = let rest = insert_auth a bs in if id_le a b then a ∷ b ∷ bs else b ∷ rest

unfoldable pub sort_auths : List Auth → List Auth
sort_auths [] = []
sort_auths (a ∷ rest) = insert_auth a (sort_auths rest)

abbrev pub is_eligible : (String → String) → Auth → Bool
is_eligible lower a =
    (str_eq (lower (trim_space a.provider)) "codex"
      || str_eq (lower (trim_space a.auth_kind)) "codex")
    && not a.disabled
    && not (str_eq (trim_space a.auth_id) "")

unfoldable pub eligible_codex_auths : (String → String) → List Auth → List Auth
eligible_codex_auths lower files = sort_auths (keep (is_eligible lower) files)

unfoldable pub abort_for_account_count : ℤ → ℕ → Bool
abort_for_account_count expected found =
    ltb_ℤ (pos 0) expected && not (leb_ℤ expected (pos found) && leb_ℤ (pos found) expected)

unfoldable pub safe_account_type : (String → String) → String → String
safe_account_type lower value =
    let known = lower (trim_space value) in
    if contains known ("plus" ∷ "team" ∷ "business" ∷ "enterprise" ∷ "edu" ∷ "pro" ∷ "free" ∷ [])
    then known
    else ""

-- The accounts of the run: all of them, or those of the target's fingerprint.
abbrev pub selected_auths : (Auth → String) → String → List Auth → List Auth
selected_auths fingerprint target auths =
    if str_eq target "" then auths else keep (λ a. str_eq (fingerprint a) target) auths
