-- ===== src/Run/Sorted.antt =====
-- runtime.go: the order of `eligibleCodexAuths`.
use mathlib.Core.List.{Permᴰ}
use mathlib.Core.Path.{subst}
use codex_daily_prewarm.Base.{
  All, All-map, Bool-cases, List, String, [], arith, false, if-both, if-false, if-true, inl, inr,
  keep, refl, sym, true, ℕ, ◌∷◌, ◌≡◌,
}
use codex_daily_prewarm.Run.Host.{Auth}
use codex_daily_prewarm.Run.Inventory.{
  codes_le, eligible_codex_auths, id_le, insert_auth, is_eligible, sort_auths,
}
use codex_daily_prewarm.Text.{codes}

codes_le_total : (as' bs : List ℕ) → codes_le as' bs ≡ false → codes_le bs as' ≡ true
codes_le_total [] bs e = cc
codes_le_total (a ∷ as') [] e = refl
codes_le_total (a ∷ as') (b ∷ bs) e = ground (arith, codes_le_total as' bs)

codes_le_trans :
    (as' bs cs : List ℕ) → codes_le as' bs ≡ true → codes_le bs cs ≡ true → codes_le as' cs ≡ true
codes_le_trans [] bs cs h k = refl
codes_le_trans (a ∷ as') [] cs h k = cc
codes_le_trans (a ∷ as') (b ∷ bs) [] h k = cc
codes_le_trans (a ∷ as') (b ∷ bs) (c ∷ cs) h k = ground (arith, codes_le_trans as' bs cs)

-- Each entry is at most as great as every later one.
abbrev pub AreSorted : List Auth → Type 0
AreSorted [] = Unit {0}
AreSorted (a ∷ rest) = All (λ b. id_le a b ≡ true) rest × AreSorted rest

insert_auth-All :
    (P : Auth → Type 0) (a : Auth) (bs : List Auth) → P a → All P bs → All P (insert_auth a bs)
insert_auth-All P a [] p all = (p, tt)
insert_auth-All P a (b ∷ bs) p all =
    if-both (All P) (id_le a b) (a ∷ b ∷ bs) (b ∷ insert_auth a bs) (p, all)
      (all.0, insert_auth-All P a bs p all.1)

insert_auth-AreSorted : (a : Auth) (bs : List Auth) → AreSorted bs → AreSorted (insert_auth a bs)
insert_auth-AreSorted a [] t = (tt, tt)
insert_auth-AreSorted a (b ∷ bs) t = elim (Bool-cases (id_le a b)) [
  | inl e ↦ subst AreSorted (sym (if-true (id_le a b) _ _ e)) (
    (
      e,
      All-map (λ c. id_le b c ≡ true) (λ c. id_le a c ≡ true) bs
          (λ c k. codes_le_trans (codes a.auth_id) (codes b.auth_id) (codes c.auth_id) e k) t.0,
    ),
    t,
  )
  | inr e ↦ subst AreSorted (sym (if-false (id_le a b) _ _ e)) (
    insert_auth-All (λ c. id_le b c ≡ true) a bs
        (codes_le_total (codes a.auth_id) (codes b.auth_id) e) t.0,
    insert_auth-AreSorted a bs t.1,
  )
]

same-Permᴰ : (auths : List Auth) → Permᴰ auths auths
same-Permᴰ [] = Permᴰ.nil
same-Permᴰ (a ∷ rest) = Permᴰ.cons refl (same-Permᴰ rest)

insert_auth-Permᴰ : (a : Auth) (bs : List Auth) → Permᴰ (a ∷ bs) (insert_auth a bs)
insert_auth-Permᴰ a [] = same-Permᴰ (a ∷ [])
insert_auth-Permᴰ a (b ∷ bs) =
    if-both (Permᴰ (a ∷ b ∷ bs)) (id_le a b) (a ∷ b ∷ bs) (b ∷ insert_auth a bs)
      (same-Permᴰ (a ∷ b ∷ bs))
      (Permᴰ.trans (Permᴰ.swap refl refl) (Permᴰ.cons refl (insert_auth-Permᴰ a bs)))

sort_auths-AreSorted : (auths : List Auth) → AreSorted (sort_auths auths)
unfolding sort_auths
sort_auths-AreSorted [] = tt
sort_auths-AreSorted (a ∷ rest) =
    insert_auth-AreSorted a (sort_auths rest) (sort_auths-AreSorted rest)

sort_auths-Permᴰ : (auths : List Auth) → Permᴰ auths (sort_auths auths)
unfolding sort_auths
sort_auths-Permᴰ [] = Permᴰ.nil
sort_auths-Permᴰ (a ∷ rest) =
    Permᴰ.trans (Permᴰ.cons refl (sort_auths-Permᴰ rest)) (insert_auth-Permᴰ a (sort_auths rest))

-- `eligibleCodexAuths` gives the eligible ones of the files, each as often as it is among them, in
-- the order of their IDs.
pub eligible_codex_auths-AreSorted :
    (lower : String → String) (files : List Auth)
    → AreSorted (eligible_codex_auths lower files)
      × Permᴰ (keep (is_eligible lower) files) (eligible_codex_auths lower files)
unfolding eligible_codex_auths
eligible_codex_auths-AreSorted lower files =
    let chosen = keep (is_eligible lower) files in
    (sort_auths-AreSorted chosen, sort_auths-Permᴰ chosen)
