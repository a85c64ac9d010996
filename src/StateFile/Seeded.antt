-- ===== src/StateFile/Seeded.antt =====
-- runtime.go: the accounts that `readState` seeds from the history when there are none.
use codex_daily_prewarm.Base.{
  All, Bool-cases, List, Map, String, [], ap, clash, false, if-both, if-false, if-true,
  if◌then◌else◌, inl, inr, insert, lookup, refl, str_eq, suc, sym, take, true, zero, ℕ, ◌∙◌, ◌∷◌,
  ◌≡◌,
}
use codex_daily_prewarm.Data.Account.{AccountWindow}
use codex_daily_prewarm.Data.Run.{AccountResult, RunRecord}
use codex_daily_prewarm.StateFile.Known.{Grows}
use codex_daily_prewarm.StateFile.Read.{
  is_nil, is_seed, seed_if_empty, seed_results, seed_runs, seeded, window_of,
}

pub take-All : {A : Type 0} (P : A → Type 0) (n : ℕ) (xs : List A) → All P xs → All P (take n xs)
take-All P zero xs all = tt
take-All P (suc n) [] all = tt
take-All P (suc n) (x ∷ xs) all = (all.0, take-All P n xs all.1)

-- A result that seeds no account.
abbrev IsNoSeed : AccountResult → Type 0
IsNoSeed res = is_seed res ≡ false

insert_not_nil :
    (account : String) (w : AccountWindow) (known : Map AccountWindow)
    → is_nil (insert account w known) ≡ false
unfolding insert
insert_not_nil account w [] = refl
insert_not_nil account w (entry ∷ rest) =
    if-both (λ l. is_nil l ≡ false) (str_eq entry.0 account) ((account, w) ∷ rest) _ refl refl

seed_results_nil :
    (results : List AccountResult) (known : Map AccountWindow)
    → is_nil (seed_results results known) ≡ true
    → (is_nil known ≡ true) × All IsNoSeed results
unfolding seed_results
seed_results_nil [] known h = (h, tt)
seed_results_nil (res ∷ rest) known h =
    let w = seeded res (window_of known res.account) in
    let next = if is_seed res then insert res.account w known else known in
    let later = seed_results_nil rest next h in
    elim (Bool-cases (is_seed res)) [
      | inl e ↦
          clash (is_nil (insert res.account w known))
            (sym (ap is_nil (if-true (is_seed res) (insert res.account w known) known e)) ∙ later.0)
            (insert_not_nil res.account w known)
      | inr e ↦ (
        sym (ap is_nil (if-false (is_seed res) (insert res.account w known) known e)) ∙ later.0,
        (e, later.1),
      )
    ]

seed_runs_nil :
    (runs : List RunRecord)
    → is_nil (seed_runs runs []) ≡ true
    → All (λ run. All IsNoSeed run.results) runs
unfolding seed_runs
seed_runs_nil [] h = tt
seed_runs_nil (run ∷ older) h =
    let s = seed_results_nil run.results (seed_runs older []) h in (s.1, seed_runs_nil older s.0)

seed_results_same :
    (results : List AccountResult) (known : Map AccountWindow)
    → All IsNoSeed results
    → seed_results results known ≡ known
unfolding seed_results
seed_results_same [] known all = refl
seed_results_same (res ∷ rest) known all =
    ap (seed_results rest) (if-false (is_seed res) _ known all.0)
    ∙ seed_results_same rest known all.1

seed_runs_same :
    (runs : List RunRecord) (known : Map AccountWindow)
    → All (λ run. All IsNoSeed run.results) runs
    → seed_runs runs known ≡ known
unfolding seed_runs
seed_runs_same [] known all = refl
seed_runs_same (run ∷ older) known all =
    seed_results_same run.results (seed_runs older known) all.0 ∙ seed_runs_same older known all.1

pub seed_if_empty-Grows :
    (runs : List RunRecord) (known : Map AccountWindow) → Grows known (seed_if_empty runs known)
unfolding lookup
seed_if_empty-Grows runs [] account h = cc
seed_if_empty-Grows runs (entry ∷ known) account h = h

pub seed_if_empty_again :
    (n : ℕ) (runs : List RunRecord) (known : Map AccountWindow)
    → seed_if_empty (take n runs) (seed_if_empty runs known) ≡ seed_if_empty runs known
seed_if_empty_again n runs (entry ∷ known) = refl
seed_if_empty_again n runs [] = elim (Bool-cases (is_nil (seed_runs runs []))) [
  | inr full ↦ if-false (is_nil (seed_runs runs [])) _ _ full
  | inl empty ↦
      if-true (is_nil (seed_runs runs [])) _ _ empty
      ∙ seed_runs_same (take n runs) (seed_runs runs [])
          (take-All (λ run. All IsNoSeed run.results) n runs (seed_runs_nil runs empty))
]
