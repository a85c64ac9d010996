-- ===== src/StateFile/Migrated.antt =====
-- runtime.go: what `readState` makes of an old state, which a later `readState` leaves as it is.
use mathlib.Core.Path.{ap₂, subst}
use codex_daily_prewarm.Base.{
  All, All-map, Bool-cases, List, Map, Option, [], ap, arith, if-false, if-true, inl, inr, length,
  length-take-le, ltb, none, refl, some, suc, sym, take, zero, ℕ, ◌∙◌, ◌∷◌, ◌≡◌, ◌≤◌,
}
use codex_daily_prewarm.Clock.{Time}
use codex_daily_prewarm.Data.Account.{AccountWindow}
use codex_daily_prewarm.Data.Run.{AccountResult, RunRecord}
use codex_daily_prewarm.Data.State.{RuntimeState, new_state}
use codex_daily_prewarm.Run.Finish.{max_history_items}
use codex_daily_prewarm.StateFile.Known.{
  Grows, IsImported, IsImported-Grows, IsImported-later, import_result-Grows,
  import_result-IsImported,
}
use codex_daily_prewarm.StateFile.Read.{
  ReadState, StateFile, StateText, decoded_state, file_text, import_result, import_results,
  import_runs, is_importable, is_version, max_state_size, migrated, missing_state, no_file, read_as,
  read_state, refused_state, seed_if_empty, unreadable_file,
}
use codex_daily_prewarm.StateFile.Seeded.{seed_if_empty-Grows, seed_if_empty_again, take-All}
use codex_daily_prewarm.StateFile.Write.{written_state}

abbrev AreImported : Time → Map AccountWindow → List RunRecord → Type 0
AreImported now known runs = All (λ run. All (IsImported now known) run.results) runs

runs-AreImported :
    (P Q : AccountResult → Type 0) (runs : List RunRecord)
    → ((res : AccountResult) → P res → Q res)
    → All (λ run. All P run.results) runs
    → All (λ run. All Q run.results) runs
runs-AreImported P Q [] f all = tt
runs-AreImported P Q (run ∷ runs) f all =
    (All-map P Q run.results f all.0, runs-AreImported P Q runs f all.1)

module _ (original : Map AccountWindow) (now : Time) where
  import_results-Grows :
      (results : List AccountResult) (known : Map AccountWindow)
      → Grows known (import_results original now results known)
  unfolding import_results
  import_results-Grows [] known account h = h
  import_results-Grows (res ∷ rest) known account h =
      import_results-Grows rest (import_result original now res known) account
        (import_result-Grows original known now res account h)

  import_results-AreImported :
      (results : List AccountResult) (known : Map AccountWindow)
      → Grows original known
      → All (IsImported now (import_results original now results known)) results
  unfolding import_results
  import_results-AreImported [] known g = tt
  import_results-AreImported (res ∷ rest) known g =
      let next = import_result original now res known in
      (
        IsImported-Grows now next (import_results original now rest next) res
            (import_results-Grows rest next) (import_result-IsImported original known now res g),
        import_results-AreImported rest next
            (λ account h. import_result-Grows original known now res account (g account h)),
      )

  import_runs-Grows :
      (runs : List RunRecord) (known : Map AccountWindow)
      → Grows known (import_runs original now runs known)
  unfolding import_runs
  import_runs-Grows [] known account h = h
  import_runs-Grows (run ∷ runs) known account h =
      import_runs-Grows runs (import_results original now run.results known) account
        (import_results-Grows run.results known account h)

  import_runs-AreImported :
      (runs : List RunRecord) (known : Map AccountWindow)
      → Grows original known
      → AreImported now (import_runs original now runs known) runs
  unfolding import_runs
  import_runs-AreImported [] known g = tt
  import_runs-AreImported (run ∷ runs) known g =
      let next = import_results original now run.results known in
      let last = import_runs original now runs next in
      (
        All-map (IsImported now next) (IsImported now last) run.results
            (λ res. IsImported-Grows now next last res (import_runs-Grows runs next))
            (import_results-AreImported run.results known g),
        import_runs-AreImported runs next
            (λ account h. import_results-Grows run.results known account (g account h)),
      )

-- Without a result to import, nothing changes.
import_results_same :
    (known : Map AccountWindow) (now : Time) (results : List AccountResult)
    → All (IsImported now known) results
    → import_results known now results known ≡ known
unfolding import_results import_result
import_results_same known now [] all = refl
import_results_same known now (res ∷ rest) all =
    ap (import_results known now rest) (if-false (is_importable known now res) _ _ all.0)
    ∙ import_results_same known now rest all.1

import_runs_same :
    (known : Map AccountWindow) (now : Time) (runs : List RunRecord)
    → AreImported now known runs
    → import_runs known now runs known ≡ known
unfolding import_runs
import_runs_same known now [] all = refl
import_runs_same known now (run ∷ runs) all =
    ap (import_runs known now runs) (import_results_same known now run.results all.0)
    ∙ import_runs_same known now runs all.1

take-take : {A : Type 0} (n : ℕ) (xs : List A) → take n (take n xs) ≡ take n xs
take-take zero xs = refl
take-take (suc n) [] = refl
take-take (suc n) (x ∷ xs) = ap (λ l. x ∷ l) (take-take n xs)

migrated_again :
    (now later : Time) (s : RuntimeState)
    → now ≤ later
    → migrated later (migrated now s) ≡ migrated now s
unfolding migrated
migrated_again now later s le =
    let imported = import_runs s.accounts now s.history s.accounts in
    let accounts' = seed_if_empty s.history imported in
    let history' = take max_history_items s.history in
    let all : AreImported later accounts' history' =
      take-All (λ run. All (IsImported later accounts') run.results) max_history_items s.history
        (runs-AreImported (IsImported now imported) (IsImported later accounts') s.history
          (λ res h. IsImported-later now later accounts' res le (
            IsImported-Grows now imported accounts' res (seed_if_empty-Grows s.history imported) h))
          (import_runs-AreImported s.accounts now s.history s.accounts (λ account h. h))) in
    let same_accounts : seed_if_empty history' (import_runs accounts' later history' accounts')
        ≡ accounts' =
      ap (seed_if_empty history') (import_runs_same accounts' later history' all)
      ∙ seed_if_empty_again max_history_items s.history imported in
    ap₂ (λ a l. record s { accounts = a; history = l }) same_accounts
      (take-take max_history_items s.history)

state_of : ReadState → RuntimeState
state_of missing_state = new_state
state_of refused_state = new_state
state_of (read_as s) = s

decoded_state_text :
    (text : Option StateText) (now : Time) (s : RuntimeState)
    → decoded_state text now ≡ read_as s
    → (old : RuntimeState) × (migrated now old ≡ s)
unfolding state_of
decoded_state_text none now s h = cc
decoded_state_text (some t) now s h = elim (Bool-cases (is_version t.version)) [
  | inl known ↦
      (t.stated, ap state_of (sym (if-true (is_version t.version) _ refused_state known) ∙ h))
  | inr other ↦
      let refused_too : refused_state ≡ read_as s =
        sym (if-false (is_version t.version) (read_as (migrated now t.stated)) _ other) ∙ h in
      cc
]

read_state_text :
    (file : StateFile) (now : Time) (s : RuntimeState)
    → read_state file now ≡ read_as s
    → (old : RuntimeState) × (migrated now old ≡ s)
unfolding read_state
read_state_text no_file now s h = cc
read_state_text unreadable_file now s h = cc
read_state_text (file_text size text) now s h = elim (Bool-cases (ltb max_state_size size)) [
  | inl large ↦
      let refused_too : refused_state ≡ read_as s =
        sym (if-true (ltb max_state_size size) _ (decoded_state text now) large) ∙ h in
      cc
  | inr small ↦
      decoded_state_text text now s
        (sym (if-false (ltb max_state_size size) refused_state _ small) ∙ h)
]

-- The state that `readState` has returned has at most thirty runs, and when it is written and read
-- again at any later time, in a file within the limit of two megabytes, it comes back unchanged: the
-- attempts and the accounts of an older version are taken over once.
pub read_state-written_state :
    (file : StateFile) (now later : Time) (size : ℕ) (s : RuntimeState)
    → read_state file now ≡ read_as s
    → now ≤ later
    → size ≤ max_state_size
    → (length s.history ≤ max_history_items)
      × (read_state (file_text size (some (written_state s))) later ≡ read_as s)
unfolding read_state migrated
read_state-written_state file now later size s h le fits =
    let (old, e) = read_state_text file now s h in
    (
      subst (λ x. length x.history ≤ max_history_items) e
          (length-take-le max_history_items old.history),
      if-false (ltb max_state_size size) _ _ (ground (arith, fits))
          ∙ ap read_as (subst (λ x. migrated later x ≡ x) e (migrated_again now later old le)),
    )
