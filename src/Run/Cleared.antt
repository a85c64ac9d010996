-- ===== src/Run/Cleared.antt =====
-- runtime.go: the model calls of `executeRun` as a whole.
use mathlib.Core.Path.{subst}
use codex_daily_prewarm.Base.{
  Bool, List, Option, [], false, if-both, if-split, inl, inr, length, none, refl, some, sym, true,
  ℕ, ◌==◌, ◌∷◌, ◌≡◌, ◌⊎◌,
}
use codex_daily_prewarm.Clock.{Time}
use codex_daily_prewarm.Data.Config.{PluginConfig}
use codex_daily_prewarm.Data.Run.{AccountResult, RunRecord, RunRequest}
use codex_daily_prewarm.Data.State.{Runtime}
use codex_daily_prewarm.Run.Account.{step_account}
use codex_daily_prewarm.Run.Clearance.{AreCalled, IsCleared, step_account-StepCleared}
use codex_daily_prewarm.Run.Finish.{
  append_run, audited, effective_request, execute_run, finish_record, judged_run, run_body,
  run_files, run_inventory, run_queries, started_run,
}
use codex_daily_prewarm.Run.Host.{Auth, RunHost, World, account_fingerprint}
use codex_daily_prewarm.Run.Initial.{FirstQuota, InitialEvent, fetch_initial_usages_until}
use codex_daily_prewarm.Run.Inventory.{
  abort_for_account_count, eligible_codex_auths, selected_auths,
}
use codex_daily_prewarm.Run.Loop.{pairs, run_accounts}

module _ {W : Type 0} (h : RunHost W) (cfg : PluginConfig) (request : RunRequest) where
  -- One of the accounts that the loop comes to, each with the answer to its first query, the time of
  -- the last call so far and the world at its turn.
  pub IsReached :
      (Auth → FirstQuota → Time → World W → Type 0)
      → List (Auth × FirstQuota)
      → RunRecord
      → Time
      → World W
      → Type 0
  IsReached P [] run last w = ⊥
  IsReached P ((auth, first) ∷ rest) run last w =
      let s = step_account h cfg request auth first run last w in
      P auth first last w ⊎ ((s.2 ≡ true) × IsReached P rest s.0 s.1 s.3)

  -- The same for the accounts of a run: the chosen ones among the eligible files, with the answers of
  -- their first queries.
  abbrev pub IsReachedFrom :
      (Auth → FirstQuota → Time → World W → Type 0)
      → List InitialEvent
      → Option (List Auth)
      → RunRecord
      → World W
      → Type 0
  IsReachedFrom P es none run w = ⊥
  IsReachedFrom P es (some files) run w =
      let chosen =
        selected_auths (account_fingerprint h) request.target_account
          (eligible_codex_auths h.lower files) in
      let q = fetch_initial_usages_until h es chosen w in
      IsReached P (pairs chosen q.0) (record run { discovered = length chosen }) 0 q.1

  -- The result of an account that the run comes to, with its clearance.
  abbrev pub IsReachedResult : List InitialEvent → RunRecord → World W → AccountResult → Type 0
  IsReachedResult es run w res =
      let files = h.list_files (h.refresh_display w) in
      IsReachedFrom (λ auth first last w'. IsCleared h cfg request auth first last w' res) es
        files.0 run files.1

  module _ (Q : AccountResult → Type 0) where
    Reaches : List (Auth × FirstQuota) → RunRecord → Time → World W → Type 0
    Reaches items run last w =
        (res : AccountResult)
        → IsReached (λ auth first l w'. IsCleared h cfg request auth first l w' res) items run last
            w
        → Q res

    run_accounts-AreCalled :
        (items : List (Auth × FirstQuota)) (run : RunRecord) (last : Time) (w : World W)
        → Reaches items run last w
        → AreCalled Q run.results
        → AreCalled Q (run_accounts h cfg request items run last w).0.results
    unfolding run_accounts IsReached Reaches
    run_accounts-AreCalled [] run last w on clean = clean
    run_accounts-AreCalled ((auth, first) ∷ rest) run last w on clean =
        let s = step_account h cfg request auth first run last w in
        let clean' =
          step_account-StepCleared h cfg request auth Q first run last w (λ res c. on res (inl c))
            clean in
        if-split {A = RunRecord × Bool × World W} (λ p. AreCalled Q p.0.results) s.2
          (run_accounts h cfg request rest s.0 s.1 s.3) (s.0, false, s.3)
          (λ goes. run_accounts-AreCalled rest s.0 s.1 s.3 (λ res r. on res (inr (goes, r))) clean')
          (λ _. clean')

    run_queries-AreCalled :
        (es : List InitialEvent) (auths : List Auth) (run : RunRecord) (w : World W)
        → (let q = fetch_initial_usages_until h es auths w in Reaches (pairs auths q.0) run 0 q.1)
        → AreCalled Q run.results
        → AreCalled Q (run_queries h cfg request es auths run w).0.results
    unfolding run_queries
    run_queries-AreCalled es auths run w on clean =
        let q = fetch_initial_usages_until h es auths w in
        let p = run_accounts h cfg request (pairs auths q.0) run 0 q.1 in
        let clean' = run_accounts-AreCalled (pairs auths q.0) run 0 q.1 on clean in
        if-both {A = RunRecord × World W} (λ p. AreCalled Q p.0.results) (h.is_stopped q.1) _ _
          clean
          (if-both {A = RunRecord × World W} (λ p. AreCalled Q p.0.results) p.1 _ _ clean' clean')

    run_inventory-AreCalled :
        (es : List InitialEvent) (auths : List Auth) (run : RunRecord) (w : World W)
        → (let chosen = selected_auths (account_fingerprint h) request.target_account auths in
            let q = fetch_initial_usages_until h es chosen w in
            Reaches (pairs chosen q.0) (record run { discovered = length chosen }) 0 q.1)
        → AreCalled Q run.results
        → AreCalled Q (run_inventory h cfg request es auths run w).0.results
    unfolding run_inventory
    run_inventory-AreCalled es auths run w on clean =
        let chosen = selected_auths (account_fingerprint h) request.target_account auths in
        let P : RunRecord × World W → Type 0 = λ p. AreCalled Q p.0.results in
        if-both P (abort_for_account_count cfg.expected_account_count (length auths)) _ _ clean (
          if-both P (length auths == 0) _ _ clean (
            if-both P (length chosen == 0) _ _ clean (
              run_queries-AreCalled es chosen (record run { discovered = length chosen }) w on
                clean)))

    run_files-AreCalled :
        (es : List InitialEvent) (files : Option (List Auth)) (run : RunRecord) (w : World W)
        → ((res : AccountResult)
            → IsReachedFrom
                (λ auth first l w'. IsCleared h cfg request auth first l w' res)
                es
                files
                run
                w
            → Q res)
        → AreCalled Q run.results
        → AreCalled Q (run_files h cfg request es files run w).0.results
    unfolding Reaches
    run_files-AreCalled es none run w on clean = clean
    run_files-AreCalled es (some files) run w on clean =
        run_inventory-AreCalled es (eligible_codex_auths h.lower files) run w on clean

    run_body-AreCalled :
        (es : List InitialEvent) (run : RunRecord) (w : World W)
        → ((res : AccountResult) → IsReachedResult es run w res → Q res)
        → AreCalled Q run.results
        → AreCalled Q (run_body h cfg request es run w).0.results
    unfolding run_body
    run_body-AreCalled es run w on clean =
        if-both {A = RunRecord × World W} (λ p. AreCalled Q p.0.results) (h.is_stopped w) _ _ clean
          (run_files-AreCalled es _ run _ on clean)

append_run-results :
    (run : RunRecord) (written : Bool) (r : Runtime)
    → (append_run run written r).0.results ≡ run.results
unfolding append_run
append_run-results run true r = refl
append_run-results run false r = refl

module _ {W : Type 0} (h : RunHost W) where
  finish_record-results :
      (cfg : PluginConfig) (request : RunRequest) (es : List InitialEvent) (failures : ℕ)
      (run : RunRecord) (w : World W)
      → (finish_record h cfg request es failures run w).1.results ≡ run.results
  unfolding finish_record judged_run
  finish_record-results cfg request es failures run w = append_run-results _ _ _

  -- Whatever the surroundings answer, and whatever they do to the runtime in between: each result of
  -- `executeRun` counts no model attempt, or it is of an account that the run comes to, with the
  -- answer of its own first query. In that case the run was not a dry run, a quota refresh or an
  -- observation, the allowlist was empty or had the account, that answer has no error and made it a
  -- candidate, the second look found it idle on the evidence of two queries, and the limits allowed a
  -- call at the end of that look; and it is the result of the model called right after it.
  pub execute_run-AreCleared :
      (cfg : PluginConfig) (request : RunRequest) (es : List InitialEvent) (w : World W)
      → let request' = effective_request request in
        AreCalled
          (IsReachedResult h cfg request' es
            (started_run cfg request' (h.run_clock w))
            (audited h w))
          (execute_run h cfg request es w).1.results
  unfolding execute_run
  execute_run-AreCleared cfg request' es w =
      let request = effective_request request' in
      let run = started_run cfg request (h.run_clock w) in
      let Q = IsReachedResult h cfg request es run (audited h w) in
      let body = run_body h cfg request es run (audited h w) in
      subst (AreCalled Q)
        (sym (finish_record-results cfg request es w.0.state_write_failures body.0 body.1))
        (run_body-AreCalled h cfg request Q es run (audited h w) (λ res r. r) tt)
