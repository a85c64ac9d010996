-- ===== src/Run/Ended.antt =====
-- runtime.go: the loop of `executeRun` and what ends a run, as far as its record counts results.
use Prim.Native.Char.{code}
use mathlib.Core.Path.{subst}
use codex_daily_prewarm.Base.{
  Bool, Bool-cases, List, Option, String, [], ap, arith, clash, false, if-both, if-false, if-true,
  if◌then◌else◌, inl, inr, length, none, refl, some, suc, sym, true, ℕ, ◌==◌, ◌∙◌, ◌∷◌, ◌≡◌,
}
use codex_daily_prewarm.Clock.{Time}
use codex_daily_prewarm.Data.Config.{PluginConfig}
use codex_daily_prewarm.Data.Run.{RunRecord, RunRequest}
use codex_daily_prewarm.Run.Account.{interrupted_run, step_account}
use codex_daily_prewarm.Run.Check.{is_empty}
use codex_daily_prewarm.Run.Counted.{IsTallied, Went, step_account-StepWent}
use codex_daily_prewarm.Run.Finish.{
  closed_run, reset_spread, run_body, run_files, run_inventory, run_queries, with_run_error,
}
use codex_daily_prewarm.Run.Host.{Auth, RunHost, World, account_fingerprint}
use codex_daily_prewarm.Run.Initial.{FirstQuota, InitialEvent, fetch_initial_usages_until}
use codex_daily_prewarm.Run.Inventory.{
  abort_for_account_count, eligible_codex_auths, selected_auths,
}
use codex_daily_prewarm.Run.Loop.{pairs, run_accounts}
use codex_daily_prewarm.Run.Places.{fetch_initial_usages_until-AreAnswers, pairs-length}

no_more-Went : (run : RunRecord) → Went run 0 run true
no_more-Went run = record {
  tallied = λ t. t;
  same_discovered = refl;
  went_on = λ _. (omega arith, refl);
  cut_short = λ e. cc;
}

Went-next :
    (run mid run' : RunRecord) (n : ℕ) (done : Bool)
    → Went run 1 mid true
    → Went mid n run' done
    → Went run (suc n) run' done
Went-next run mid run' n done g k = record {
  tallied = λ t. k.tallied (g.tallied t);
  same_discovered = k.same_discovered ∙ g.same_discovered;
  went_on = λ e.
      let first = g.went_on refl in
      let later = k.went_on e in (omega (arith, first.0, later.0), later.1 ∙ first.1);
  cut_short = k.cut_short;
}

Went-cut : (run run' : RunRecord) (n m : ℕ) → Went run n run' false → Went run m run' false
Went-cut run run' n m g = record {
  tallied = g.tallied;
  same_discovered = g.same_discovered;
  went_on = λ e. cc;
  cut_short = g.cut_short;
}

-- A record at the end of the run, before the deferred function.
pub record IsEnded (run : RunRecord) : Type 0 where
  pub tally : IsTallied run
  pub complete : is_empty run.run_error_code ≡ true → length run.results ≡ run.discovered

-- A record without results.
abbrev pub IsFresh : RunRecord → Type 0
IsFresh run =
    (run.results ≡ [])
    × (run.succeeded ≡ 0)
    × (run.skipped ≡ 0)
    × (run.failed_count ≡ 0)
    × (run.attempted ≡ 0)

IsFresh-IsTallied : (run : RunRecord) → IsFresh run → IsTallied run
IsFresh-IsTallied run f = record {
  every = rw f.0 (omega (arith, f.1, f.2, f.3));
  answered_count = rw f.0 f.1;
  called_count = rw f.0 f.4;
  skipped_count = rw f.0 f.2;
}

closed_run-IsTallied :
    (p : ℕ × Option ℕ) (run : RunRecord) → IsTallied run → IsTallied (closed_run p run)
closed_run-IsTallied p run t = record {
  every = t.every;
  answered_count = t.answered_count;
  called_count = t.called_count;
  skipped_count = t.skipped_count;
}

coded-IsEnded :
    (code : String) (run : RunRecord)
    → is_empty code ≡ false
    → IsTallied run
    → IsEnded (with_run_error code run)
coded-IsEnded code run stuck t = record {
  tally = record {
    every = t.every;
    answered_count = t.answered_count;
    called_count = t.called_count;
    skipped_count = t.skipped_count;
  };
  complete = λ e. clash (is_empty code) e stuck;
}

module _ {W : Type 0} (h : RunHost W) (cfg : PluginConfig) (request : RunRequest) where
  run_accounts-Went :
      (items : List (Auth × FirstQuota)) (run : RunRecord) (last : Time) (w : World W)
      → Went run
          (length items)
          (run_accounts h cfg request items run last w).0
          (run_accounts h cfg request items run last w).1
  unfolding run_accounts
  run_accounts-Went [] run last w = no_more-Went run
  run_accounts-Went ((auth, first) ∷ rest) run last w =
      let s = step_account h cfg request auth first run last w in
      let g = step_account-StepWent h cfg request auth first run last w in
      let after = run_accounts h cfg request rest s.0 s.1 s.3 in
      let P : RunRecord × Bool × World W → Type 0 = λ p. Went run (suc (length rest)) p.0 p.1 in
      elim (Bool-cases s.2) [
        | inl on ↦ subst P (sym (if-true s.2 after (s.0, false, s.3) on)) (
            Went-next run s.0 after.0 (length rest) after.1 (subst (λ b. Went run 1 s.0 b) on g)
              (run_accounts-Went rest s.0 s.1 s.3))
        | inr off ↦
            subst P (sym (if-false s.2 after (s.0, false, s.3) off))
              (Went-cut run s.0 1 (suc (length rest)) (subst (λ b. Went run 1 s.0 b) off g))
      ]

  run_queries-IsEnded :
      (es : List InitialEvent) (auths : List Auth) (run : RunRecord) (w : World W)
      → IsFresh run
      → run.discovered ≡ length auths
      → IsEnded (run_queries h cfg request es auths run w).0
  unfolding run_queries
  run_queries-IsEnded es auths run w f found =
      let q = fetch_initial_usages_until h es auths w in
      let items = pairs auths q.0 in
      let p = run_accounts h cfg request items run 0 q.1 in
      let g = run_accounts-Went items run 0 q.1 in
      let t = g.tallied (IsFresh-IsTallied run f) in
      let spread = reset_spread (account_fingerprint h) auths (h.run_clock p.2) p.2.0 in
      let count =
        pairs-length h auths q.0 (fetch_initial_usages_until-AreAnswers h es auths w).1.0 in
      let P : RunRecord × World W → Type 0 = λ x. IsEnded x.0 in
      if-both P (h.is_stopped q.1) (interrupted_run run, q.1)
        (if p.1 then (closed_run spread p.0, p.2) else (p.0, p.2))
        (coded-IsEnded "interrupted" run refl (IsFresh-IsTallied run f))
        (elim (Bool-cases p.1) [
          | inl done ↦
              subst P (sym (if-true p.1 (closed_run spread p.0, p.2) (p.0, p.2) done)) (record {
                tally = closed_run-IsTallied spread p.0 t;
                complete = λ _.
                    let none_yet : length run.results ≡ 0 = ap length f.0 in
                    omega (arith, (g.went_on done).0, none_yet, count, found, g.same_discovered);
              })
          | inr cut ↦
              subst P (sym (if-false p.1 (closed_run spread p.0, p.2) (p.0, p.2) cut)) (record {
                tally = t;
                complete = λ e.
                    clash (is_empty "interrupted") (sym (ap is_empty (g.cut_short cut)) ∙ e) refl;
              })
        ])

  run_inventory-IsEnded :
      (es : List InitialEvent) (auths : List Auth) (run : RunRecord) (w : World W)
      → IsFresh run
      → IsEnded (run_inventory h cfg request es auths run w).0
  unfolding run_inventory
  run_inventory-IsEnded es auths run w f =
      let chosen = selected_auths (account_fingerprint h) request.target_account auths in
      let P : RunRecord × World W → Type 0 = λ p. IsEnded p.0 in
      let t = IsFresh-IsTallied run f in
      if-both P (abort_for_account_count cfg.expected_account_count (length auths)) _ _
        (coded-IsEnded "unexpected_account_count" run refl t)
        (if-both P (length auths == 0) _ _ (coded-IsEnded "no_eligible_codex_accounts" run refl t) (
          if-both P (length chosen == 0) _ _ (coded-IsEnded "target_account_unavailable" run refl t)
            (run_queries-IsEnded es chosen (record run { discovered = length chosen }) w f refl)))

  run_files-IsEnded :
      (es : List InitialEvent) (files : Option (List Auth)) (run : RunRecord) (w : World W)
      → IsFresh run
      → IsEnded (run_files h cfg request es files run w).0
  run_files-IsEnded es none run w f =
      coded-IsEnded "auth_inventory_unavailable" run refl (IsFresh-IsTallied run f)
  run_files-IsEnded es (some files) run w f =
      run_inventory-IsEnded es (eligible_codex_auths h.lower files) run w f

  pub run_body-IsEnded :
      (es : List InitialEvent) (run : RunRecord) (w : World W)
      → IsFresh run
      → IsEnded (run_body h cfg request es run w).0
  unfolding run_body
  run_body-IsEnded es run w f =
      if-both {A = RunRecord × World W} (λ p. IsEnded p.0) (h.is_stopped w) (interrupted_run run, w)
        _ (coded-IsEnded "interrupted" run refl (IsFresh-IsTallied run f))
        (run_files-IsEnded es _ run _ f)
