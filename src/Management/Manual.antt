-- ===== src/Management/Manual.antt =====
-- management.go, runtime.go: how a manual run is answered.
use mathlib.Core.Option.{none-ne-some, some-injective}
use mathlib.Core.Path.{subst}
use codex_daily_prewarm.Base.{
  Bool, Bool-cases, List, Option, String, [], any, ap, arith, eq_refl, false, if-false, if-split,
  if-true, if◌then◌else◌, inl, inr, none, refl, some, str_eq, sym, true, ◌||◌, ◌∙◌, ◌∷◌, ◌≡◌,
}
use codex_daily_prewarm.Data.Config.{PrewarmJob}
use codex_daily_prewarm.Data.Run.{RunRequest}
use codex_daily_prewarm.Data.State.{Runtime}
use codex_daily_prewarm.Lifecycle.Queue.{
  Started, find_job, first_name, is_refused, job_not_found, manual_request, shutting_down,
  start_named_run, start_run_job,
}
use codex_daily_prewarm.Management.Dispatch.{
  ManagementResponse, RunInput, manual_start, refused_request, run_answer, run_started,
}

-- A job that a run may be asked for by this name: any, without one.
abbrev pub is_asked : RunInput → PrewarmJob → Bool
is_asked input j = str_eq input.input_job "" || str_eq j.name input.input_job

-- A manual run is refused and the runtime stays as it is: a run is going on, the plugin has been shut
-- down, or there is no such job. Otherwise the runtime was open and not running, and a run of the
-- job that was asked for is now going on.
pub data IsManualRun (input : RunInput) (r : Runtime) (p : ManagementResponse × Runtime)
    : Type 0 where
  run_conflict :
      r.running ≡ true → p ≡ (refused_request 409 "already_running", r) → IsManualRun input r p
  run_closed :
      r.closed ≡ true → p ≡ (refused_request 503 "runtime_error", r) → IsManualRun input r p
  run_of_no_job :
      any (is_asked input) r.cfg.jobs ≡ false
      → p ≡ (refused_request 400 "job_not_found", r)
      → IsManualRun input r p
  run_begun :
      (q : RunRequest)
      → r.closed ≡ false
      → r.running ≡ false
      → q.trigger ≡ "manual"
      → q.force ≡ input.input_force
      → q.notify ≡ input.input_notify
      → is_asked input q.job ≡ true
      → p ≡ (
        run_started input,
        record r { running = true; current_request = some q; last_error = "" },
      )
      → IsManualRun input r p

find_job-name :
    (wanted : String) (jobs : List PrewarmJob) (j : PrewarmJob)
    → find_job wanted jobs ≡ some j
    → str_eq j.name wanted ≡ true
find_job-name wanted [] j e = absurd (none-ne-some j e)
find_job-name wanted (x ∷ xs) j e = elim (Bool-cases (str_eq x.name wanted)) [
  | inl same ↦
      subst (λ k. str_eq k.name wanted ≡ true)
        (some-injective x j (sym (if-true (str_eq x.name wanted) _ _ same) ∙ e)) same
  | inr other ↦ find_job-name wanted xs j (sym (if-false (str_eq x.name wanted) _ _ other) ∙ e)
]

find_job-none :
    (input : RunInput) (jobs : List PrewarmJob)
    → str_eq input.input_job "" ≡ false
    → find_job input.input_job jobs ≡ none
    → any (is_asked input) jobs ≡ false
find_job-none input [] named e = refl
find_job-none input (x ∷ xs) named e = elim (Bool-cases (str_eq x.name input.input_job)) [
  | inl same ↦ absurd (none-ne-some x (sym e ∙ if-true (str_eq x.name input.input_job) _ _ same))
  | inr other ↦
      let later : any (is_asked input) xs ≡ false =
        find_job-none input xs named
          (sym (if-false (str_eq x.name input.input_job) _ _ other) ∙ e) in
      ground (arith, named, other, later)
]

-- The answer to a manual start with the runtime after it.
abbrev answered : RunInput → Started × Runtime → ManagementResponse × Runtime
answered input p = (run_answer input p.0, p.1)

module _ (input : RunInput) (r : Runtime) where
  -- The job that is asked for: the first one for an empty name.
  abbrev wanted_job : String
  wanted_job = if str_eq input.input_job "" then first_name r.cfg.jobs else input.input_job

  start_run_job-IsManualRun :
      (q : RunRequest)
      → q.request_generation ≡ r.generation
      → q.trigger ≡ "manual"
      → q.force ≡ input.input_force
      → q.notify ≡ input.input_notify
      → is_asked input q.job ≡ true
      → IsManualRun input r (answered input (start_run_job q r))
  unfolding start_run_job
  start_run_job-IsManualRun q gen source forced notified of_job =
      let P : Started × Runtime → Type 0 = λ p. IsManualRun input r (answered input p) in
      if-split P (is_refused r q) (shutting_down, r) _
        (λ shut. run_closed (ground (arith, shut, gen)) refl)
        (λ ready.
          if-split P r.running _ _ (λ busy. rw source (run_conflict busy refl))
            (λ free. run_begun q (ground (arith, ready)) free source forced notified of_job refl))

  found-IsManualRun :
      (found : Option PrewarmJob)
      → find_job wanted_job r.cfg.jobs ≡ found
      → IsManualRun input r (
          answered input (elim found [
            | none ↦ (job_not_found, r)
            | some j ↦
                start_run_job
                  (manual_request r.generation "manual" j input.input_force input.input_notify)
                  r
          ]))
  found-IsManualRun none e = run_of_no_job (not_found r.cfg.jobs e) refl
    where
      not_found :
          (jobs : List PrewarmJob)
          → find_job (if str_eq input.input_job "" then first_name jobs else input.input_job) jobs
            ≡ none
          → any (is_asked input) jobs ≡ false
      not_found [] e = refl
      not_found (x ∷ xs) e = elim (Bool-cases (str_eq input.input_job "")) [
        | inl first ↦ absurd (none-ne-some x (sym (rw (first, eq_refl x.name) at e)))
        | inr other ↦ find_job-none input (x ∷ xs) other (
            sym (ap (λ w. find_job w (x ∷ xs)) (if-false (str_eq input.input_job "") _ _ other))
            ∙ e)
      ]
  found-IsManualRun (some j) e =
      start_run_job-IsManualRun
        (manual_request r.generation "manual" j input.input_force input.input_notify) refl refl refl
        refl (wanted j (find_job-name wanted_job r.cfg.jobs j e))
    where
      wanted : (j : PrewarmJob) → str_eq j.name wanted_job ≡ true → is_asked input j ≡ true
      wanted j e = elim (Bool-cases (str_eq input.input_job "")) [
        | inl any ↦ rw any refl
        | inr other ↦
            rw other (sym (ap (str_eq j.name) (if-false (str_eq input.input_job "") _ _ other)) ∙ e)
      ]

  pub manual_start-IsManualRun : IsManualRun input r (answered input (manual_start input r))
  unfolding start_named_run
  manual_start-IsManualRun = found-IsManualRun (find_job wanted_job r.cfg.jobs) refl
