-- ===== src/Run/Initial.antt =====
-- initial_quota.go: `fetchInitialUsagesUntil`. Its goroutines are workers that proceed in any order:
-- `takes_place` is the semaphore, with three places, `gives_up` the select on the stop signal, `answers`
-- the query itself, with the test for the signal in front of it. After the given events the workers
-- that are left finish one after the other, which is what `fetches.Wait` waits for.
use codex_daily_prewarm.Base.{
  List, Option, String, [], if◌then◌else◌, map, none, some, suc, zero, ℕ, ◌+◌, ◌-◌, ◌==◌, ◌∷◌,
}
use codex_daily_prewarm.Quota.{QuotaObservation, no_observation}
use codex_daily_prewarm.Run.Host.{Auth, RunHost, World, fetch_for}

abbrev pub FirstQuota : Type 0
FirstQuota = QuotaObservation × String

pub data Phase : Type 0 where
  in_line fetching : Phase
  answered_with : FirstQuota → Phase

abbrev pub Worker : Type 0
Worker = Auth × Phase

pub data InitialEvent : Type 0 where
  takes_place gives_up answers_query : ℕ → InitialEvent

abbrev pub interrupted_first : FirstQuota
interrupted_first = (no_observation, "interrupted")

pub record Fetches (W : Type 0) : Type 0 where
  pub workers : List Worker
  pub free : ℕ
  pub at_world : World W

abbrev pub worker_at : ℕ → List Worker → Option Worker
worker_at n [] = none
worker_at zero (x ∷ xs) = some x
worker_at (suc n) (x ∷ xs) = worker_at n xs

abbrev pub set_phase : ℕ → Phase → List Worker → List Worker
set_phase n p [] = []
set_phase zero p (x ∷ xs) = (x.0, p) ∷ xs
set_phase (suc n) p (x ∷ xs) = x ∷ set_phase n p xs

module _ {W : Type 0} (h : RunHost W) where
  abbrev pub started_fetches : List Auth → World W → Fetches W
  started_fetches auths w = record {
    workers = map (λ a. (a, in_line)) auths;
    free = 3;
    at_world = w;
  }

  -- The query of one worker, unless the stop signal has come.
  unfoldable pub first_query : Auth → World W → FirstQuota × World W
  first_query auth w =
      let (o, reason, w') = fetch_for h auth w in
      if h.is_stopped w then (interrupted_first, w) else ((o, reason), w')

  abbrev pub take_place : ℕ → Phase → Fetches W → Fetches W
  take_place n in_line s =
      if s.free == 0
      then s
      else record s { workers = set_phase n fetching s.workers; free = s.free - 1 }
  take_place n fetching s = s
  take_place n (answered_with first) s = s

  abbrev pub give_up : ℕ → Phase → Fetches W → Fetches W
  give_up n in_line s =
      if h.is_stopped s.at_world
      then record s { workers = set_phase n (answered_with interrupted_first) s.workers }
      else s
  give_up n fetching s = s
  give_up n (answered_with first) s = s

  abbrev pub answer_query : ℕ → Auth → Phase → Fetches W → Fetches W
  answer_query n auth in_line s = s
  answer_query n auth fetching s =
      let (first, w) = first_query auth s.at_world in
      record {
        workers = set_phase n (answered_with first) s.workers;
        free = s.free + 1;
        at_world = w;
      }
  answer_query n auth (answered_with first) s = s

  abbrev pub step_worker : InitialEvent → Option Worker → Fetches W → Fetches W
  step_worker e none s = s
  step_worker (takes_place n) (some x) s = take_place n x.1 s
  step_worker (gives_up n) (some x) s = give_up n x.1 s
  step_worker (answers_query n) (some x) s = answer_query n x.0 x.1 s

  abbrev pub event_index : InitialEvent → ℕ
  event_index (takes_place n) = n
  event_index (gives_up n) = n
  event_index (answers_query n) = n

  unfoldable pub fetch_step : InitialEvent → Fetches W → Fetches W
  fetch_step e s = step_worker e (worker_at (event_index e) s.workers) s

  unfoldable pub fetch_steps : List InitialEvent → Fetches W → Fetches W
  fetch_steps [] s = s
  fetch_steps (e ∷ es) s = fetch_steps es (fetch_step e s)

  abbrev pub rest_of_worker : Worker → World W → FirstQuota × World W
  rest_of_worker (auth, in_line) w = first_query auth w
  rest_of_worker (auth, fetching) w = first_query auth w
  rest_of_worker (auth, answered_with first) w = (first, w)

  unfoldable pub wait_for_all : List Worker → World W → List FirstQuota × World W
  wait_for_all [] w = ([], w)
  wait_for_all (x ∷ xs) w =
      let (first, w1) = rest_of_worker x w in
      let (firsts, w2) = wait_for_all xs w1 in (first ∷ firsts, w2)

  unfoldable pub fetch_initial_usages_until :
      List InitialEvent → List Auth → World W → List FirstQuota × World W
  fetch_initial_usages_until es auths w =
      let s = fetch_steps es (started_fetches auths w) in wait_for_all s.workers s.at_world
