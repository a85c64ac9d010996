-- ===== src/Run/Places.antt =====
-- initial_quota.go: the places of the semaphore, and what the first queries give.
use mathlib.Core.Option.{some-injective}
use mathlib.Core.Path.{subst}
use codex_daily_prewarm.Base.{
  All, Bool, Bool-cases, List, Option, [], ap, arith, false, if-false, if-true, inl, inr, keep,
  length, map, none, refl, some, suc, sym, true, zero, ℕ, ◌+◌, ◌==◌, ◌∙◌, ◌∷◌, ◌≡◌, ◌≤◌,
}
use codex_daily_prewarm.Run.Host.{Auth, RunHost, World, fetch_for}
use codex_daily_prewarm.Run.Initial.{
  Fetches, FirstQuota, InitialEvent, Phase, Worker, answered_with, answers_query, event_index,
  fetch_initial_usages_until, fetch_step, fetch_steps, fetching, first_query, gives_up, in_line,
  interrupted_first, rest_of_worker, set_phase, started_fetches, step_worker, takes_place,
  wait_for_all, worker_at,
}
use codex_daily_prewarm.Run.Loop.{pairs}

set_phase-length : (n : ℕ) (p : Phase) (xs : List Worker) → length (set_phase n p xs) ≡ length xs
set_phase-length n p [] = refl
set_phase-length zero p (x ∷ xs) = refl
set_phase-length (suc n) p (x ∷ xs) = ap suc (set_phase-length n p xs)

abbrev pub is_fetching : Worker → Bool
is_fetching (auth, in_line) = false
is_fetching (auth, fetching) = true
is_fetching (auth, answered_with first) = false

-- The workers that hold a place.
abbrev pub fetching_count : List Worker → ℕ
fetching_count xs = length (keep is_fetching xs)

abbrev holds : Phase → ℕ
holds in_line = 0
holds fetching = 1
holds (answered_with first) = 0

fetching_count-cons :
    (auth : Auth) (p : Phase) (xs : List Worker)
    → fetching_count ((auth, p) ∷ xs) ≡ holds p + fetching_count xs
fetching_count-cons auth in_line xs = omega arith
fetching_count-cons auth fetching xs = omega arith
fetching_count-cons auth (answered_with first) xs = omega arith

set_phase-count :
    (n : ℕ) (p : Phase) (xs : List Worker) (auth : Auth) (q : Phase)
    → worker_at n xs ≡ some (auth, q)
    → fetching_count (set_phase n p xs) + holds q ≡ fetching_count xs + holds p
set_phase-count n p [] auth q e = cc
set_phase-count zero p ((a, r) ∷ xs) auth q e =
    let same : r ≡ q = ap (λ x. x.1) (some-injective (a, r) (auth, q) e) in
    omega (arith, fetching_count-cons a p xs, fetching_count-cons a r xs, ap holds same)
set_phase-count (suc n) p ((a, r) ∷ xs) auth q e = omega (
  arith,
  fetching_count-cons a r (set_phase n p xs),
  fetching_count-cons a r xs,
  set_phase-count n p xs auth q e,
)

abbrev auth_of : Worker → Auth
auth_of x = x.0

set_phase-auths :
    (n : ℕ) (p : Phase) (xs : List Worker) → map auth_of (set_phase n p xs) ≡ map auth_of xs
set_phase-auths n p [] = refl
set_phase-auths zero p (x ∷ xs) = refl
set_phase-auths (suc n) p (x ∷ xs) = ap (λ l. x.0 ∷ l) (set_phase-auths n p xs)

module _ {W : Type 0} (h : RunHost W) where
  -- A first result: what a query of the account gave, or the mark of the stop signal.
  pub data IsAnswer (auth : Auth) (first : FirstQuota) : Type 0 where
    by_query :
        (w : World W)
        → first ≡ ((fetch_for h auth w).0, (fetch_for h auth w).1)
        → IsAnswer auth first
    by_signal :
        (w : World W) → h.is_stopped w ≡ true → first ≡ interrupted_first → IsAnswer auth first

  abbrev pub IsSoundWorker : Worker → Type 0
  IsSoundWorker (auth, in_line) = Unit {0}
  IsSoundWorker (auth, fetching) = Unit {0}
  IsSoundWorker (auth, answered_with first) = IsAnswer auth first

  -- The workers are those of the accounts, three places are free or taken, and what is answered is
  -- an answer.
  pub record AreFetches (auths : List Auth) (s : Fetches W) : Type 0 where
    pub their_auths : map auth_of s.workers ≡ auths
    pub places : s.free + fetching_count s.workers ≡ 3
    pub sound_workers : All IsSoundWorker s.workers

  set_phase_sound :
      (n : ℕ) (p : Phase) (xs : List Worker) (x : Worker)
      → worker_at n xs ≡ some x
      → IsSoundWorker (x.0, p)
      → All IsSoundWorker xs
      → All IsSoundWorker (set_phase n p xs)
  set_phase_sound n p [] x e new all = tt
  set_phase_sound zero p (y ∷ ys) x e new all =
      (subst (λ a. IsSoundWorker (a, p)) (sym (ap auth_of (some-injective y x e))) new, all.1)
  set_phase_sound (suc n) p (y ∷ ys) x e new all = (all.0, set_phase_sound n p ys x e new all.1)

  first_query-IsAnswer : (auth : Auth) (w : World W) → IsAnswer auth (first_query h auth w).0
  unfolding first_query
  first_query-IsAnswer auth w = elim (Bool-cases (h.is_stopped w)) [
    | inl e ↦
        by_signal w e (ap {A = FirstQuota × World W} (λ p. p.0) (if-true (h.is_stopped w) _ _ e))
    | inr e ↦
        by_query w (ap {A = FirstQuota × World W} (λ p. p.0) (if-false (h.is_stopped w) _ _ e))
  ]

  step_worker-AreFetches :
      (auths : List Auth) (e : InitialEvent) (s : Fetches W) (auth : Auth) (p : Phase)
      → worker_at (event_index h e) s.workers ≡ some (auth, p)
      → AreFetches auths s
      → AreFetches auths (step_worker h e (some (auth, p)) s)
  step_worker-AreFetches auths (takes_place n) s auth in_line at t =
      elim (Bool-cases (s.free == 0)) [
        | inl full ↦ subst (AreFetches auths) (sym (if-true (s.free == 0) _ _ full)) t
        | inr room ↦ subst (AreFetches auths) (sym (if-false (s.free == 0) _ _ room)) (record {
          their_auths = set_phase-auths n fetching s.workers ∙ t.their_auths;
          places =
              ground (arith, set_phase-count n fetching s.workers auth in_line at, t.places, room);
          sound_workers =
              set_phase_sound n fetching s.workers (auth, in_line) at tt t.sound_workers;
        })
      ]
  step_worker-AreFetches auths (takes_place n) s auth fetching at t = t
  step_worker-AreFetches auths (takes_place n) s auth (answered_with first) at t = t
  step_worker-AreFetches auths (gives_up n) s auth in_line at t =
      elim (Bool-cases (h.is_stopped s.at_world)) [
        | inr on ↦ subst (AreFetches auths) (sym (if-false (h.is_stopped s.at_world) _ _ on)) t
        | inl off ↦
            subst (AreFetches auths) (sym (if-true (h.is_stopped s.at_world) _ _ off)) (record {
              their_auths =
                  set_phase-auths n (answered_with interrupted_first) s.workers ∙ t.their_auths;
              places = omega (
                arith,
                set_phase-count n (answered_with interrupted_first) s.workers auth in_line at,
                t.places,
              );
              sound_workers =
                  set_phase_sound n (answered_with interrupted_first) s.workers (auth, in_line) at
                    (by_signal s.at_world off refl) t.sound_workers;
            })
      ]
  step_worker-AreFetches auths (gives_up n) s auth fetching at t = t
  step_worker-AreFetches auths (gives_up n) s auth (answered_with first) at t = t
  step_worker-AreFetches auths (answers_query n) s auth in_line at t = t
  step_worker-AreFetches auths (answers_query n) s auth fetching at t =
      let first = (first_query h auth s.at_world).0 in
      record {
        their_auths = set_phase-auths n (answered_with first) s.workers ∙ t.their_auths;
        places =
            omega
              (arith, set_phase-count n (answered_with first) s.workers auth fetching at, t.places);
        sound_workers =
            set_phase_sound n (answered_with first) s.workers (auth, fetching) at
              (first_query-IsAnswer auth s.at_world) t.sound_workers;
      }
  step_worker-AreFetches auths (answers_query n) s auth (answered_with first) at t = t

  step_some-AreFetches :
      (auths : List Auth) (e : InitialEvent) (o : Option Worker) (s : Fetches W)
      → worker_at (event_index h e) s.workers ≡ o
      → AreFetches auths s
      → AreFetches auths (step_worker h e o s)
  step_some-AreFetches auths e none s at t = t
  step_some-AreFetches auths e (some (auth, p)) s at t =
      step_worker-AreFetches auths e s auth p at t

  fetch_steps-AreFetches :
      (auths : List Auth) (es : List InitialEvent) (s : Fetches W)
      → AreFetches auths s
      → AreFetches auths (fetch_steps h es s)
  unfolding fetch_steps fetch_step
  fetch_steps-AreFetches auths [] s t = t
  fetch_steps-AreFetches auths (e ∷ es) s t =
      fetch_steps-AreFetches auths es (fetch_step h e s)
        (step_some-AreFetches auths e (worker_at (event_index h e) s.workers) s refl t)

  started_auths : (auths : List Auth) → map auth_of (map (λ a. (a, in_line)) auths) ≡ auths
  started_auths [] = refl
  started_auths (a ∷ rest) = ap (λ l. a ∷ l) (started_auths rest)

  started_count : (auths : List Auth) → fetching_count (map (λ a. (a, in_line)) auths) ≡ 0
  started_count [] = refl
  started_count (a ∷ rest) = started_count rest

  started_sound : (auths : List Auth) → All IsSoundWorker (map (λ a. (a, in_line)) auths)
  started_sound [] = tt
  started_sound (a ∷ rest) = (tt, started_sound rest)

  started-AreFetches :
      (auths : List Auth) (w : World W) → AreFetches auths (started_fetches h auths w)
  started-AreFetches auths w = record {
    their_auths = started_auths auths;
    places = ap (λ n. 3 + n) (started_count auths);
    sound_workers = started_sound auths;
  }

  -- Every account has an answer, in the order of the accounts.
  abbrev pub AreAnswers : List Auth → List FirstQuota → Type 0
  AreAnswers auths firsts =
      (length firsts ≡ length auths) × All (λ p. IsAnswer p.0 p.1) (pairs auths firsts)

  rest-IsAnswer :
      (x : Worker) (w : World W) → IsSoundWorker x → IsAnswer x.0 (rest_of_worker h x w).0
  rest-IsAnswer (auth, in_line) w t = first_query-IsAnswer auth w
  rest-IsAnswer (auth, fetching) w t = first_query-IsAnswer auth w
  rest-IsAnswer (auth, answered_with first) w t = t

  wait_for_all-AreAnswers :
      (xs : List Worker) (w : World W)
      → All IsSoundWorker xs
      → AreAnswers (map auth_of xs) (wait_for_all h xs w).0
  unfolding wait_for_all
  wait_for_all-AreAnswers [] w t = (refl, tt)
  wait_for_all-AreAnswers (x ∷ xs) w t =
      let rest = wait_for_all-AreAnswers xs (rest_of_worker h x w).1 t.1 in
      (ap suc rest.0, (rest-IsAnswer x w t.0, rest.1))

  -- In whatever order the goroutines proceed: at no time do more than three of them query, and in the
  -- end every account has, at its own place, what a query of this account gave, or the mark of a stop
  -- signal that had come.
  pub fetch_initial_usages_until-AreAnswers :
      (es : List InitialEvent) (auths : List Auth) (w : World W)
      → (fetching_count (fetch_steps h es (started_fetches h auths w)).workers ≤ 3)
        × AreAnswers auths (fetch_initial_usages_until h es auths w).0
  unfolding fetch_initial_usages_until
  fetch_initial_usages_until-AreAnswers es auths w =
      let s = fetch_steps h es (started_fetches h auths w) in
      let t =
        fetch_steps-AreFetches auths es (started_fetches h auths w) (started-AreFetches auths w) in
      (
        omega (arith, t.places),
        subst (λ l. AreAnswers l (wait_for_all h s.workers s.at_world).0) t.their_auths
            (wait_for_all-AreAnswers s.workers s.at_world t.sound_workers),
      )

  pub pairs-length :
      (auths : List Auth) (firsts : List FirstQuota)
      → length firsts ≡ length auths
      → length (pairs auths firsts) ≡ length auths
  pairs-length [] firsts e = refl
  pairs-length (a ∷ rest) [] e = omega (arith, e)
  pairs-length (a ∷ rest) (f ∷ fs) e = ap suc (pairs-length rest fs (omega (arith, e)))
