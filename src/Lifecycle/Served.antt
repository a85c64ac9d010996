-- ===== src/Lifecycle/Served.antt =====
-- runtime.go: the requests that wait get their turn.
use Prim.Native.Char.{code}
use mathlib.Core.List.{append_assoc}
use mathlib.Core.Path.{ap₂, subst}
use codex_daily_prewarm.Base.{
  All, Bool, List, String, [], ap, arith, clash, false, if-true, length, refl, some, sym, true, ℕ,
  ◌++◌, ◌+◌, ◌∙◌, ◌∷◌, ◌≡◌,
}
use codex_daily_prewarm.Data.Run.{RunRequest}
use codex_daily_prewarm.Data.State.{Runtime}
use codex_daily_prewarm.Lifecycle.Order.{
  QueueEvent, admission, after_events, at_once, away, behind, closes, finishes, queue_step, starts,
}
use codex_daily_prewarm.Lifecycle.Queue.{finish_run, next_request, noted_error, start_run_job}

-- The gate is not closed.
abbrev pub is_open_event : QueueEvent → Bool
is_open_event (starts request) = true
is_open_event (finishes code) = true
is_open_event closes = false

abbrev pub finish_count : List QueueEvent → ℕ
finish_count [] = 0
finish_count (starts request ∷ es) = finish_count es
finish_count (finishes code ∷ es) = finish_count es + 1
finish_count (closes ∷ es) = finish_count es

-- `q` waits behind the requests `ahead`.
pub record IsWaiting (r : Runtime) (ahead : List RunRequest) (q : RunRequest) : Type 0 where
  pub open_gate : r.closed ≡ false
  pub under_way : r.running ≡ true
  pub behind_it : List RunRequest
  pub in_line : r.pending ≡ ahead ++ q ∷ behind_it

abbrev IsRunning : Runtime → RunRequest → Type 0
IsRunning r q = (r.running ≡ true) × (r.current_request ≡ some q)

start-IsWaiting :
    (request : RunRequest) (r : Runtime) (ahead : List RunRequest) (q : RunRequest)
    → IsWaiting r ahead q
    → IsWaiting (start_run_job request r).1 ahead q
start-IsWaiting request r ahead q t = elim (admission request r) [
  | away a e ↦ subst (λ s. IsWaiting s ahead q) (sym e) t
  | at_once a free o e ↦ clash r.running t.under_way free
  | behind a busy o m k e ↦
      subst (λ s. IsWaiting s ahead q) (sym e)
        (record {
          open_gate = t.open_gate;
          under_way = t.under_way;
          behind_it = t.behind_it ++ request ∷ [];
          in_line =
              ap (λ l. l ++ request ∷ []) t.in_line
              ∙ append_assoc ahead (q ∷ t.behind_it) (request ∷ []);
        })
]

start-IsRunning :
    (request : RunRequest) (r : Runtime) (q : RunRequest)
    → IsRunning r q
    → IsRunning (start_run_job request r).1 q
start-IsRunning request r q t = elim (admission request r) [
  | away a e ↦ subst (λ s. IsRunning s q) (sym e) t
  | at_once a free o e ↦ clash r.running t.0 free
  | behind a busy o m k e ↦ subst (λ s. IsRunning s q) (sym e) t
]

stays-IsRunning :
    (es : List QueueEvent) (r : Runtime) (q : RunRequest)
    → All (λ e. is_open_event e ≡ true) es
    → finish_count es ≡ 0
    → IsRunning r q
    → IsRunning (after_events r es) q
unfolding after_events queue_step
stays-IsRunning [] r q all n t = t
stays-IsRunning (starts request ∷ es) r q all n t =
    stays-IsRunning es _ q all.1 n (start-IsRunning request r q t)
stays-IsRunning (finishes code ∷ es) r q all n t = absurd (omega (arith, n))
stays-IsRunning (closes ∷ es) r q all n t = cc

-- The end of a run takes the next request.
finish_next :
    (code : String) (r : Runtime) (ahead : List RunRequest) (q : RunRequest)
    → r.running ≡ true
    → r.closed ≡ false
    → r.pending ≡ q ∷ ahead
    → queue_step r (finishes code)
      ≡ record (noted_error code r) { pending = ahead; current_request = some q }
unfolding queue_step finish_run
finish_next code r ahead q busy open_now line =
    if-true r.running _ r busy ∙ ap₂ (λ c l. next_request c l (noted_error code r)) open_now line

finish-IsWaiting :
    (code : String) (r : Runtime) (x : RunRequest) (ahead : List RunRequest) (q : RunRequest)
    → IsWaiting r (x ∷ ahead) q
    → IsWaiting (queue_step r (finishes code)) ahead q
finish-IsWaiting code r x ahead q t =
    subst (λ s. IsWaiting s ahead q)
      (sym (finish_next code r (ahead ++ q ∷ t.behind_it) x t.under_way t.open_gate t.in_line))
      (record {
        open_gate = t.open_gate;
        under_way = t.under_way;
        behind_it = t.behind_it;
        in_line = refl;
      })

finish-IsRunning :
    (code : String) (r : Runtime) (q : RunRequest)
    → IsWaiting r [] q
    → IsRunning (queue_step r (finishes code)) q
finish-IsRunning code r q t =
    subst (λ s. IsRunning s q)
      (sym (finish_next code r t.behind_it q t.under_way t.open_gate t.in_line)) (t.under_way, refl)

started-IsWaiting :
    (request : RunRequest) (r : Runtime) (ahead : List RunRequest) (q : RunRequest)
    → IsWaiting r ahead q
    → IsWaiting (queue_step r (starts request)) ahead q
unfolding queue_step
started-IsWaiting request r ahead q t = start-IsWaiting request r ahead q t

-- While the gate stays open, a request that waits behind `n` others is the one that runs once
-- exactly `n + 1` runs have ended, whatever requests are made in the meantime.
pub after_events-IsRunning :
    (es : List QueueEvent) (r : Runtime) (ahead : List RunRequest) (q : RunRequest)
    → All (λ e. is_open_event e ≡ true) es
    → IsWaiting r ahead q
    → finish_count es ≡ length ahead + 1
    → (after_events r es).current_request ≡ some q
unfolding after_events
after_events-IsRunning [] r ahead q all t n = absurd (omega (arith, n))
after_events-IsRunning (starts request ∷ es) r ahead q all t n =
    after_events-IsRunning es _ ahead q all.1 (started-IsWaiting request r ahead q t) n
after_events-IsRunning (finishes code ∷ es) r [] q all t n =
    (stays-IsRunning es _ q all.1 (omega (arith, n)) (finish-IsRunning code r q t)).1
after_events-IsRunning (finishes code ∷ es) r (x ∷ ahead) q all t n =
    after_events-IsRunning es _ ahead q all.1 (finish-IsWaiting code r x ahead q t)
      (omega (arith, n))
after_events-IsRunning (closes ∷ es) r ahead q all t n = cc
