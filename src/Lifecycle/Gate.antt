-- ===== src/Lifecycle/Gate.antt =====
-- runtime.go: what is left after `quiesce`.
use mathlib.Core.List.{append-nil}
use codex_daily_prewarm.Base.{
  Bool, Bool-cases, List, Option, String, [], ap, arith, false, if-false, if-true, inl, inr, none,
  refl, some, true, ◌++◌, ◌∙◌, ◌∷◌, ◌≡◌,
}
use codex_daily_prewarm.Data.Run.{RunRequest}
use codex_daily_prewarm.Data.State.{Runtime}
use codex_daily_prewarm.Lifecycle.Order.{
  DropsNone, IsSound, IsUnbroken, QueueEvent, admitted, after_events, closes, closes-IsSound,
  current_of, finishes, finishes-busy, finishes-free, is_admitted, queue_step, queue_step-IsSound,
  served, served-admitted, starts, waiting, waiting_after,
}
use codex_daily_prewarm.Lifecycle.Queue.{
  close_gate, finish_run, is_refused, next_request, noted_error, shutting_down, start_run_job,
}

start-closed :
    (request : RunRequest) (r : Runtime)
    → r.closed ≡ true
    → start_run_job request r ≡ (shutting_down, r)
unfolding start_run_job
start-closed request r h = if-true (is_refused r request) _ _ (ground (arith, h))

next_request-closed :
    (shut : Bool) (qs : List RunRequest) (r : Runtime) → (next_request shut qs r).closed ≡ r.closed
next_request-closed shut [] r = refl
next_request-closed true (q ∷ qs) r = refl
next_request-closed false (q ∷ qs) r = refl

finish-closed : (text : String) (r : Runtime) → (finish_run text r).closed ≡ r.closed
unfolding finish_run
finish-closed text r = next_request-closed r.closed r.pending (noted_error text r)

queue_step-closed :
    (r : Runtime) (e : QueueEvent) → r.closed ≡ true → (queue_step r e).closed ≡ true
unfolding queue_step close_gate
queue_step-closed r (starts request) h = ap (λ p. p.1.closed) (start-closed request r h) ∙ h
queue_step-closed r (finishes text) h = elim (Bool-cases r.running) [
  | inl busy ↦ ap (λ s. s.closed) (finishes-busy text r busy) ∙ finish-closed text r ∙ h
  | inr free ↦ ap (λ s. s.closed) (finishes-free text r free) ∙ h
]
queue_step-closed r closes h = refl

admitted-closed : (r : Runtime) (es : List QueueEvent) → r.closed ≡ true → admitted r es ≡ []
unfolding admitted
admitted-closed r [] h = refl
admitted-closed r (starts request ∷ es) h =
    ap (λ l. l ++ admitted (queue_step r (starts request)) es)
      (if-false (is_admitted request r) _ _ (ground (arith, h)))
    ∙ admitted-closed (queue_step r (starts request)) es (queue_step-closed r (starts request) h)
admitted-closed r (finishes text ∷ es) h =
    admitted-closed (queue_step r (finishes text)) es (queue_step-closed r (finishes text) h)
admitted-closed r (closes ∷ es) h =
    admitted-closed (queue_step r closes) es (queue_step-closed r closes h)

DropsNone-closed : (r : Runtime) (e : QueueEvent) → IsSound r → r.closed ≡ true → DropsNone r e
DropsNone-closed r (starts request) h k = tt
DropsNone-closed r (finishes text) h k = tt
DropsNone-closed r closes h k = h.closed_empty k

IsUnbroken-closed :
    (r : Runtime) (es : List QueueEvent) → IsSound r → r.closed ≡ true → IsUnbroken r es
IsUnbroken-closed r [] h k = tt
IsUnbroken-closed r (e ∷ es) h k = (
  DropsNone-closed r e h k,
  IsUnbroken-closed (queue_step r e) es (queue_step-IsSound r e h) (queue_step-closed r e k),
)

waiting-current : (c : Option RunRequest) → waiting_after c [] ≡ current_of c
waiting-current none = refl
waiting-current (some q) = refl

after_events-closed :
    (r : Runtime) (es : List QueueEvent) → r.closed ≡ true → (after_events r es).closed ≡ true
unfolding after_events
after_events-closed r [] h = h
after_events-closed r (e ∷ es) h = after_events-closed (queue_step r e) es (queue_step-closed r e h)

-- Once the gate is closed on a sound queue, the requests that waited are all in the hands of
-- `quiesce`, every later request is refused, and whatever happens no run ends or is under way but
-- the one that was under way already.
pub close_gate-final :
    (r : Runtime)
    → IsSound r
    → (es : List QueueEvent)
    → ((close_gate r).0 ≡ r.pending)
      × (served (close_gate r).1 es ++ waiting (after_events (close_gate r).1 es)
          ≡ current_of r.current_request)
      × ((request : RunRequest)
          → (start_run_job request (after_events (close_gate r).1 es)).0 ≡ shutting_down)
unfolding close_gate
close_gate-final r h es =
    let r' = (close_gate r).1 in
    (
      refl,
      served-admitted r' es (closes-IsSound r h) (IsUnbroken-closed r' es (closes-IsSound r h) refl)
          ∙ ap (λ l. waiting r' ++ l) (admitted-closed r' es refl)
          ∙ append-nil (waiting r')
          ∙ waiting-current r.current_request,
      λ request.
          ap (λ p. p.0)
            (start-closed request (after_events r' es) (after_events-closed r' es refl)),
    )
