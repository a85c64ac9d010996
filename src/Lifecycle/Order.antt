-- ===== src/Lifecycle/Order.antt =====
-- The requests of the queue: which there can be, and in which order they run.
use Prim.Native.Char.{code}
use mathlib.Core.List.{append-nil, append_assoc}
use mathlib.Core.Path.{subst}
use codex_daily_prewarm.Base.{
  All, All-append, Bool, Bool-cases, List, Option, String, [], any, ap, arith, false, if◌then◌else◌,
  inl, inr, none, not, refl, some, str_eq, sym, true, ◌&&◌, ◌++◌, ◌||◌, ◌∙◌, ◌∷◌, ◌≡◌, ◌≢◌,
}
use codex_daily_prewarm.Data.Run.{RunRequest}
use codex_daily_prewarm.Data.State.{Runtime}
use codex_daily_prewarm.Lifecycle.Queue.{
  close_gate, finish_run, is_known, is_refused, next_request, noted_error, same_request,
  start_run_job,
}

-- What happens to the queue.
pub data QueueEvent : Type 0 where
  starts : RunRequest → QueueEvent
  finishes : String → QueueEvent
  closes : QueueEvent

unfoldable pub queue_step : Runtime → QueueEvent → Runtime
queue_step r (starts request) = (start_run_job request r).1
queue_step r (finishes code) = if r.running then finish_run code r else r
queue_step r closes = (close_gate r).1

unfoldable pub after_events : Runtime → List QueueEvent → Runtime
after_events r [] = r
after_events r (e ∷ es) = after_events (queue_step r e) es

-- The run under way and those that wait, in order.
abbrev pub waiting_after : Option RunRequest → List RunRequest → List RunRequest
waiting_after none qs = qs
waiting_after (some q) qs = q ∷ qs

abbrev pub waiting : Runtime → List RunRequest
waiting r = waiting_after r.current_request r.pending

-- No two requests of the list are for the same run.
abbrev pub AreApart : List RunRequest → Type 0
AreApart [] = Unit {0}
AreApart (q ∷ qs) = All (λ other. same_request q other ≡ false) qs × AreApart qs

pub record IsSound (r : Runtime) : Type 0 where
  pub apart : AreApart (waiting r)
  pub automatic : All (λ q. str_eq q.trigger "manual" ≡ false) r.pending
  pub idle_empty : r.running ≡ false → waiting r ≡ []
  pub busy : r.running ≡ true → r.current_request ≢ none
  pub closed_empty : r.closed ≡ true → r.pending ≡ []

any-All :
    (p : RunRequest → Bool) (qs : List RunRequest) → any p qs ≡ false → All (λ q. p q ≡ false) qs
any-All p [] h = tt
any-All p (q ∷ qs) h = (ground (arith, h), any-All p qs (ground (arith, h)))

AreApart-append :
    (q : RunRequest) (qs : List RunRequest)
    → AreApart qs
    → All (λ other. same_request other q ≡ false) qs
    → AreApart (qs ++ q ∷ [])
AreApart-append q [] h new = (tt, tt)
AreApart-append q (p ∷ ps) h new = (
  All-append (λ other. same_request p other ≡ false) ps (q ∷ []) h.0 (new.0, tt),
  AreApart-append q ps h.1 new.1,
)

waiting-append :
    (c : Option RunRequest) (qs : List RunRequest) (q : RunRequest)
    → waiting_after c (qs ++ q ∷ []) ≡ waiting_after c qs ++ q ∷ []
waiting-append none qs q = refl
waiting-append (some c) qs q = refl

is_known-All :
    (c : Option RunRequest) (qs : List RunRequest) (q : RunRequest)
    → (elim c [ none ↦ false | some current ↦ same_request current q ]) ≡ false
    → any (λ queued. same_request queued q) qs ≡ false
    → All (λ other. same_request other q ≡ false) (waiting_after c qs)
is_known-All none qs q h k = any-All (λ queued. same_request queued q) qs k
is_known-All (some c) qs q h k = (h, any-All (λ queued. same_request queued q) qs k)

-- Whether a request becomes the current run or one of those that wait.
abbrev pub is_admitted : RunRequest → Runtime → Bool
is_admitted request r =
    not (is_refused r request)
    && (not r.running || not (str_eq request.trigger "manual") && not (is_known r request))

-- What a request does: it is turned away, it starts at once, or it waits behind the others.
pub data Admission (request : RunRequest) (r : Runtime) : Type 0 where
  away : is_admitted request r ≡ false → (start_run_job request r).1 ≡ r → Admission request r
  at_once :
      is_admitted request r ≡ true
      → r.running ≡ false
      → r.closed ≡ false
      → (start_run_job request r).1
        ≡ record r { running = true; current_request = some request; last_error = "" }
      → Admission request r
  behind :
      is_admitted request r ≡ true
      → r.running ≡ true
      → r.closed ≡ false
      → str_eq request.trigger "manual" ≡ false
      → is_known r request ≡ false
      → (start_run_job request r).1 ≡ record r { pending = r.pending ++ request ∷ [] }
      → Admission request r

pub admission : (request : RunRequest) (r : Runtime) → Admission request r
unfolding start_run_job
admission request r = elim (Bool-cases (is_refused r request)) [
  | inl e ↦ away (rw e refl) (rw e refl)
  | inr e ↦ elim (Bool-cases r.running) [
    | inr free ↦ at_once (rw (e, free) refl) free (ground (arith, e)) (rw (e, free) refl)
    | inl busy ↦ elim (Bool-cases (str_eq request.trigger "manual")) [
      | inl m ↦ away (rw (e, busy, m) refl) (rw (e, busy, m) refl)
      | inr m ↦ elim (Bool-cases (is_known r request)) [
        | inl k ↦ away (rw (e, busy, m, k) refl) (rw (e, busy, m, k) refl)
        | inr k ↦
            behind (rw (e, busy, m, k) refl) busy (ground (arith, e)) m k (rw (e, busy, m, k) refl)
      ]
    ]
  ]
]

waiting-empty : (c : Option RunRequest) (qs : List RunRequest) → waiting_after c qs ≡ [] → qs ≡ []
waiting-empty none qs h = h
waiting-empty (some c) qs h = cc

waiting-tail :
    (c : Option RunRequest) (qs : List RunRequest) → AreApart (waiting_after c qs) → AreApart qs
waiting-tail none qs h = h
waiting-tail (some c) qs h = h.1

waiting-head :
    (c : Option RunRequest) (qs : List RunRequest)
    → AreApart (waiting_after c qs)
    → AreApart (waiting_after c [])
waiting-head none qs h = tt
waiting-head (some c) qs h = (tt, tt)

waiting-none :
    (c : Option RunRequest) (qs : List RunRequest)
    → waiting_after c qs ≡ []
    → waiting_after c [] ≡ []
waiting-none none qs h = refl
waiting-none (some c) qs h = cc

module _ (r : Runtime) (h : IsSound r) where
  at_once-IsSound :
      (request : RunRequest)
      → r.running ≡ false
      → r.closed ≡ false
      → IsSound (record r { running = true; current_request = some request; last_error = "" })
  at_once-IsSound request free unlocked =
      let none_left = waiting-empty r.current_request r.pending (h.idle_empty free) in
      record {
        apart = rw none_left (tt, tt);
        automatic = h.automatic;
        idle_empty = λ e. cc;
        busy = λ _ e. cc;
        closed_empty = λ e. cc;
      }

  behind-IsSound :
      (request : RunRequest)
      → r.running ≡ true
      → r.closed ≡ false
      → str_eq request.trigger "manual" ≡ false
      → is_known r request ≡ false
      → IsSound (record r { pending = r.pending ++ request ∷ [] })
  behind-IsSound request busy' unlocked auto new = record {
    apart = rw (waiting-append r.current_request r.pending request) (
        AreApart-append request (waiting r) h.apart (
          is_known-All r.current_request r.pending request (ground (arith, new))
            (ground (arith, new))));
    automatic =
        All-append (λ q. str_eq q.trigger "manual" ≡ false) r.pending (request ∷ []) h.automatic
          (auto, tt);
    idle_empty = λ e. cc;
    busy = h.busy;
    closed_empty = λ e. cc;
  }

next_request-IsSound :
    (shut : Bool) (qs : List RunRequest) (r : Runtime)
    → AreApart qs
    → All (λ q. str_eq q.trigger "manual" ≡ false) qs
    → r.running ≡ true
    → r.closed ≡ shut
    → IsSound (next_request shut qs r)
next_request-IsSound shut [] r apart auto busy same = record {
  apart = tt;
  automatic = tt;
  idle_empty = λ _. refl;
  busy = λ e. cc;
  closed_empty = λ _. refl;
}
next_request-IsSound true (q ∷ qs) r apart auto busy same = record {
  apart = tt;
  automatic = tt;
  idle_empty = λ _. refl;
  busy = λ e. cc;
  closed_empty = λ _. refl;
}
next_request-IsSound false (q ∷ qs) r apart auto busy same = record {
  apart = apart;
  automatic = auto.1;
  idle_empty = λ e. cc;
  busy = λ _ e. cc;
  closed_empty = λ e. cc;
}

starts-IsSound :
    (request : RunRequest) (r : Runtime)
    → IsSound r
    → Admission request r
    → IsSound (start_run_job request r).1
starts-IsSound request r h (away _ same) = rw same h
starts-IsSound request r h (at_once _ free unlocked new) =
    rw new (at_once-IsSound r h request free unlocked)
starts-IsSound request r h (behind _ busy unlocked auto fresh new) =
    rw new (behind-IsSound r h request busy unlocked auto fresh)

finishes-IsSound :
    (code : String) (r : Runtime) → IsSound r → r.running ≡ true → IsSound (finish_run code r)
unfolding finish_run
finishes-IsSound code r h busy =
    next_request-IsSound r.closed r.pending (noted_error code r)
      (waiting-tail r.current_request r.pending h.apart) h.automatic busy refl

pub closes-IsSound : (r : Runtime) → IsSound r → IsSound (close_gate r).1
unfolding close_gate
closes-IsSound r h = record {
  apart = waiting-head r.current_request r.pending h.apart;
  automatic = tt;
  idle_empty = λ e. waiting-none r.current_request r.pending (h.idle_empty e);
  busy = h.busy;
  closed_empty = λ _. refl;
}

pub finishes-busy :
    (text : String) (r : Runtime)
    → r.running ≡ true
    → queue_step r (finishes text) ≡ finish_run text r
unfolding queue_step
finishes-busy text r busy = ap (λ b. if b then finish_run text r else r) busy

pub finishes-free :
    (text : String) (r : Runtime) → r.running ≡ false → queue_step r (finishes text) ≡ r
unfolding queue_step
finishes-free text r free = ap (λ b. if b then finish_run text r else r) free

-- The queue stays sound whatever happens to it: no two of the run under way and the requests that
-- wait are for the same run, no manual request waits, nothing waits without a run under way, and
-- nothing waits behind the closed gate.
pub queue_step-IsSound : (r : Runtime) (e : QueueEvent) → IsSound r → IsSound (queue_step r e)
unfolding queue_step
queue_step-IsSound r (starts request) h = starts-IsSound request r h (admission request r)
queue_step-IsSound r (finishes text) h = elim (Bool-cases r.running) [
  | inl busy ↦ subst IsSound (sym (finishes-busy text r busy)) (finishes-IsSound text r h busy)
  | inr free ↦ subst IsSound (sym (finishes-free text r free)) h
]
queue_step-IsSound r closes h = closes-IsSound r h

-- The run that an event ends.
abbrev pub current_of : Option RunRequest → List RunRequest
current_of none = []
current_of (some q) = q ∷ []

abbrev pub ended : Runtime → QueueEvent → List RunRequest
ended r (finishes code) = if r.running then current_of r.current_request else []
ended r _ = []

abbrev pub admitted_now : Runtime → QueueEvent → List RunRequest
admitted_now r (starts request) = if is_admitted request r then request ∷ [] else []
admitted_now r _ = []

unfoldable pub served : Runtime → List QueueEvent → List RunRequest
served r [] = []
served r (e ∷ es) = ended r e ++ served (queue_step r e) es

unfoldable pub admitted : Runtime → List QueueEvent → List RunRequest
admitted r [] = []
admitted r (e ∷ es) = admitted_now r e ++ admitted (queue_step r e) es

-- The gate is not closed while a request waits.
abbrev pub DropsNone : Runtime → QueueEvent → Type 0
DropsNone r closes = r.pending ≡ []
DropsNone r _ = Unit {0}

starts-order :
    (request : RunRequest) (r : Runtime)
    → IsSound r
    → Admission request r
    → waiting (start_run_job request r).1
      ≡ waiting r ++ (if is_admitted request r then request ∷ [] else [])
starts-order request r h (away never same) = rw (same, never, append-nil (waiting r)) refl
starts-order request r h (at_once takes free unlocked new) =
    rw
      (new, takes, h.idle_empty free, waiting-empty r.current_request r.pending (h.idle_empty free))
      refl
starts-order request r h (behind takes busy unlocked auto fresh new) =
    rw (new, takes) (waiting-append r.current_request r.pending request)

current-of-waiting :
    (c : Option RunRequest) (qs : List RunRequest) → current_of c ++ qs ≡ waiting_after c qs
current-of-waiting none qs = refl
current-of-waiting (some q) qs = refl

next_request-order :
    (shut : Bool) (qs : List RunRequest) (r : Runtime)
    → (shut ≡ true → qs ≡ [])
    → waiting (next_request shut qs r) ≡ qs
next_request-order shut [] r h = refl
next_request-order true (q ∷ qs) r h = sym (h refl)
next_request-order false (q ∷ qs) r h = refl

finishes-order :
    (code : String) (r : Runtime)
    → IsSound r
    → r.running ≡ true
    → current_of r.current_request ++ waiting (finish_run code r) ≡ waiting r
unfolding finish_run
finishes-order code r h busy =
    rw (next_request-order r.closed r.pending (noted_error code r) h.closed_empty)
      (current-of-waiting r.current_request r.pending)

-- The run that ends with the state after it.
abbrev ended_state : String → Runtime → List RunRequest × Runtime
ended_state text r = (ended r (finishes text), queue_step r (finishes text))

ended_state-busy :
    (text : String) (r : Runtime)
    → r.running ≡ true
    → ended_state text r ≡ (current_of r.current_request, finish_run text r)
unfolding queue_step
ended_state-busy text r busy =
    ap (λ b. ((if b then current_of r.current_request else []), if b then finish_run text r else r))
      busy

ended_state-free : (text : String) (r : Runtime) → r.running ≡ false → ended_state text r ≡ ([], r)
unfolding queue_step
ended_state-free text r free =
    ap (λ b. ((if b then current_of r.current_request else []), if b then finish_run text r else r))
      free

step-order :
    (r : Runtime) (e : QueueEvent)
    → IsSound r
    → DropsNone r e
    → ended r e ++ waiting (queue_step r e) ≡ waiting r ++ admitted_now r e
unfolding queue_step close_gate
step-order r (starts request) h k = starts-order request r h (admission request r)
step-order r (finishes text) h k = elim (Bool-cases r.running) [
  | inl busy ↦ rw (append-nil (waiting r)) (
      subst (λ s. s.0 ++ waiting s.1 ≡ waiting r) (sym (ended_state-busy text r busy))
        (finishes-order text r h busy))
  | inr free ↦
      rw (append-nil (waiting r))
        (subst (λ s. s.0 ++ waiting s.1 ≡ waiting r) (sym (ended_state-free text r free)) refl)
]
step-order r closes h k = rw (k, append-nil (waiting_after r.current_request [])) refl

-- The gate is never closed on a request that waits.
abbrev pub IsUnbroken : Runtime → List QueueEvent → Type 0
IsUnbroken r [] = Unit {0}
IsUnbroken r (e ∷ es) = DropsNone r e × IsUnbroken (queue_step r e) es

-- From a sound queue, and as long as the gate is not closed on a request that waits: the runs that
-- have ended, then the run under way, then those that wait are the ones there were at the start,
-- followed by the requests that have been admitted since, in the order of their admission. None is
-- lost, repeated or overtaken.
pub served-admitted :
    (r : Runtime) (es : List QueueEvent)
    → IsSound r
    → IsUnbroken r es
    → served r es ++ waiting (after_events r es) ≡ waiting r ++ admitted r es
unfolding served admitted after_events
served-admitted r [] h k = sym (append-nil (waiting r))
served-admitted r (e ∷ es) h k =
    let r' = queue_step r e in
    append_assoc (ended r e) (served r' es) (waiting (after_events r' es))
    ∙ ap (λ l. ended r e ++ l) (served-admitted r' es (queue_step-IsSound r e h) k.1)
    ∙ sym (append_assoc (ended r e) (waiting r') (admitted r' es))
    ∙ ap (λ l. l ++ admitted r' es) (step-order r e h k.0)
    ∙ append_assoc (waiting r) (admitted_now r e) (admitted r' es)
