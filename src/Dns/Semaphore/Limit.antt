-- ===== src/Dns/Semaphore/Limit.antt =====
-- The counters of the adaptive semaphore over its transitions.
use mailclear.Base.{ℕ, ◌+◌, ◌≤◌, ◌<◌, ◌≡◌, ◌⊎◌, List, [], ◌∷◌, Option, arith}
use mailclear.Validation.Pipeline.{CtxError}
use mailclear.Dns.Semaphore.{
  System, start, Event, enter, resume, release, counted, change_limit, watch, resume_step, step,
}

-- what holds of a semaphore whose slots are released by their holders alone
pub record IsBalanced (s : System) : Type 0 where
  pub open_limit : 1 ≤ s.sem.limit
  pub balance : s.sem.acquired_total ≡ s.sem.released_total + s.leaving + s.sem.inflight

-- only a holder releases
abbrev pub IsHeld : System → Event → Type 0
IsHeld s release = 0 < s.sem.inflight
IsHeld s _ = Unit {0}

resume_step-IsBalanced :
    (t : ℕ) (err : Option CtxError) (rest : List ℕ) (s : System)
    → IsBalanced s
    → IsBalanced (resume_step t err rest s)
unfolding resume_step
resume_step-IsBalanced t err rest s h = ground arith

step-IsBalanced : (s : System) (e : Event) → IsHeld s e → IsBalanced s → IsBalanced (step s e)
unfolding step
step-IsBalanced s (enter t err) held h = ground arith
step-IsBalanced s (resume t err) held h = ground arith
step-IsBalanced s release held h = ground arith
step-IsBalanced s counted held h = ground arith
step-IsBalanced s (change_limit n) held h = ground arith
step-IsBalanced s watch held h = ground arith

-- No transition but a new limit raises the slots in use past the limit: they stay as they are, fall,
-- or grow to at most the limit, and never by more than one.
pub step_inflight :
    (s : System) (e : Event)
    → ((step s e).sem.inflight ≤ s.sem.inflight)
      ⊎ (((step s e).sem.inflight ≡ s.sem.inflight + 1)
          × ((step s e).sem.inflight ≤ (step s e).sem.limit))
unfolding step
step_inflight s (enter t err) = ground arith
step_inflight s (resume t err) = ground arith
step_inflight s release = ground arith
step_inflight s counted = ground arith
step_inflight s (change_limit n) = ground arith
step_inflight s watch = ground arith

-- every release in the events comes from a holder
abbrev pub AllHeld : System → List Event → Type 0
AllHeld s [] = Unit
AllHeld s (e ∷ es) = IsHeld s e × AllHeld (step s e) es

abbrev pub run_events : System → List Event → System
run_events s [] = s
run_events s (e ∷ es) = run_events (step s e) es

run_events-IsBalanced :
    (s : System) (es : List Event) → AllHeld s es → IsBalanced s → IsBalanced (run_events s es)
run_events-IsBalanced s [] held h = h
run_events-IsBalanced s (e ∷ es) held h =
    run_events-IsBalanced (step s e) es held.1 (step-IsBalanced s e held.0 h)

-- After any events in which only holders release, in any order and with any cancellations, the limit is
-- at least 1, and the slots acquired are those counted as released, those of the callers that have left
-- the lock of `Release` and not counted yet, and those in use.
pub run-IsBalanced :
    (initial : ℕ) (es : List Event)
    → AllHeld (start initial) es
    → IsBalanced (run_events (start initial) es)
unfolding start
run-IsBalanced initial es held = run_events-IsBalanced (start initial) es held (ground arith)
