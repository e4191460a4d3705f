-- ===== src/Tests/Workers.antt =====
-- The pool of workers and the retries.
use mathlib.Core.List.{Perm}
use mailclear.Base.{
  ℕ, zero, suc, ◌≡◌, refl, List, [], ◌∷◌, ◌++◌, Option, none, some, map, true, false,
}
use mailclear.Text.{Text, lit}
use mailclear.Workers.Pool.{
  Task, Pool, start, pick, Event, submit, take, finish, leave, stop, next, send, receive,
  return_handler, return_worker, step,
}
use mailclear.Workers.Pool.Order.{sent_all, run, IsOrdered, run-IsOrdered}
use mailclear.Workers.Pool.Drained.{run_drained}

abbrev first : Task
first = record { job_id = lit "a"; emails = lit "x@y.org" ∷ [] }

abbrev second : Task
second = record { job_id = lit "b"; emails = [] }

-- a worker takes the first task and fails, takes the second, and leaves the closed queue
abbrev busy : List Event
busy = submit first ∷ submit second ∷ take ∷ stop ∷ finish 0 false ∷ take ∷ []

abbrev served : Pool
served = record {
  workers = 1;
  queue_cap = 4;
  queue = [];
  closed = true;
  cancelled = false;
  idle = 0;
  gone = 0;
  running = second ∷ [];
  done = (first, false) ∷ [];
}

run_busy : run busy (start 1 4) ≡ next served
unfolding start step send receive return_handler return_worker pick
run_busy = refl

run-IsOrdered_example : IsOrdered (first ∷ second ∷ []) served
run-IsOrdered_example = run-IsOrdered 1 4 busy served run_busy

abbrev closing : List Event
closing = finish 0 true ∷ leave ∷ []

abbrev stopped : Pool
stopped = record served {
  idle = 0;
  gone = 1;
  running = [];
  done = (second, true) ∷ (first, false) ∷ [];
}

run_closing : run (busy ++ closing) (start 1 4) ≡ next stopped
unfolding start step send receive return_handler return_worker pick
run_closing = refl

run_drained_example :
    (stopped.queue ≡ [])
    × (stopped.running ≡ [])
    × Perm (map (λ d. d.0) stopped.done) (sent_all (busy ++ closing))
run_drained_example = run_drained 1 4 (busy ++ closing) stopped run_closing refl refl

abbrev never : ℕ → Option Text
never _ = none

abbrev fails_once : ℕ → Option Text
fails_once zero = some (lit "EOF")
fails_once (suc _) = none
