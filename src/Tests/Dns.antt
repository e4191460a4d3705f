-- ===== src/Tests/Dns.antt =====
-- The semaphore and its controller.
use mailclear.Base.{arith, ◌<◌, List, [], ◌∷◌, none}
use mailclear.Dns.Semaphore.{System, start, Event, enter, release, counted, step}
use mailclear.Dns.Semaphore.Limit.{IsBalanced, run_events, run-IsBalanced}
use mailclear.Dns.Semaphore.Wakeups.{IsAttended, run-IsAttended}

abbrev crowd : List Event
crowd = enter 1 none ∷ enter 2 none ∷ enter 3 none ∷ release ∷ counted ∷ []

-- one slot: the second and third caller sleep, and the release wakes the second and is counted later
abbrev waked : System
waked = run_events (start 1) crowd

held : 0 < (run_events (start 1) (enter 1 none ∷ enter 2 none ∷ enter 3 none ∷ [])).sem.inflight
unfolding start step
held = ground arith

run-IsBalanced_example : IsBalanced waked
run-IsBalanced_example = run-IsBalanced 1 crowd (tt, (tt, (tt, (held, (tt, tt)))))

run-IsAttended_example : IsAttended waked
run-IsAttended_example = run-IsAttended 1 crowd (tt, (tt, (tt, (tt, (tt, tt)))))
