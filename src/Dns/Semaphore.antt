-- ===== src/Dns/Semaphore.antt =====
-- internal/dns/adaptive.go, `AdaptiveSemaphore`. Each transition holds `s.mu`, so it is one step of
-- the system below: the semaphore, the callers asleep in `cond.Wait` (woken in the order of arrival)
-- and the callers that are woken and have not run yet. `Release` adds to its counter after it has left
-- the lock, which is a step of its own; `leaving` counts the callers between the two.
pub mod Limit
pub mod Wakeups
use mailclear.Base.{
  ℕ, suc, ◌+◌, ◌-◌, Bool, List, [], ◌∷◌, ◌++◌, Option, none, some, ltb, leb, ◌==◌, if◌then◌else◌,
}
use mailclear.Validation.Pipeline.{CtxError}

-- the counters are int64, and count calls
pub record Semaphore : Type 0 where
  pub limit : ℕ
  pub inflight : ℕ
  pub acquired_total : ℕ
  pub released_total : ℕ

-- `if n < 1 { n = 1 }`
unfoldable pub at_least_one : ℕ → ℕ
at_least_one n = if ltb n 1 then 1 else n

unfoldable pub new_semaphore : ℕ → Semaphore
unfolding at_least_one
new_semaphore initial = record {
  limit = at_least_one initial;
  inflight = 0;
  acquired_total = 0;
  released_total = 0;
}

-- `s.inflight++` with its counter
unfoldable pub take_slot : Semaphore → Semaphore
take_slot s = record s { inflight = s.inflight + 1; acquired_total = s.acquired_total + 1 }

unfoldable pub give_slot : Semaphore → Semaphore
give_slot s = record s { inflight = if ltb 0 s.inflight then s.inflight - 1 else s.inflight }

-- `s.releasedTotal.Add(1)`
unfoldable pub count_release : Semaphore → Semaphore
count_release s = record s { released_total = s.released_total + 1 }

unfoldable pub set_limit : ℕ → Semaphore → Semaphore
unfolding at_least_one
set_limit new_limit s = record s { limit = at_least_one new_limit }

pub record System : Type 0 where
  pub sem : Semaphore
  pub sleeping : List ℕ
  pub ready : List ℕ
  pub leaving : ℕ

unfoldable pub start : ℕ → System
unfolding new_semaphore
start initial = record { sem = new_semaphore initial; sleeping = []; ready = []; leaving = 0 }

-- the callers are numbered; `ctx.Err()` answers in the step where it is asked
pub data Event : Type 0 where
  enter : ℕ → Option CtxError → Event
  resume : ℕ → Option CtxError → Event
  release : Event
  counted : Event
  change_limit : ℕ → Event
  watch : Event

-- `Acquire` up to its first `Wait`
unfoldable pub enter_step : ℕ → Option CtxError → System → System
unfolding take_slot
enter_step t err s =
    if ltb s.sem.inflight s.sem.limit
    then record s { sem = take_slot s.sem }
    else elim err [ some _ ↦ s | none ↦ record s { sleeping = s.sleeping ++ (t ∷ []) } ]

-- the list without the caller, if it is there
unfoldable pub remove_first : ℕ → List ℕ → Option (List ℕ)
remove_first t [] = none
remove_first t (x ∷ xs) =
    let rest = remove_first t xs in
    if x == t then some xs else elim rest [ some ys ↦ some (x ∷ ys) | none ↦ none ]

-- `Acquire` from where `Wait` returns to the next `Wait` or the end
unfoldable pub resume_step : ℕ → Option CtxError → List ℕ → System → System
unfolding take_slot
resume_step t err rest s =
    if leb s.sem.limit s.sem.inflight
    then elim err [
      | some _ ↦ record s { ready = rest }
      | none ↦ record s { ready = rest; sleeping = s.sleeping ++ (t ∷ []) }
    ]
    else elim err [
      | some _ ↦ record s { ready = rest }
      | none ↦ record s { ready = rest; sem = take_slot s.sem }
    ]

-- `cond.Signal()`
unfoldable pub signal : System → System
signal s = elim s.sleeping [
  | [] ↦ s
  | t ∷ ts ↦ record s { sleeping = ts; ready = s.ready ++ (t ∷ []) }
]

-- `cond.Broadcast()`
unfoldable pub broadcast : System → System
broadcast s = record s { sleeping = []; ready = s.ready ++ s.sleeping }

-- `SetLimit` wakes the waiters where the limit grows
unfoldable pub limit_step : ℕ → System → System
unfolding at_least_one set_limit broadcast
limit_step n s =
    let s' = record s { sem = set_limit n s.sem } in
    if ltb s.sem.limit (at_least_one n) then broadcast s' else s'

-- the locked part of `Release`
unfoldable pub release_step : System → System
unfolding give_slot signal
release_step s = signal (record s { sem = give_slot s.sem; leaving = s.leaving + 1 })

-- the rest of `Release`, of one of the callers that are in it
unfoldable pub counted_step : System → System
unfolding count_release
counted_step s =
    if ltb 0 s.leaving then record s { sem = count_release s.sem; leaving = s.leaving - 1 } else s

-- `watch` is the broadcast of the goroutine that watches a context
unfoldable pub step : System → Event → System
unfolding enter_step resume_step broadcast limit_step release_step counted_step
step s (enter t err) = enter_step t err s
step s (resume t err) = elim (remove_first t s.ready) [
  | none ↦ s
  | some rest ↦ resume_step t err rest s
]
step s release = release_step s
step s counted = counted_step s
step s (change_limit n) = limit_step n s
step s watch = broadcast s
