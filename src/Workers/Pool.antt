-- ===== src/Workers/Pool.antt =====
-- internal/workers/pool.go and job.go. The channel is a list, and each send, each receive, each end of
-- a handler and each return of a worker is one step. A `select` with several ready cases takes any of
-- them, so the step is chosen by the event. Metrics, logs and the limit on the wait of `Stop` are
-- left out.
pub mod Steps
pub mod Order
pub mod Drained
use mailclear.Base.{
  ℕ, zero, suc, ◌+◌, ◌-◌, ◌*◌, Bool, true, false, ◌&&◌, ◌||◌, List, [], ◌∷◌, ◌++◌, Option, none,
  some, length, ltb, leb, ◌==◌, if◌then◌else◌,
}
use mailclear.Text.{Text}

pub record Task : Type 0 where
  pub job_id : Text
  pub emails : List Text

-- `idle` counts the workers in the `select` of `run`, `gone` those that returned; `running` are the
-- tasks in handlers and `done` those whose handler returned, with whether it had no error
pub record Pool : Type 0 where
  pub workers : ℕ
  pub queue_cap : ℕ
  pub queue : List Task
  pub closed : Bool
  pub cancelled : Bool
  pub idle : ℕ
  pub gone : ℕ
  pub running : List Task
  pub done : List (Task × Bool)

-- `NewPool`, whose workers do not run yet
unfoldable pub new_pool : (workers queue_buf : ℕ) → Pool
new_pool workers queue_buf = record {
  workers = if workers == 0 then 8 else workers;
  queue_cap = if queue_buf == 0 then 1024 else queue_buf;
  queue = [];
  closed = false;
  cancelled = false;
  idle = 0;
  gone = 0;
  running = [];
  done = [];
}

-- `NewPool` and `Start`
unfoldable pub start : (workers queue_buf : ℕ) → Pool
unfolding new_pool
start workers queue_buf = let p = new_pool workers queue_buf in record p { idle = p.workers }

-- the n-th task, and the others
unfoldable pub pick : ℕ → List Task → Option (Task × List Task)
pick n [] = none
pick zero (t ∷ ts) = some (t, ts)
pick (suc n) (t ∷ ts) = elim (pick n ts) [ none ↦ none | some (x, rest) ↦ some (x, t ∷ rest) ]

-- `submit` is the send of `Submit`, `take` the receive of `run`, `finish n ok` the return of the handler
-- of the n-th running task, `leave` the return of a worker, `cancel` the end of the context of `Start`
-- and `stop` the `close` of `Stop`
pub data Event : Type 0 where
  submit : Task → Event
  take leave cancel stop : Event
  finish : ℕ → Bool → Event

-- a step is made, has to wait, or panics
pub data Step : Type 0 where
  next : Pool → Step
  blocked : Step
  panic : Step

unfoldable pub send : Task → Pool → Step
send t p =
    if p.closed
    then panic
    else if ltb (length p.queue) p.queue_cap
    then next (record p { queue = p.queue ++ (t ∷ []) })
    else blocked

unfoldable pub receive : Pool → Step
receive p =
    if ltb 0 p.idle
    then elim p.queue [
      | [] ↦ blocked
      | t ∷ rest ↦
          next (record p { queue = rest; idle = p.idle - 1; running = p.running ++ (t ∷ []) })
    ]
    else blocked

unfoldable pub return_handler : ℕ → Bool → Pool → Step
unfolding pick
return_handler n ok p = elim (pick n p.running) [
  | none ↦ blocked
  | some (t, rest) ↦ next (record p { running = rest; done = (t, ok) ∷ p.done; idle = p.idle + 1 })
]

abbrev is_drained : Pool → Bool
is_drained p = elim p.queue [ [] ↦ p.closed | _ ∷ _ ↦ false ]

-- `case <-ctx.Done(): return`, and `if !ok { return }` on a closed and empty channel
unfoldable pub return_worker : Pool → Step
return_worker p =
    if ltb 0 p.idle && (p.cancelled || is_drained p)
    then next (record p { idle = p.idle - 1; gone = p.gone + 1 })
    else blocked

unfoldable pub step : Event → Pool → Step
unfolding send receive return_handler return_worker
step (submit t) p = send t p
step take p = receive p
step (finish n ok) p = return_handler n ok p
step leave p = return_worker p
step cancel p = next (record p { cancelled = true })
step stop p = next (record p { closed = true })

-- `Stop` returns, within its limit, once the last worker has
unfoldable pub is_stopped : Pool → Bool
is_stopped p = p.closed && (p.gone == p.workers)

-- `QueueUsage() >= num / den`, as the fraction of the buffer
unfoldable pub usage_at_least : (num den : ℕ) → Pool → Bool
usage_at_least num den p =
    if p.queue_cap == 0 then false else leb (num * p.queue_cap) (den * length p.queue)
