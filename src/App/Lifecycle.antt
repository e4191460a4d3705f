-- ===== src/App/Lifecycle.antt =====
-- cmd/server/main.go, cmd/worker/main.go, internal/server/server.go and `Shutdown` of
-- internal/app/app.go, as steps of a process. `ListenAndServe` returns `http.ErrServerClosed` only after
-- the HTTP server was shut down, and another error only where the listener fails. The updater, the AIMD
-- controller and the notices to systemd run beside and are left out.
pub mod Traces
pub mod Signals
use mailclear.Base.{ℕ, Bool, true, false, ◌&&◌, not, Option, none, some, if◌then◌else◌}
use mailclear.Workers.Pool.{
  Task, Pool, start, Event, submit, take, finish, leave, cancel, stop, Step, next, blocked, panic,
  step, is_stopped,
}

-- `main` is in `HTTPServer.Start`, in `<-ctx.Done()`, in `Pool.Stop`, or has returned
pub data Phase : Type 0 where
  serving waiting stopping exited : Phase

pub record Process : Type 0 where
  pub pool : Pool
  pub phase : Phase
  pub http_closed : Bool
  pub timed_out : Bool

-- `signal` is SIGINT or SIGTERM, `upload` a `Submit` of a handler, `work` a step of a worker,
-- `listen_failed` and `listen_closed` the two errors of `ListenAndServe`, `ctx_done` the receive in the
-- worker process, `pool_stopped` and `pool_late` the two ends of `Pool.Stop`
pub data Happening : Type 0 where
  signal listen_failed listen_closed ctx_done pool_stopped pool_late : Happening
  upload : Task → Happening
  work : Event → Happening

-- the steps that workers make
unfoldable pub is_work : Event → Bool
is_work take = true
is_work leave = true
is_work (finish _ _) = true
is_work _ = false

unfoldable pub is_running : Phase → Bool
is_running exited = false
is_running _ = true

unfoldable pub is_serving : Phase → Bool
is_serving serving = true
is_serving _ = false

unfoldable pub is_waiting : Phase → Bool
is_waiting waiting = true
is_waiting _ = false

unfoldable pub is_stopping : Phase → Bool
is_stopping stopping = true
is_stopping _ = false

-- a step of the pool; `none` where it cannot happen
unfoldable pub on_pool : Event → Process → Option Process
on_pool e p = elim (step e p.pool) [
  | next q ↦ some (record p { pool = q })
  | blocked ↦ none
  | panic ↦ none
]

-- `Shutdown` up to the wait of `Pool.Stop`, which closed the queue
unfoldable pub begin_shutdown : Process → Process
begin_shutdown p = record p {
  http_closed = true;
  pool = record p.pool { closed = true };
  phase = stopping;
}

-- what the two processes have in common
unfoldable pub common_step : Happening → Process → Option Process
unfolding on_pool is_work is_running is_stopping
common_step signal p = if is_running p.phase then on_pool cancel p else none
common_step (work e) p = if is_running p.phase && is_work e then on_pool e p else none
common_step pool_stopped p =
    if is_stopping p.phase && is_stopped p.pool then some (record p { phase = exited }) else none
common_step pool_late p =
    if is_stopping p.phase then some (record p { phase = exited; timed_out = true }) else none
common_step _ p = none

-- cmd/server: handlers submit while the server is open; `log.Fatal` exits without `Shutdown`
unfoldable pub api_step : Happening → Process → Option Process
unfolding common_step on_pool is_serving begin_shutdown
api_step (upload t) p =
    if is_serving p.phase && not p.http_closed then on_pool (submit t) p else none
api_step listen_failed p = if is_serving p.phase then some (record p { phase = exited }) else none
api_step listen_closed p =
    if is_serving p.phase && p.http_closed then some (begin_shutdown p) else none
api_step ctx_done p = none
api_step h p = common_step h p

-- cmd/worker: there is no server, and `Shutdown` follows the signal
unfoldable pub worker_step : Happening → Process → Option Process
unfolding common_step is_waiting begin_shutdown
worker_step ctx_done p =
    if is_waiting p.phase && p.pool.cancelled then some (begin_shutdown p) else none
worker_step (upload t) p = none
worker_step listen_failed p = none
worker_step listen_closed p = none
worker_step h p = common_step h p

-- after `app.New` and `a.Pool.Start`
unfoldable pub boot : Phase → (workers queue_buf : ℕ) → Process
unfolding start
boot phase workers queue_buf = record {
  pool = start workers queue_buf;
  phase = phase;
  http_closed = false;
  timed_out = false;
}
