-- ===== src/Tests/Processes.antt =====
-- The processes of the API and of the worker, and their lists.
use mailclear.Base.{◌≡◌, refl, List, [], ◌∷◌, ◌++◌, some, All, true, false, arith}
use mailclear.Text.{lit}
use mailclear.Workers.Pool.{Task, start, leave, step, send, return_worker}
use mailclear.App.Lifecycle.{
  serving, Process, Happening, signal, upload, work, api_step, common_step, on_pool, is_work,
  is_running, is_serving, boot,
}
use mailclear.App.Lifecycle.Traces.{live, uploads}
use mailclear.App.Lifecycle.Signals.{IsServing, IsListening, api-IsServing, api_abandons}

abbrev late_task : Task
late_task = record { job_id = lit "j"; emails = lit "ana@x.org" ∷ [] }

-- the signal comes and the only worker returns
abbrev signalled : List Happening
signalled = signal ∷ work leave ∷ []

abbrev deserted : Process
deserted = record {
  pool = record {
    workers = 1;
    queue_cap = 4;
    queue = [];
    closed = false;
    cancelled = true;
    idle = 0;
    gone = 1;
    running = [];
    done = [];
  };
  phase = serving;
  http_closed = false;
  timed_out = false;
}

live-signalled : live api_step signalled (boot serving 1 4) ≡ some deserted
unfolding boot start api_step common_step on_pool is_work is_running step return_worker
live-signalled = refl

signalled-IsListening : All IsListening signalled
signalled-IsListening = (λ e. absurd (ground arith), (λ e. absurd (ground arith), tt))

api-IsServing_example : IsServing deserted
api-IsServing_example = api-IsServing 1 4 signalled deserted signalled-IsListening live-signalled

abbrev waiting_task : Process
waiting_task = record deserted { pool = record deserted.pool { queue = late_task ∷ [] } }

live-late : live api_step (upload late_task ∷ []) deserted ≡ some waiting_task
unfolding api_step on_pool is_serving step send
live-late = refl

api_abandons_example :
    (waiting_task.pool.done ≡ deserted.pool.done)
    × (waiting_task.pool.queue ≡ deserted.pool.queue ++ uploads (upload late_task ∷ []))
api_abandons_example =
    api_abandons 1 4 signalled (upload late_task ∷ []) deserted waiting_task live-signalled refl
      live-late
