-- ===== src/App/Lifecycle/Signals.antt =====
-- What a signal does to the two processes of cmd/server and cmd/worker.
use mathlib.Core.List.{Perm, append-eq-nil_iff}
use mathlib.Core.List.Perm
use mailclear.Base.{
  ℕ, ◌≡◌, ◌≢◌, refl, ap, subst, ◌∙◌, ◌⊎◌, inl, inr, Bool, true, false, List, [], ◌∷◌, ◌++◌, some,
  All, map, Bool-cases, arith,
}
use mailclear.Workers.Pool.{
  Task, Pool, start, Event, submit, take, finish, leave, cancel, stop, next, step,
}
use mailclear.Workers.Pool.Steps.{send_next, receive_next, return_handler_next, return_worker_next}
use mailclear.Workers.Pool.Order.{run-IsOrdered, handled}
use mailclear.Workers.Pool.Drained.{run_abandoned}
use mailclear.App.Lifecycle.{
  serving, waiting, Process, Happening, signal, listen_failed, listen_closed, ctx_done,
  pool_stopped, pool_late, upload, work, is_work, is_running, is_serving, is_stopping, on_pool,
  common_step, api_step, worker_step, boot,
}
use mailclear.App.Lifecycle.Traces.{
  live, events_all, uploads, on_pool-step, api_step-IsTraced, worker_step-IsTraced, live_cons,
  live-run, sent_all-uploads,
}

-- the API serves, and nothing has closed its server or its queue
abbrev pub IsServing : Process → Type 0
IsServing p = (p.phase ≡ serving) × (p.http_closed ≡ false) × (p.pool.closed ≡ false)

abbrev pub IsListening : Happening → Type 0
IsListening h = h ≢ listen_failed

-- only `Stop` closes the queue
step-closed : (e : Event) (p q : Pool) → step e p ≡ next q → (q.closed ≡ p.closed) ⊎ (e ≡ stop)
unfolding step
step-closed (submit t) p q h = let (room, e) = send_next t p q h in inl (ap (λ r. r.closed) e)
step-closed take p q h =
    let (t, rest, head, free, e) = receive_next p q h in inl (ap (λ r. r.closed) e)
step-closed (finish n ok) p q h =
    let (t, rest, picked, e) = return_handler_next n ok p q h in inl (ap (λ r. r.closed) e)
step-closed leave p q h =
    let (free, why, e) = return_worker_next p q h in inl (ap (λ r. r.closed) e)
step-closed cancel p q h = inl (ground arith)
step-closed stop p q h = inr refl

on_pool-IsServing :
    (e : Event) (p q : Process) → e ≢ stop → on_pool e p ≡ some q → IsServing p → IsServing q
on_pool-IsServing e p q open_still h s =
    let (made, phase, http) = on_pool-step e p q h in
    elim (step-closed e p.pool q.pool made) [
      | inl same ↦ (phase ∙ s.0, http ∙ s.1, same ∙ s.2)
      | inr closing ↦ absurd (open_still closing)
    ]

is_work-stop : (e : Event) → is_work e ≡ true → e ≢ stop
unfolding is_work
is_work-stop e w same = absurd (ground arith)

api_step-IsServing :
    (h : Happening) (p q : Process)
    → IsListening h
    → api_step h p ≡ some q
    → IsServing p
    → IsServing q
unfolding api_step common_step is_stopping is_serving is_running
api_step-IsServing signal p q listening made s =
    on_pool-IsServing cancel p q (λ e. absurd (ground arith)) (ground arith) s
api_step-IsServing (work e) p q listening made s = elim (Bool-cases (is_work e)) [
  | inl w ↦ on_pool-IsServing e p q (is_work-stop e w) (ground arith) s
  | inr idle ↦ absurd (ground arith)
]
api_step-IsServing (upload t) p q listening made s =
    on_pool-IsServing (submit t) p q (λ e. absurd (ground arith)) (ground arith) s
api_step-IsServing listen_failed p q listening made s = absurd (listening refl)
api_step-IsServing listen_closed p q listening made s = absurd (ground arith)
api_step-IsServing ctx_done p q listening made s = absurd (ground arith)
api_step-IsServing pool_stopped p q listening made s = absurd (ground arith)
api_step-IsServing pool_late p q listening made s = absurd (ground arith)

live-IsServing :
    (hs : List Happening) (p q : Process)
    → All IsListening hs
    → live api_step hs p ≡ some q
    → IsServing p
    → IsServing q
live-IsServing [] p q listening e s = let same : p ≡ q = ground arith in subst IsServing same s
live-IsServing (h ∷ hs) p q listening e s =
    let (r, made, rest) = live_cons api_step h hs p q e in
    live-IsServing hs r q listening.1 rest (api_step-IsServing h p r listening.0 made s)

boot-IsServing : (workers queue_buf : ℕ) → IsServing (boot serving workers queue_buf)
unfolding boot start
boot-IsServing workers queue_buf = (refl, refl, refl)

-- Whatever the API process goes through but a failure of its listener, signals too, it goes on serving:
-- neither its server nor the queue of its pool is ever closed.
pub api-IsServing :
    (workers queue_buf : ℕ) (hs : List Happening) (p : Process)
    → All IsListening hs
    → live api_step hs (boot serving workers queue_buf) ≡ some p
    → IsServing p
api-IsServing workers queue_buf hs p listening e =
    live-IsServing hs (boot serving workers queue_buf) p listening e
      (boot-IsServing workers queue_buf)

-- Once every worker of the API process has returned, every task that a later upload submits stays in
-- the queue, and no task is handled any more.
pub api_abandons :
    (workers queue_buf : ℕ) (hs hs' : List Happening) (p q : Process)
    → live api_step hs (boot serving workers queue_buf) ≡ some p
    → p.pool.gone ≡ p.pool.workers
    → live api_step hs' p ≡ some q
    → (q.pool.done ≡ p.pool.done) × (q.pool.queue ≡ p.pool.queue ++ uploads hs')
unfolding boot
api_abandons workers queue_buf hs hs' p q e gone e' =
    let (done, queue) =
      run_abandoned workers queue_buf (events_all hs) (events_all hs') p.pool q.pool
        (live-run api_step api_step-IsTraced hs (boot serving workers queue_buf) p e) gone
        (live-run api_step api_step-IsTraced hs' p q e') in
    (done, queue ∙ ap (λ l. p.pool.queue ++ l) (sent_all-uploads hs'))

worker_step-uploads : (t : Task) (p q : Process) → ¬ (worker_step (upload t) p ≡ some q)
unfolding worker_step
worker_step-uploads t p q h = absurd (ground arith)

not_upload :
    (h : Happening) (hs : List Happening) (p q : Process)
    → worker_step h p ≡ some q
    → uploads (h ∷ hs) ≡ uploads hs
not_upload (upload t) hs p q made = absurd (worker_step-uploads t p q made)
not_upload signal hs p q made = refl
not_upload (work e) hs p q made = refl
not_upload listen_failed hs p q made = refl
not_upload listen_closed hs p q made = refl
not_upload ctx_done hs p q made = refl
not_upload pool_stopped hs p q made = refl
not_upload pool_late hs p q made = refl

worker-uploads :
    (hs : List Happening) (p q : Process) → live worker_step hs p ≡ some q → uploads hs ≡ []
worker-uploads [] p q e = refl
worker-uploads (h ∷ hs) p q e =
    let (r, made, rest) = live_cons worker_step h hs p q e in
    not_upload h hs p r made ∙ worker-uploads hs r q rest

map_nil : (ds : List (Task × Bool)) → map (λ d. d.0) ds ≡ [] → ds ≡ []
map_nil [] e = refl
map_nil (d ∷ ds) e = absurd (ground arith)

-- Whatever the worker process goes through, its pool has no task in its queue or in a handler, and has
-- handled none.
pub worker_idle :
    (workers queue_buf : ℕ) (hs : List Happening) (p : Process)
    → live worker_step hs (boot waiting workers queue_buf) ≡ some p
    → (p.pool.queue ≡ []) × (p.pool.running ≡ []) × (p.pool.done ≡ [])
unfolding boot
worker_idle workers queue_buf hs p e =
    let o =
      run-IsOrdered workers queue_buf (events_all hs) p.pool
        (live-run worker_step worker_step-IsTraced hs (boot waiting workers queue_buf) p e) in
    let nothing : o.taken ++ p.pool.queue ≡ [] =
      o.fifo ∙ sent_all-uploads hs ∙ worker-uploads hs (boot waiting workers queue_buf) p e in
    let (taken, queue) = append-eq-nil_iff.0 nothing in
    let (done, running) =
      append-eq-nil_iff.0 (Perm.eq-nil (subst (λ l. Perm (handled p.pool) l) taken o.held)) in
    (queue, running, map_nil p.pool.done done)
