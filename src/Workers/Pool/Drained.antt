-- ===== src/Workers/Pool/Drained.antt =====
-- What is left when the workers of internal/workers/pool.go have returned.
use mathlib.Core.List.{Perm, append-nil, append_assoc}
use mailclear.Base.{
  ℕ, ◌<◌, ◌≡◌, refl, ap, sym, subst, ◌∙◌, ◌⊎◌, true, false, List, [], ◌∷◌, ◌++◌, some, map, length,
  arith,
}
use mailclear.Workers.Pool.{
  Task, Pool, start, pick, Event, submit, take, finish, leave, cancel, stop, next, step,
}
use mailclear.Workers.Pool.Steps.{send_next, receive_next, return_handler_next, return_worker_next}
use mailclear.Workers.Pool.Order.{sent, sent_all, run, run_cons, run-IsOrdered}

-- a worker has returned only on an empty, closed queue, unless the context has ended
abbrev IsPatient : Pool → Type 0
IsPatient p =
    (0 < p.workers) × ((p.cancelled ≡ true) ⊎ ((p.gone ≡ 0) ⊎ ((p.closed ≡ true) × (p.queue ≡ []))))

step-IsPatient : (e : Event) (p q : Pool) → step e p ≡ next q → IsPatient p → IsPatient q
unfolding step
step-IsPatient (submit t) p q h v = let (room, e) = send_next t p q h in ground arith
step-IsPatient take p q h v = let (t, rest, head, free, e) = receive_next p q h in ground arith
step-IsPatient (finish n ok) p q h v =
    let (t, rest, picked, e) = return_handler_next n ok p q h in ground arith
step-IsPatient leave p q h v = let (free, why, e) = return_worker_next p q h in ground arith
step-IsPatient cancel p q h v = ground arith
step-IsPatient stop p q h v = ground arith

run-IsPatient : (es : List Event) (p q : Pool) → run es p ≡ next q → IsPatient p → IsPatient q
run-IsPatient [] p q h v = let e : p ≡ q = ground arith in subst IsPatient e v
run-IsPatient (e ∷ es) p q h v =
    let (r, made, rest) = run_cons e es p q h in
    run-IsPatient es r q rest (step-IsPatient e p r made v)

start-IsPatient : (workers queue_buf : ℕ) → IsPatient (start workers queue_buf)
unfolding start
start-IsPatient workers queue_buf = ground arith

nil_of_length : (ts : List Task) → length ts ≡ 0 → ts ≡ []
nil_of_length [] e = refl
nil_of_length (t ∷ ts) e = absurd (omega arith)

-- Once every worker has returned, and not because the context ended, nothing is queued or in a handler,
-- and the tasks that were sent are those that have been through a handler, each as often.
pub run_drained :
    (workers queue_buf : ℕ) (es : List Event) (p : Pool)
    → run es (start workers queue_buf) ≡ next p
    → p.cancelled ≡ false
    → p.gone ≡ p.workers
    → (p.queue ≡ []) × (p.running ≡ []) × Perm (map (λ d. d.0) p.done) (sent_all es)
run_drained workers queue_buf es p h alive gone =
    let o = run-IsOrdered workers queue_buf es p h in
    let v = run-IsPatient es (start workers queue_buf) p h (start-IsPatient workers queue_buf) in
    let idle_hands : p.running ≡ [] = nil_of_length p.running (omega (arith, o.staff)) in
    let empty : p.queue ≡ [] = ground arith in
    let all : o.taken ≡ sent_all es =
      sym (append-nil o.taken) ∙ ap (λ l. o.taken ++ l) (sym empty) ∙ o.fifo in
    let held : Perm (map (λ d. d.0) p.done ++ []) o.taken =
      subst (λ l. Perm (map (λ d. d.0) p.done ++ l) o.taken) idle_hands o.held in
    (
      empty,
      idle_hands,
      subst (Perm (map (λ d. d.0) p.done)) all (subst (λ l. Perm l o.taken) (append-nil _) held),
    )

-- no worker is left
abbrev IsDeserted : Pool → Type 0
IsDeserted p = (p.idle ≡ 0) × (p.running ≡ [])

step-IsDeserted :
    (e : Event) (p q : Pool)
    → step e p ≡ next q
    → IsDeserted p
    → IsDeserted q × (q.done ≡ p.done) × (q.queue ≡ p.queue ++ sent e)
unfolding step pick
step-IsDeserted (submit t) p q h d = let (room, e) = send_next t p q h in ground arith
step-IsDeserted take p q h d =
    let (t, rest, head, free, e) = receive_next p q h in absurd (omega arith)
step-IsDeserted (finish n ok) p q h d =
    let (t, rest, picked, e) = return_handler_next n ok p q h in
    let none_left : pick n [] ≡ some (t, rest) =
      subst (λ l. pick n l ≡ some (t, rest)) d.1 picked in
    absurd (ground arith)
step-IsDeserted leave p q h d =
    let (free, why, e) = return_worker_next p q h in absurd (omega arith)
step-IsDeserted cancel p q h d = ground (arith, append-nil p.queue)
step-IsDeserted stop p q h d = ground (arith, append-nil p.queue)

run_deserted :
    (es : List Event) (p q : Pool)
    → run es p ≡ next q
    → IsDeserted p
    → (q.done ≡ p.done) × (q.queue ≡ p.queue ++ sent_all es)
run_deserted [] p q h d = ground (arith, append-nil p.queue)
run_deserted (e ∷ es) p q h d =
    let (r, made, rest) = run_cons e es p q h in
    let (d', done, queue) = step-IsDeserted e p r made d in
    let (done', queue') = run_deserted es r q rest d' in
    (
      done' ∙ done,
      queue' ∙ ap (λ l. l ++ sent_all es) queue ∙ append_assoc p.queue (sent e) (sent_all es),
    )

-- Once every worker has returned, the pool still takes tasks while its queue has room, and none of them
-- ever reaches a handler.
pub run_abandoned :
    (workers queue_buf : ℕ) (es es' : List Event) (p q : Pool)
    → run es (start workers queue_buf) ≡ next p
    → p.gone ≡ p.workers
    → run es' p ≡ next q
    → (q.done ≡ p.done) × (q.queue ≡ p.queue ++ sent_all es')
run_abandoned workers queue_buf es es' p q h gone h' =
    let o = run-IsOrdered workers queue_buf es p h in
    run_deserted es' p q h'
      (omega (arith, o.staff), nil_of_length p.running (omega (arith, o.staff)))
