-- ===== src/Workers/Pool/Order.antt =====
-- The tasks of internal/workers/pool.go, from `Submit` to the handler.
use mathlib.Core.List.{Perm, perm_middle, append_assoc, append-nil}
use mathlib.Core.List.Perm
use mailclear.Base.{
  ℕ, ◌+◌, ◌≤◌, ◌≡◌, refl, ap, sym, subst, ◌∙◌, Bool, true, List, [], ◌∷◌, ◌++◌, map, length,
  length-append, arith,
}
use mailclear.Workers.Pool.{
  Task, Pool, start, Event, submit, take, finish, leave, cancel, stop, Step, next, blocked, panic,
  send, receive, return_handler, return_worker, step,
}
use mailclear.Workers.Pool.Steps.{
  pick-perm, send_next, receive_next, return_handler_next, return_worker_next,
}

-- the tasks that an event sends
abbrev pub sent : Event → List Task
sent (submit t) = t ∷ []
sent _ = []

abbrev pub sent_all : List Event → List Task
sent_all [] = []
sent_all (e ∷ es) = sent e ++ sent_all es

-- the steps of the events, one after the other
abbrev pub run : List Event → Pool → Step
run [] p = next p
run (e ∷ es) p = elim (step e p) [ next q ↦ run es q | blocked ↦ blocked | panic ↦ panic ]

-- the tasks that a worker has taken
abbrev pub handled : Pool → List Task
handled p = map (λ d. d.0) p.done ++ p.running

-- The workers took the first of the tasks that were sent, and the queue holds the others in order; it
-- holds at most its capacity, and each worker waits, handles a task or has returned.
pub record IsOrdered (seen : List Task) (p : Pool) : Type 0 where
  pub taken : List Task
  pub fifo : taken ++ p.queue ≡ seen
  pub held : Perm (handled p) taken
  pub bounded : length p.queue ≤ p.queue_cap
  pub staff : p.idle + length p.running + p.gone ≡ p.workers

send-IsOrdered :
    (t : Task) (seen : List Task) (p q : Pool)
    → send t p ≡ next q
    → IsOrdered seen p
    → IsOrdered (seen ++ (t ∷ [])) q
send-IsOrdered t seen p q h o =
    let (room, e) = send_next t p q h in
    subst (IsOrdered (seen ++ (t ∷ []))) (sym e) (record {
      taken = o.taken;
      fifo = sym (append_assoc o.taken p.queue (t ∷ [])) ∙ ap (λ l. l ++ (t ∷ [])) o.fifo;
      held = o.held;
      bounded = omega (arith, length-append p.queue (t ∷ []));
      staff = o.staff;
    })

receive-IsOrdered :
    (seen : List Task) (p q : Pool) → receive p ≡ next q → IsOrdered seen p → IsOrdered seen q
receive-IsOrdered seen p q h o =
    let (t, rest, head, free, e) = receive_next p q h in
    subst (IsOrdered seen) (sym e) (record {
      taken = o.taken ++ (t ∷ []);
      fifo = append_assoc o.taken (t ∷ []) rest ∙ ap (λ l. o.taken ++ l) (sym head) ∙ o.fifo;
      held =
          subst (λ l. Perm l (o.taken ++ (t ∷ [])))
            (append_assoc (map (λ d. d.0) p.done) p.running (t ∷ []))
            (Perm.append_right (t ∷ []) o.held);
      bounded = omega (arith, ap length head, o.bounded);
      staff = omega (arith, length-append p.running (t ∷ []), o.staff);
    })

return_handler-IsOrdered :
    (n : ℕ) (ok : Bool) (seen : List Task) (p q : Pool)
    → return_handler n ok p ≡ next q
    → IsOrdered seen p
    → IsOrdered seen q
return_handler-IsOrdered n ok seen p q h o =
    let (t, rest, picked, e) = return_handler_next n ok p q h in
    let (perm, size) = pick-perm n p.running t rest picked in
    subst (IsOrdered seen) (sym e) (record {
      taken = o.taken;
      fifo = o.fifo;
      held =
          Perm.trans (Perm.symm (perm_middle (map (λ d. d.0) p.done) rest))
            (Perm.trans (Perm.append_left (map (λ d. d.0) p.done) (Perm.symm perm)) o.held);
      bounded = o.bounded;
      staff = omega (arith, size, o.staff);
    })

return_worker-IsOrdered :
    (seen : List Task) (p q : Pool) → return_worker p ≡ next q → IsOrdered seen p → IsOrdered seen q
return_worker-IsOrdered seen p q h o =
    let (free, _, e) = return_worker_next p q h in
    subst (IsOrdered seen) (sym e) (record {
      taken = o.taken;
      fifo = o.fifo;
      held = o.held;
      bounded = o.bounded;
      staff = omega (arith, o.staff);
    })

step-IsOrdered :
    (e : Event) (seen : List Task) (p q : Pool)
    → step e p ≡ next q
    → IsOrdered seen p
    → IsOrdered (seen ++ sent e) q
unfolding step
step-IsOrdered (submit t) seen p q h o = send-IsOrdered t seen p q h o
step-IsOrdered take seen p q h o = rw (append-nil seen) (receive-IsOrdered seen p q h o)
step-IsOrdered (finish n ok) seen p q h o =
    rw (append-nil seen) (return_handler-IsOrdered n ok seen p q h o)
step-IsOrdered leave seen p q h o = rw (append-nil seen) (return_worker-IsOrdered seen p q h o)
step-IsOrdered cancel seen p q h o =
    let e : record p { cancelled = true } ≡ q = ground arith in
    rw (append-nil seen) (
      subst (IsOrdered seen) e (record {
        taken = o.taken;
        fifo = o.fifo;
        held = o.held;
        bounded = o.bounded;
        staff = o.staff;
      }))
step-IsOrdered stop seen p q h o =
    let e : record p { closed = true } ≡ q = ground arith in
    rw (append-nil seen) (
      subst (IsOrdered seen) e (record {
        taken = o.taken;
        fifo = o.fifo;
        held = o.held;
        bounded = o.bounded;
        staff = o.staff;
      }))

pub run_cons :
    (e : Event) (es : List Event) (p q : Pool)
    → run (e ∷ es) p ≡ next q
    → (r : Pool) × (step e p ≡ next r) × (run es r ≡ next q)
run_cons e es p q h = go (step e p) refl h
  where
    go :
        (s : Step)
        → step e p ≡ s
        → elim s [ next r ↦ run es r | blocked ↦ blocked | panic ↦ panic ] ≡ next q
        → (r : Pool) × (step e p ≡ next r) × (run es r ≡ next q)
    go (next r) same h' = (r, same, h')
    go blocked same h' = absurd (ground arith)
    go panic same h' = absurd (ground arith)

run-IsOrdered_from :
    (es : List Event) (seen : List Task) (p q : Pool)
    → run es p ≡ next q
    → IsOrdered seen p
    → IsOrdered (seen ++ sent_all es) q
run-IsOrdered_from [] seen p q h o = rw (append-nil seen) (subst (IsOrdered seen) (ground arith) o)
run-IsOrdered_from (e ∷ es) seen p q h o =
    let (r, made, rest) = run_cons e es p q h in
    subst (λ l. IsOrdered l q) (append_assoc seen (sent e) (sent_all es))
      (run-IsOrdered_from es (seen ++ sent e) r q rest (step-IsOrdered e seen p r made o))

start-IsOrdered : (workers queue_buf : ℕ) → IsOrdered [] (start workers queue_buf)
unfolding start
start-IsOrdered workers queue_buf = record {
  taken = [];
  fifo = refl;
  held = Perm.nil;
  bounded = omega arith;
  staff = omega arith;
}

-- After any steps, in any order of the workers, the tasks that workers took are the first that were
-- sent, each is in a handler or has been through one, and the queue holds the others in order; the
-- queue never exceeds its buffer and no worker is lost.
pub run-IsOrdered :
    (workers queue_buf : ℕ) (es : List Event) (p : Pool)
    → run es (start workers queue_buf) ≡ next p
    → IsOrdered (sent_all es) p
run-IsOrdered workers queue_buf es p h =
    run-IsOrdered_from es [] (start workers queue_buf) p h (start-IsOrdered workers queue_buf)
