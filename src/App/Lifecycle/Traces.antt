-- ===== src/App/Lifecycle/Traces.antt =====
-- The processes of cmd/server and cmd/worker as runs of their pools.
use mathlib.Core.List.{append_assoc}
use mailclear.Base.{
  ◌≡◌, refl, ap, sym, subst, ◌∙◌, inl, inr, true, ◌&&◌, not, List, [], ◌∷◌, ◌++◌, Option, none,
  some, Bool-cases, Option-cases, arith, ◌>>=◌, if◌then◌else◌,
}
use mailclear.Workers.Pool.{
  Task, Pool, Event, submit, take, finish, leave, cancel, stop, Step, next, blocked, panic, step,
}
use mailclear.Workers.Pool.Order.{sent, sent_all, run, run_cons}
use mailclear.App.Lifecycle.{
  Process, Happening, signal, listen_failed, listen_closed, ctx_done, pool_stopped, pool_late,
  upload, work, is_work, is_running, is_serving, on_pool, begin_shutdown, common_step, api_step,
  worker_step,
}

-- the happenings, one after the other
abbrev pub live : (Happening → Process → Option Process) → List Happening → Process → Option Process
live move [] p = some p
live move (h ∷ hs) p = move h p >>= live move hs

-- what a happening is to the pool
abbrev pub events : Happening → List Event
events signal = cancel ∷ []
events (work e) = if is_work e then e ∷ [] else []
events (upload t) = submit t ∷ []
events listen_closed = stop ∷ []
events ctx_done = stop ∷ []
events _ = []

pub on_pool-step :
    (e : Event) (p q : Process)
    → on_pool e p ≡ some q
    → (step e p.pool ≡ next q.pool) × (q.phase ≡ p.phase) × (q.http_closed ≡ p.http_closed)
unfolding on_pool
on_pool-step e p q h = go (step e p.pool) refl h
  where
    go :
        (s : Step)
        → step e p.pool ≡ s
        → elim s [ next r ↦ some (record p { pool = r }) | blocked ↦ none | panic ↦ none ] ≡ some q
        → (step e p.pool ≡ next q.pool) × (q.phase ≡ p.phase) × (q.http_closed ≡ p.http_closed)
    go (next r) same h' = ground arith
    go blocked same h' = absurd (ground arith)
    go panic same h' = absurd (ground arith)

run_one : (e : Event) (p q : Pool) → step e p ≡ next q → run (e ∷ []) p ≡ next q
run_one e p q h = ground arith

run_append : (es es' : List Event) (p q : Pool) → run es p ≡ next q → run (es ++ es') p ≡ run es' q
run_append [] es' p q h = let same : p ≡ q = ground arith in ap (run es') same
run_append (e ∷ es) es' p q h =
    let (r, made, rest) = run_cons e es p q h in let ih = run_append es es' r q rest in ground arith

-- what the step of one happening is to the pool
pub IsTraced : Happening → Process → Process → Type 0
IsTraced h p q = run (events h) p.pool ≡ next q.pool

begin_shutdown-stop : (p : Process) → run (stop ∷ []) p.pool ≡ next (begin_shutdown p).pool
unfolding begin_shutdown step
begin_shutdown-stop p = refl

common_step-IsTraced : (h : Happening) (p q : Process) → common_step h p ≡ some q → IsTraced h p q
unfolding common_step IsTraced
common_step-IsTraced signal p q h = elim (Bool-cases (is_running p.phase)) [
  | inl alive ↦ run_one cancel p.pool q.pool (on_pool-step cancel p q (ground arith)).0
  | inr dead ↦ absurd (ground arith)
]
common_step-IsTraced (work e) p q h = elim (Bool-cases (is_running p.phase && is_work e)) [
  | inl can ↦
      let done = run_one e p.pool q.pool (on_pool-step e p q (ground arith)).0 in
      let worker : is_work e ≡ true = ground arith in
      subst (λ b. run (if b then e ∷ [] else []) p.pool ≡ next q.pool) (sym worker) done
  | inr cannot ↦ absurd (ground arith)
]
common_step-IsTraced pool_stopped p q h = ground arith
common_step-IsTraced pool_late p q h = ground arith
common_step-IsTraced listen_failed p q h = absurd (ground arith)
common_step-IsTraced listen_closed p q h = absurd (ground arith)
common_step-IsTraced ctx_done p q h = absurd (ground arith)
common_step-IsTraced (upload t) p q h = absurd (ground arith)

pub api_step-IsTraced : (h : Happening) (p q : Process) → api_step h p ≡ some q → IsTraced h p q
unfolding api_step IsTraced
api_step-IsTraced (upload t) p q h = elim (Bool-cases (is_serving p.phase && not p.http_closed)) [
  | inl can ↦ run_one (submit t) p.pool q.pool (on_pool-step (submit t) p q (ground arith)).0
  | inr cannot ↦ absurd (ground arith)
]
api_step-IsTraced listen_failed p q h = ground arith
api_step-IsTraced listen_closed p q h =
    let e : begin_shutdown p ≡ q = ground arith in begin_shutdown-stop p ∙ ap (λ r. next r.pool) e
api_step-IsTraced ctx_done p q h = absurd (ground arith)
api_step-IsTraced signal p q h = common_step-IsTraced signal p q h
api_step-IsTraced (work e) p q h = common_step-IsTraced (work e) p q h
api_step-IsTraced pool_stopped p q h = common_step-IsTraced pool_stopped p q h
api_step-IsTraced pool_late p q h = common_step-IsTraced pool_late p q h

pub worker_step-IsTraced :
    (h : Happening) (p q : Process) → worker_step h p ≡ some q → IsTraced h p q
unfolding worker_step IsTraced
worker_step-IsTraced ctx_done p q h =
    let e : begin_shutdown p ≡ q = ground arith in begin_shutdown-stop p ∙ ap (λ r. next r.pool) e
worker_step-IsTraced (upload t) p q h = absurd (ground arith)
worker_step-IsTraced listen_failed p q h = absurd (ground arith)
worker_step-IsTraced listen_closed p q h = absurd (ground arith)
worker_step-IsTraced signal p q h = common_step-IsTraced signal p q h
worker_step-IsTraced (work e) p q h = common_step-IsTraced (work e) p q h
worker_step-IsTraced pool_stopped p q h = common_step-IsTraced pool_stopped p q h
worker_step-IsTraced pool_late p q h = common_step-IsTraced pool_late p q h

abbrev pub events_all : List Happening → List Event
events_all [] = []
events_all (h ∷ hs) = events h ++ events_all hs

pub live_cons :
    (move : Happening → Process → Option Process) (h : Happening) (hs : List Happening)
    (p q : Process)
    → live move (h ∷ hs) p ≡ some q
    → (r : Process) × (move h p ≡ some r) × (live move hs r ≡ some q)
live_cons move h hs p q e = elim (Option-cases (move h p)) [
  | inl stuck ↦ absurd (ground arith)
  | inr (r, made) ↦ (r, made, ground arith)
]

-- a process is to its pool what its happenings are
pub live-run :
    (move : Happening → Process → Option Process)
    → ((h : Happening) (p q : Process) → move h p ≡ some q → IsTraced h p q)
    → (hs : List Happening) (p q : Process) → live move hs p ≡ some q
    → run (events_all hs) p.pool ≡ next q.pool
unfolding IsTraced
live-run move traced [] p q e = let same : p ≡ q = ground arith in ap (λ r. next r.pool) same
live-run move traced (h ∷ hs) p q e =
    let (r, made, rest) = live_cons move h hs p q e in
    run_append (events h) (events_all hs) p.pool r.pool (traced h p r made)
    ∙ live-run move traced hs r q rest

-- the tasks that handlers submit
abbrev pub uploads : List Happening → List Task
uploads [] = []
uploads (upload t ∷ hs) = t ∷ uploads hs
uploads (_ ∷ hs) = uploads hs

sent_all-append : (es es' : List Event) → sent_all (es ++ es') ≡ sent_all es ++ sent_all es'
sent_all-append [] es' = refl
sent_all-append (e ∷ es) es' =
    ap (λ l. sent e ++ l) (sent_all-append es es')
    ∙ sym (append_assoc (sent e) (sent_all es) (sent_all es'))

sent_all-work : (e : Event) → sent_all (events (work e)) ≡ []
unfolding is_work
sent_all-work (submit t) = refl
sent_all-work take = refl
sent_all-work (finish n ok) = refl
sent_all-work leave = refl
sent_all-work cancel = refl
sent_all-work stop = refl

pub sent_all-uploads : (hs : List Happening) → sent_all (events_all hs) ≡ uploads hs
sent_all-uploads [] = refl
sent_all-uploads (upload t ∷ hs) = ap (λ l. t ∷ l) (sent_all-uploads hs)
sent_all-uploads (work e ∷ hs) =
    sent_all-append (events (work e)) (events_all hs)
    ∙ ap (λ l. l ++ sent_all (events_all hs)) (sent_all-work e)
    ∙ sent_all-uploads hs
sent_all-uploads (signal ∷ hs) = sent_all-uploads hs
sent_all-uploads (listen_failed ∷ hs) = sent_all-uploads hs
sent_all-uploads (listen_closed ∷ hs) = sent_all-uploads hs
sent_all-uploads (ctx_done ∷ hs) = sent_all-uploads hs
sent_all-uploads (pool_stopped ∷ hs) = sent_all-uploads hs
sent_all-uploads (pool_late ∷ hs) = sent_all-uploads hs
