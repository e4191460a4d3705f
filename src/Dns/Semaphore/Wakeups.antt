-- ===== src/Dns/Semaphore/Wakeups.antt =====
-- Who wakes the waiters.
use mailclear.Base.{
  ℕ, suc, ◌+◌, ◌≤◌, ◌<◌, ◌≡◌, ◌≢◌, refl, ◌⊎◌, inl, inr, List, [], ◌∷◌, Option, none, some, arith,
  Option-cases, Bool-cases, length, length-append, ◌==◌, All, subst, sym,
}
use mailclear.Validation.Pipeline.{CtxError}
use mailclear.Dns.Semaphore.{
  System, start, Event, enter, resume, release, counted, change_limit, watch, enter_step,
  remove_first, resume_step, signal, limit_step, release_step, counted_step, step, give_slot,
}
use mailclear.Dns.Semaphore.Limit.{run_events}

-- nobody sleeps, or there are as many woken callers as free slots
abbrev pub IsAttended : System → Type 0
IsAttended s = (s.sleeping ≡ []) ⊎ (s.sem.limit ≤ s.sem.inflight + length s.ready)

-- no woken caller finds its context cancelled
abbrev pub IsCalm : Event → Type 0
IsCalm (resume t err) = err ≡ none
IsCalm _ = Unit

length-remove_first :
    (t : ℕ) (xs ys : List ℕ) → remove_first t xs ≡ some ys → length xs ≡ suc (length ys)
unfolding remove_first
length-remove_first t [] ys h = absurd (ground arith)
length-remove_first t (x ∷ xs) ys h = elim (Bool-cases (x == t)) [
  | inl e ↦ ground arith
  | inr e ↦ elim (Option-cases (remove_first t xs)) [
    | inl n ↦ absurd (ground arith)
    | inr (zs, p) ↦
        let ih : length xs ≡ suc (length zs) = length-remove_first t xs zs p in ground arith
  ]
]

enter-IsAttended :
    (t : ℕ) (err : Option CtxError) (s : System) → IsAttended s → IsAttended (enter_step t err s)
unfolding enter_step
enter-IsAttended t err s h = ground arith

resume-IsAttended :
    (t : ℕ) (rest : List ℕ) (s : System)
    → length s.ready ≡ suc (length rest)
    → IsAttended s
    → IsAttended (resume_step t none rest s)
unfolding resume_step
resume-IsAttended t rest s e h = ground arith

signal-IsAttended :
    (s : System)
    → (s.sleeping ≡ []) ⊎ (s.sem.limit ≤ s.sem.inflight + length s.ready + 1)
    → IsAttended (signal s)
unfolding signal
signal-IsAttended s h = go s.sleeping refl
  where
    go : (l : List ℕ) → s.sleeping ≡ l → IsAttended (signal s)
    go [] e = simp (e, signal) (inl refl)
    go (t ∷ ts) e = simp (e, signal) (inr (ground (arith, length-append s.ready (t ∷ []))))

release-IsAttended : (s : System) → IsAttended s → IsAttended (release_step s)
unfolding give_slot release_step
release-IsAttended s h =
    signal-IsAttended (record s { sem = give_slot s.sem; leaving = s.leaving + 1 }) (ground arith)

counted-IsAttended : (s : System) → IsAttended s → IsAttended (counted_step s)
unfolding counted_step
counted-IsAttended s h = ground arith

limit-IsAttended : (n : ℕ) (s : System) → IsAttended s → IsAttended (limit_step n s)
unfolding limit_step
limit-IsAttended n s h = ground arith

resume-case : (t : ℕ) (s : System) → IsAttended s → IsAttended (step s (resume t none))
unfolding step
resume-case t s h = go (remove_first t s.ready) refl
  where
    go :
        (o : Option (List ℕ))
        → remove_first t s.ready ≡ o
        → IsAttended (elim o [ none ↦ s | some rest ↦ resume_step t none rest s ])
    go none e = h
    go (some rest) e = resume-IsAttended t rest s (length-remove_first t s.ready rest e) h

step-IsAttended : (s : System) (e : Event) → IsCalm e → IsAttended s → IsAttended (step s e)
unfolding step
step-IsAttended s (enter t err) calm h = enter-IsAttended t err s h
step-IsAttended s (resume t err) calm h =
    subst (λ x. IsAttended (step s (resume t x))) (sym calm) (resume-case t s h)
step-IsAttended s release calm h = release-IsAttended s h
step-IsAttended s counted calm h = counted-IsAttended s h
step-IsAttended s (change_limit n) calm h = limit-IsAttended n s h
step-IsAttended s watch calm h = inl refl

run_events-IsAttended :
    (s : System) (es : List Event) → All IsCalm es → IsAttended s → IsAttended (run_events s es)
run_events-IsAttended s [] calm h = h
run_events-IsAttended s (e ∷ es) calm h =
    run_events-IsAttended (step s e) es calm.1 (step-IsAttended s e calm.0 h)

-- While no woken caller finds its context cancelled, no wake-up is lost: after any events, if callers
-- sleep then as many callers are woken as slots are free.
pub run-IsAttended :
    (initial : ℕ) (es : List Event) → All IsCalm es → IsAttended (run_events (start initial) es)
unfolding start
run-IsAttended initial es calm = run_events-IsAttended (start initial) es calm (inl refl)

cancelled_resume :
    (s : System) (t : ℕ) (err : CtxError)
    → s.ready ≡ t ∷ []
    → s.sem.inflight < s.sem.limit
    → step s (resume t (some err)) ≡ record s { ready = [] }
unfolding step resume_step remove_first
cancelled_resume s t err one free = ground arith

-- A woken caller that finds its context cancelled returns the error and wakes nobody else: where it
-- was the only woken one, a slot is free and others sleep, the slot stays free and nobody is woken.
pub cancelled_resume_lost :
    (s : System) (t : ℕ) (err : CtxError)
    → s.ready ≡ t ∷ []
    → s.sleeping ≢ []
    → s.sem.inflight < s.sem.limit
    → ¬ IsAttended (step s (resume t (some err)))
cancelled_resume_lost s t err one others free =
    rw (cancelled_resume s t err one free) (λ h. elim h [ inl e ↦ others e | inr le ↦ omega arith ])
