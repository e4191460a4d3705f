-- ===== src/Workers/Pool/Steps.antt =====
-- What a step of internal/workers/pool.go changes, as equations.
use mathlib.Core.List.{Perm}
use mathlib.Core.List.Perm
use mailclear.Base.{
  ℕ, zero, suc, ◌+◌, ◌-◌, ◌<◌, ◌≡◌, refl, ap, subst, ◌∙◌, ◌⊎◌, inl, inr, Bool, true, List, [], ◌∷◌,
  ◌++◌, some, length, Option-cases, arith,
}
use mailclear.Workers.Pool.{Task, Pool, pick, next, send, receive, return_handler, return_worker}

pub pick-perm :
    (n : ℕ) (ts : List Task) (t : Task) (rest : List Task)
    → pick n ts ≡ some (t, rest)
    → Perm ts (t ∷ rest) × (length ts ≡ suc (length rest))
unfolding pick
pick-perm n [] t rest h = absurd (ground arith)
pick-perm zero (x ∷ ts) t rest h =
    let same : x ∷ ts ≡ t ∷ rest = ground arith in
    (subst (λ l. Perm (x ∷ ts) l) same (Perm.refl (x ∷ ts)), ap length same)
pick-perm (suc n) (x ∷ ts) t rest h = elim (Option-cases (pick n ts)) [
  | inl e ↦ absurd (ground arith)
  | inr ((y, others), e) ↦
      let (perm, size) = pick-perm n ts y others e in
      let same : y ∷ x ∷ others ≡ t ∷ rest = ground arith in
      (
        subst (λ l. Perm (x ∷ ts) l) same (Perm.trans (Perm.cons x perm) (Perm.swap y x others)),
        ap suc size ∙ ap length same,
      )
]

-- what a step made is, as equations
pub send_next :
    (t : Task) (p q : Pool)
    → send t p ≡ next q
    → (length p.queue < p.queue_cap) × (q ≡ record p { queue = p.queue ++ (t ∷ []) })
unfolding send
send_next t p q h = ground arith

pub receive_next :
    (p q : Pool)
    → receive p ≡ next q
    → (t : Task) × (rest : List Task) × (p.queue ≡ t ∷ rest)
      × (0 < p.idle)
      × (q ≡ record p { queue = rest; idle = p.idle - 1; running = p.running ++ (t ∷ []) })
unfolding receive
receive_next p q h = go p.queue refl
  where
    go :
        (l : List Task)
        → p.queue ≡ l
        → (t : Task) × (rest : List Task) × (p.queue ≡ t ∷ rest)
          × (0 < p.idle)
          × (q ≡ record p { queue = rest; idle = p.idle - 1; running = p.running ++ (t ∷ []) })
    go [] e = absurd (ground arith)
    go (t ∷ rest) e = (t, rest, e, ground arith, ground arith)

pub return_handler_next :
    (n : ℕ) (ok : Bool) (p q : Pool)
    → return_handler n ok p ≡ next q
    → (t : Task) × (rest : List Task) × (pick n p.running ≡ some (t, rest))
      × (q ≡ record p { running = rest; done = (t, ok) ∷ p.done; idle = p.idle + 1 })
unfolding return_handler
return_handler_next n ok p q h = elim (Option-cases (pick n p.running)) [
  | inl e ↦ absurd (ground arith)
  | inr ((t, rest), e) ↦ (t, rest, e, ground arith)
]

pub return_worker_next :
    (p q : Pool)
    → return_worker p ≡ next q
    → (0 < p.idle)
      × ((p.cancelled ≡ true) ⊎ ((p.closed ≡ true) × (p.queue ≡ [])))
      × (q ≡ record p { idle = p.idle - 1; gone = p.gone + 1 })
unfolding return_worker
return_worker_next p q h = go p.queue refl
  where
    go :
        (l : List Task)
        → p.queue ≡ l
        → (0 < p.idle)
          × ((p.cancelled ≡ true) ⊎ ((p.closed ≡ true) × (p.queue ≡ [])))
          × (q ≡ record p { idle = p.idle - 1; gone = p.gone + 1 })
    go [] e = ground arith
    go (t ∷ rest) e = ground arith
