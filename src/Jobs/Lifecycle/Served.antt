-- ===== src/Jobs/Lifecycle/Served.antt =====
-- A job whose tasks all get their two statements.
use mailclear.Base.{
  ℕ, zero, suc, ◌≤◌, ◌<◌, ◌≡◌, subst, sym, inl, inr, true, false, Bool, ◌||◌, ◌&&◌, ◌==◌, List, [],
  ◌∷◌, none, length, All, arith, Bool-cases,
}
use mailclear.Text.{Text}
use mailclear.Jobs.Repo.{Job}
use mailclear.Jobs.Handler.{Validated, first_error}
use mailclear.Jobs.Results.{Item, Emails}
use mailclear.Jobs.Lifecycle.{
  World, Event, insert, count, look, write, cancelled_at, forced_at, swept_at, step, run, submitted,
}
use mailclear.Jobs.Lifecycle.Progress.{left}
use mailclear.Jobs.Lifecycle.Fine.{IsFine}
use mailclear.Jobs.Lifecycle.Ranks.{rank_at, queued-rank_at, beyond-rank_at, left-counted}
use mailclear.Jobs.Lifecycle.Moved.{insert-Moves, count-Moves, step-rises}

unfoldable is_insert : ℕ → Event → Bool
is_insert i (insert j _) = i == j
is_insert i _ = false

unfoldable is_count : ℕ → Event → Bool
is_count i (count j _) = i == j
is_count i _ = false

unfoldable counted_in : ℕ → List Event → Bool
unfolding is_count
counted_in i [] = false
counted_in i (e ∷ es) = is_count i e || counted_in i es

-- the first statement of task `i`, and later its second one
unfoldable served_in : ℕ → List Event → Bool
unfolding is_insert counted_in
served_in i [] = false
served_in i (e ∷ es) = (is_insert i e && counted_in i es) || served_in i es

-- both statements of each of the first `n` tasks
unfoldable pub all_served : ℕ → List Event → Bool
unfolding served_in
all_served zero es = true
all_served (suc n) es = served_in n es && all_served n es

all_served-served_in :
    (n i : ℕ) (es : List Event) → all_served n es ≡ true → i < n → served_in i es ≡ true
unfolding all_served
all_served-served_in zero i es h lt = absurd (omega (arith, lt))
all_served-served_in (suc n) i es h lt = elim (Bool-cases (i == n)) [
  | inl e ↦
      let same : i ≡ n = ground arith in
      subst (λ k. served_in k es ≡ true) (sym same) (ground arith)
  | inr ne ↦ all_served-served_in n i es (ground arith) (ground arith)
]

module _ (fold : Text → Text) (choose : List Item → List Item) (id : Text) where
  step-inserts :
      (total : ℕ) (e : Event) (w : World) (i : ℕ)
      → IsFine e
      → is_insert i e ≡ true
      → 1 ≤ rank_at i w.pieces
      → 2 ≤ rank_at i (step fold choose id total e w).pieces
  unfolding is_insert
  step-inserts total (insert j db) w i fine h le =
      let same : i ≡ j = ground arith in
      subst (λ n. 2 ≤ rank_at n (step fold choose id total (insert j db) w).pieces) (sym same)
        ((insert-Moves fold choose id total j db w fine).reaches
          (subst (λ n. 1 ≤ rank_at n w.pieces) same le))
  step-inserts total (count j db) w i fine h le = absurd (ground arith)
  step-inserts total (look t) w i fine h le = absurd (ground arith)
  step-inserts total (write now) w i fine h le = absurd (ground arith)
  step-inserts total (cancelled_at now) w i fine h le = absurd fine
  step-inserts total (forced_at now reason) w i fine h le = absurd fine
  step-inserts total (swept_at now after) w i fine h le = absurd fine

  step-counts :
      (total : ℕ) (e : Event) (w : World) (i : ℕ)
      → IsFine e
      → is_count i e ≡ true
      → 2 ≤ rank_at i w.pieces
      → 3 ≤ rank_at i (step fold choose id total e w).pieces
  unfolding is_count
  step-counts total (insert j db) w i fine h le = absurd (ground arith)
  step-counts total (count j db) w i fine h le =
      let same : i ≡ j = ground arith in
      subst (λ n. 3 ≤ rank_at n (step fold choose id total (count j db) w).pieces) (sym same)
        ((count-Moves fold choose id total j db w fine).reaches
          (subst (λ n. 2 ≤ rank_at n w.pieces) same le))
  step-counts total (look t) w i fine h le = absurd (ground arith)
  step-counts total (write now) w i fine h le = absurd (ground arith)
  step-counts total (cancelled_at now) w i fine h le = absurd fine
  step-counts total (forced_at now reason) w i fine h le = absurd fine
  step-counts total (swept_at now after) w i fine h le = absurd fine

  run-rises :
      (total : ℕ) (es : List Event) (w : World) (k : ℕ)
      → All IsFine es
      → rank_at k w.pieces ≤ rank_at k (run fold choose id total es w).pieces
  unfolding run
  run-rises total [] w k fine = omega arith
  run-rises total (e ∷ es) w k fine = omega (
    arith,
    step-rises fold choose id total e w k fine.0,
    run-rises total es (step fold choose id total e w) k fine.1,
  )

  run-counts :
      (total : ℕ) (es : List Event) (w : World) (i : ℕ)
      → All IsFine es
      → counted_in i es ≡ true
      → 2 ≤ rank_at i w.pieces
      → 3 ≤ rank_at i (run fold choose id total es w).pieces
  unfolding run counted_in
  run-counts total [] w i fine h le = absurd (ground arith)
  run-counts total (e ∷ es) w i fine h le =
      let next = step fold choose id total e w in
      elim (Bool-cases (is_count i e)) [
        | inl now ↦
            omega (arith, step-counts total e w i fine.0 now le, run-rises total es next i fine.1)
        | inr later ↦
            run-counts total es next i fine.1 (ground arith)
              (omega (arith, le, step-rises fold choose id total e w i fine.0))
      ]

  run-serves :
      (total : ℕ) (es : List Event) (w : World) (i : ℕ)
      → All IsFine es
      → served_in i es ≡ true
      → 1 ≤ rank_at i w.pieces
      → 3 ≤ rank_at i (run fold choose id total es w).pieces
  unfolding run served_in
  run-serves total [] w i fine h le = absurd (ground arith)
  run-serves total (e ∷ es) w i fine h le =
      let next = step fold choose id total e w in
      elim (Bool-cases (is_insert i e && counted_in i es)) [
        | inl now ↦
            run-counts total es next i fine.1 (ground arith)
              (step-inserts total e w i fine.0 (ground arith) le)
        | inr later ↦
            run-serves total es next i fine.1 (ground arith)
              (omega (arith, le, step-rises fold choose id total e w i fine.0))
      ]

  pub run-serves_tasks :
      (total : ℕ) (j : Job) (t : Emails) (tasks : List (List Validated)) (es : List Event)
      → All (λ vs. first_error vs ≡ none) tasks
      → All IsFine es
      → all_served (length tasks) es ≡ true
      → left (run fold choose id total es (submitted total j t tasks)).pieces ≡ 0
  unfolding submitted
  run-serves_tasks total j t tasks es valid fine served = left-counted _ (λ i.
      elim (beyond-rank_at tasks i) [
        | inl lt ↦
            run-serves total es (submitted total j t tasks) i fine
              (all_served-served_in (length tasks) i es served lt) (queued-rank_at tasks i valid)
        | inr out ↦ omega (arith, out, run-rises total es (submitted total j t tasks) i fine)
      ])
