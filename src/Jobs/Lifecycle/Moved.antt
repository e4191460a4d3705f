-- ===== src/Jobs/Lifecycle/Moved.antt =====
-- The ranks of the tasks over one statement.
use mailclear.Base.{
  ℕ, ◌≤◌, ◌≡◌, refl, subst, sym, List, [], ◌∷◌, Option, none, some, get_elem?, length, arith,
}
use mailclear.Text.{Text}
use mailclear.Validation.Pipeline.{CtxError}
use mailclear.Jobs.Handler.{Validated, first_error, Database}
use mailclear.Jobs.Results.{Item}
use mailclear.Jobs.Lifecycle.{
  Piece, queued, stored, counted, lost, World, Event, insert, count, look, write, cancelled_at,
  forced_at, swept_at, emails_of, insert_results, insert_validated, insert_piece, count_results,
  count_piece, step,
}
use mailclear.Jobs.Lifecycle.Fine.{IsFine}
use mailclear.Jobs.Lifecycle.Ranks.{
  rank, rank_of, rank_at, Moves, set-Moves, refl-Moves, on_piece-Moves, look_step-pieces,
  write_step-pieces,
}

module _ (fold : Text → Text) (choose : List Item → List Item) (id : Text) where
  module _ (i : ℕ) (db : Database) (w : World) where
    insert_results-Moves :
        (vs : List Validated) (err : Option Text)
        → get_elem? w.pieces i ≡ some (queued vs)
        → first_error vs ≡ none
        → err ≡ none
        → Moves i 1 2 w.pieces (insert_results fold choose id i db err (emails_of vs) w).pieces
    unfolding insert_results rank
    insert_results-Moves vs (some e) at valid ok = absurd (ground arith)
    insert_results-Moves vs none at valid ok =
        set-Moves i w.pieces (queued vs) (stored (emails_of vs)) at (ground (arith, valid))
          (λ h. omega arith)

    insert_validated-Moves :
        (vs : List Validated) (err : Option CtxError)
        → get_elem? w.pieces i ≡ some (queued vs)
        → first_error vs ≡ err
        → db.insert_err ≡ none
        → Moves i 1 2 w.pieces (insert_validated fold choose id i db err (emails_of vs) w).pieces
    unfolding insert_validated rank
    insert_validated-Moves vs (some e) at valid ok =
        set-Moves i w.pieces (queued vs) (lost (length (emails_of vs))) at (ground (arith, valid))
          (λ h. ground (arith, valid))
    insert_validated-Moves vs none at valid ok = insert_results-Moves vs db.insert_err at valid ok

    insert_piece-Moves :
        (p : Piece)
        → get_elem? w.pieces i ≡ some p
        → db.insert_err ≡ none
        → Moves i 1 2 w.pieces (insert_piece fold choose id i db p w).pieces
    unfolding insert_piece rank
    insert_piece-Moves (queued []) at ok =
        set-Moves i w.pieces (queued []) (counted []) at (ground arith) (λ h. omega arith)
    insert_piece-Moves (queued (v ∷ vs)) at ok =
        insert_validated-Moves (v ∷ vs) (first_error (v ∷ vs)) at refl ok
    insert_piece-Moves (stored es) at ok = refl-Moves i w.pieces (stored es) at (λ h. omega arith)
    insert_piece-Moves (counted es) at ok = refl-Moves i w.pieces (counted es) at (λ h. omega arith)
    insert_piece-Moves (lost n) at ok = refl-Moves i w.pieces (lost n) at (λ h. omega (arith, h))

    count_piece-Moves :
        (p : Piece)
        → get_elem? w.pieces i ≡ some p
        → db.progress_err ≡ none
        → Moves i 2 3 w.pieces (count_piece fold choose id i db p w).pieces
    unfolding count_piece count_results rank rank_of
    count_piece-Moves (queued vs) at ok =
        refl-Moves i w.pieces (queued vs) at (λ h. ground (arith, h))
    count_piece-Moves (stored es) at ok =
        subst (λ o. Moves i 2 3 w.pieces (count_results fold choose id i db o es w).pieces) (sym ok)
          (set-Moves i w.pieces (stored es) (counted es) at (omega arith) (λ h. omega arith))
    count_piece-Moves (counted es) at ok = refl-Moves i w.pieces (counted es) at (λ h. omega arith)
    count_piece-Moves (lost n) at ok = refl-Moves i w.pieces (lost n) at (λ h. omega (arith, h))

  pub insert-Moves :
      (total i : ℕ) (db : Database) (w : World)
      → db.insert_err ≡ none
      → Moves i 1 2 w.pieces (step fold choose id total (insert i db) w).pieces
  unfolding step
  insert-Moves total i db w ok =
      on_piece-Moves i (get_elem? w.pieces i) (insert_piece fold choose id i db) w refl
        (omega arith) (λ p at. insert_piece-Moves i db w p at ok)

  pub count-Moves :
      (total i : ℕ) (db : Database) (w : World)
      → db.progress_err ≡ none
      → Moves i 2 3 w.pieces (step fold choose id total (count i db) w).pieces
  unfolding step
  count-Moves total i db w ok =
      on_piece-Moves i (get_elem? w.pieces i) (count_piece fold choose id i db) w refl (omega arith)
        (λ p at. count_piece-Moves i db w p at ok)

  pub step-rises :
      (total : ℕ) (e : Event) (w : World) (k : ℕ)
      → IsFine e
      → rank_at k w.pieces ≤ rank_at k (step fold choose id total e w).pieces
  unfolding step
  step-rises total (insert i db) w k fine = (insert-Moves total i db w fine).rises k
  step-rises total (count i db) w k fine = (count-Moves total i db w fine).rises k
  step-rises total (look t) w k fine =
      subst (λ ps. rank_at k w.pieces ≤ rank_at k ps) (sym (look_step-pieces total t w))
        (omega arith)
  step-rises total (write now) w k fine =
      subst (λ ps. rank_at k w.pieces ≤ rank_at k ps) (sym (write_step-pieces now w)) (omega arith)
  step-rises total (cancelled_at now) w k fine = absurd fine
  step-rises total (forced_at now reason) w k fine = absurd fine
  step-rises total (swept_at now after) w k fine = absurd fine
