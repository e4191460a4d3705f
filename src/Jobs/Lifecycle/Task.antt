-- ===== src/Jobs/Lifecycle/Task.antt =====
-- The two statements of a task, one right after the other.
use mailclear.Base.{
  ℕ, zero, suc, ◌+◌, ◌≡◌, refl, ap, ◌∙◌, true, List, [], ◌∷◌, Option, none, some, length, get_elem?,
  set, arith,
}
use mailclear.Text.{Text}
use mailclear.Jobs.Repo.{increment_progress, add_counts}
use mailclear.Jobs.Handler.{Validated, first_error, Database, persist}
use mailclear.Jobs.Results.{Item, has_key, bulk_insert}
use mailclear.Jobs.Results.Batches.{named, insert_rows_known}
use mailclear.Jobs.Lifecycle.{
  Piece, queued, stored, World, insert, count, emails_of, items_of, on_piece, insert_results,
  insert_validated, insert_piece, count_results, count_piece, step, run,
}
use mailclear.Jobs.Lifecycle.Progress.{delta_of-processed, length-emails_of}

get_elem?-set :
    (ps : List Piece) (i : ℕ) (p q : Piece)
    → get_elem? ps i ≡ some p
    → get_elem? (set ps i q) i ≡ some q
get_elem?-set [] i p q at = absurd (ground arith)
get_elem?-set (x ∷ ps) zero p q at = refl
get_elem?-set (x ∷ ps) (suc i) p q at = get_elem?-set ps i p q at

module _ (fold : Text → Text) (choose : List Item → List Item) (id : Text) (i : ℕ)
    (db : Database) where
  -- both statements of the task at `i`
  abbrev pub both : (total : ℕ) → World → World
  both total w = run fold choose id total (insert i db ∷ count i db ∷ []) w

  both-pieces :
      (total : ℕ) (w w' : World) (p q : Piece)
      → get_elem? w.pieces i ≡ some p
      → insert_piece fold choose id i db p w ≡ w'
      → get_elem? w'.pieces i ≡ some q
      → both total w ≡ count_piece fold choose id i db q w'
  unfolding run step on_piece
  both-pieces total w w' p q at first at' = rw (at, on_piece) (rw (first) (rw (at', on_piece) refl))

  insert-checked :
      (w : World) (v : Validated) (vs : List Validated) (err : Option Text)
      → first_error (v ∷ vs) ≡ none
      → db.insert_err ≡ err
      → insert_piece fold choose id i db (queued (v ∷ vs)) w
        ≡ insert_results fold choose id i db err (emails_of (v ∷ vs)) w
  unfolding insert_piece insert_validated
  insert-checked w v vs err fine e = rw (fine, insert_validated) (rw e)

  -- Let no validation of the emails of a task end with an error, and let neither its insertion nor its
  -- counting fail. If all the keys that are chosen of its results have rows already, the two statements of
  -- the task, one right after the other, add no row, and yet all its emails to the processed ones.
  pub both-known :
      (total : ℕ) (w : World) (v : Validated) (vs : List Validated)
      → get_elem? w.pieces i ≡ some (queued (v ∷ vs))
      → first_error (v ∷ vs) ≡ none
      → db.insert_err ≡ none
      → db.progress_err ≡ none
      → ((k : Text × Text)
          → named fold k (choose (items_of id (emails_of (v ∷ vs)))) ≡ true
          → has_key fold k w.table.rows ≡ true)
      → ((both total w).table.rows ≡ w.table.rows)
        × ((both total w).job.counts.processed ≡ w.job.counts.processed + length (v ∷ vs))
  unfolding persist increment_progress bulk_insert insert_results count_piece count_results
      add_counts emails_of items_of
  both-known total w v vs at fine ok ok' known =
      let es = emails_of (v ∷ vs) in
      let w' = insert_results fold choose id i db none es w in
      let there =
        both-pieces total w w' (queued (v ∷ vs)) (stored es) at (insert-checked w v vs none fine ok)
          (get_elem?-set w.pieces i (queued (v ∷ vs)) (stored es) at) in
      let same = (insert_rows_known fold (choose (items_of id es)) w.table known).1 in
      rw there (
        rw (ok', count_results)
          (
            same,
            ap (λ n. w.job.counts.processed + n)
                (delta_of-processed es ∙ length-emails_of (v ∷ vs)),
          ))
