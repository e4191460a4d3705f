-- ===== src/Jobs/Lifecycle/Rows.antt =====
-- The rows of the tasks of a job.
pub mod Steps
use mailclear.Base.{
  ℕ, zero, suc, ◌+◌, ◌≤◌, ◌≡◌, refl, ap, sym, ◌∙◌, subst, ◌||◌, true, List, [], ◌∷◌, Option, none,
  some, map, length, get_elem?, set, All, arith,
}
use mailclear.Text.{Text}
use mailclear.Validation.Types.{Email}
use mailclear.Validation.Pipeline.{CtxError}
use mailclear.Jobs.Repo.{Job}
use mailclear.Jobs.Handler.{Validated, first_error, record_of, Database}
use mailclear.Jobs.Results.{Item, Row, Emails, key, same_key, has_key, bulk_insert}
use mailclear.Jobs.Results.Keys.{same_key_refl}
use mailclear.Jobs.Results.Batches.{named, IsDistinctOn, bulk_insert_adds}
use mailclear.Jobs.Lifecycle.{
  Piece, queued, stored, counted, lost, World, Event, insert, count, look, write, cancelled_at,
  forced_at, swept_at, emails_of, items_of, on_piece, insert_results, insert_validated,
  insert_piece, count_results, count_piece, look_step, write_step, step, run, submitted,
}

module _ (fold : Text → Text) (id : Text) where
  -- the key of an email of the job is among the rows
  abbrev pub HasRow : List Row → Email → Type 0
  HasRow rows e = has_key fold (key fold (record { job_id = id; result = record_of e })) rows ≡ true

  -- the state of a task is one of the emails that it has, and its rows are stored where it says so
  abbrev pub Fits : List Row → List Validated → Piece → Type 0
  Fits rows vs (queued us) = us ≡ vs
  Fits rows vs (stored es) = (es ≡ emails_of vs) × All (HasRow rows) es
  Fits rows vs (counted es) = (es ≡ emails_of vs) × All (HasRow rows) es
  Fits rows vs (lost n) = n ≡ length vs

  abbrev pub AllFit : List Row → List (List Validated) → List Piece → Type 0
  AllFit rows [] [] = Unit
  AllFit rows (vs ∷ tasks) (p ∷ ps) = Fits rows vs p × AllFit rows tasks ps
  AllFit rows _ _ = ⊥

  -- a table with more keys
  abbrev pub Grows : List Row → List Row → Type 0
  Grows rows rows' = (k : Text × Text) → has_key fold k rows ≡ true → has_key fold k rows' ≡ true

  HasRow-Grows :
      (rows rows' : List Row) (es : List Email)
      → Grows rows rows'
      → All (HasRow rows) es
      → All (HasRow rows') es
  HasRow-Grows rows rows' [] more h = tt
  HasRow-Grows rows rows' (e ∷ es) more h = (more _ h.0, HasRow-Grows rows rows' es more h.1)

  Fits-Grows :
      (rows rows' : List Row) (vs : List Validated) (p : Piece)
      → Grows rows rows'
      → Fits rows vs p
      → Fits rows' vs p
  Fits-Grows rows rows' vs (queued us) more h = h
  Fits-Grows rows rows' vs (stored es) more h = (h.0, HasRow-Grows rows rows' es more h.1)
  Fits-Grows rows rows' vs (counted es) more h = (h.0, HasRow-Grows rows rows' es more h.1)
  Fits-Grows rows rows' vs (lost n) more h = h

  pub AllFit-Grows :
      (rows rows' : List Row) (tasks : List (List Validated)) (ps : List Piece)
      → Grows rows rows'
      → AllFit rows tasks ps
      → AllFit rows' tasks ps
  AllFit-Grows rows rows' [] [] more h = tt
  AllFit-Grows rows rows' (vs ∷ tasks) (p ∷ ps) more h =
      (Fits-Grows rows rows' vs p more h.0, AllFit-Grows rows rows' tasks ps more h.1)
  AllFit-Grows rows rows' [] (p ∷ ps) more h = h
  AllFit-Grows rows rows' (vs ∷ tasks) [] more h = h

  some-eq : {x p : Piece} → some x ≡ some p → x ≡ p
  some-eq e = cc

  -- a piece that takes the place of another one of the same task
  pub AllFit-set :
      (rows : List Row) (tasks : List (List Validated)) (ps : List Piece) (i : ℕ) (p q : Piece)
      → get_elem? ps i ≡ some p
      → ((vs : List Validated) → Fits rows vs p → Fits rows vs q)
      → AllFit rows tasks ps
      → AllFit rows tasks (set ps i q)
  AllFit-set rows [] [] i p q at next h = tt
  AllFit-set rows [] (x ∷ ps) i p q at next h = absurd h
  AllFit-set rows (vs ∷ tasks) [] i p q at next h = h
  AllFit-set rows (vs ∷ tasks) (x ∷ ps) zero p q at next h =
      (next vs (subst (Fits rows vs) (some-eq at) h.0), h.1)
  AllFit-set rows (vs ∷ tasks) (x ∷ ps) (suc i) p q at next h =
      (h.0, AllFit-set rows tasks ps i p q at next h.1)

  -- the keys of all items give each email its row
  named-HasRow :
      (es : List Email) (rows : List Row)
      → ((k : Text × Text) → named fold k (items_of id es) ≡ true → has_key fold k rows ≡ true)
      → All (HasRow rows) es
  unfolding named items_of
  named-HasRow [] rows all = tt
  named-HasRow (e ∷ es) rows all = (
    all _ (
        ground
          (arith, same_key_refl fold (key fold (record { job_id = id; result = record_of e })))),
    named-HasRow es rows (λ k h. all k (ground arith)),
  )

  pub insert_results-Grows :
      (choose : List Item → List Item) (i : ℕ) (db : Database) (err : Option Text) (es : List Email)
      (w : World)
      → IsDistinctOn fold (items_of id es) (choose (items_of id es))
      → Grows w.table.rows (insert_results fold choose id i db err es w).table.rows
  unfolding insert_results
  insert_results-Grows choose i db (some e) es w d k h = h
  insert_results-Grows choose i db none es w d k h =
      ground
        (arith, (bulk_insert_adds fold (items_of id es) (choose (items_of id es)) w.table d).3 k)

  pub insert_results-stored :
      (choose : List Item → List Item) (i : ℕ) (db : Database) (es : List Email) (w : World)
      → IsDistinctOn fold (items_of id es) (choose (items_of id es))
      → All (HasRow (insert_results fold choose id i db none es w).table.rows) es
  unfolding insert_results
  insert_results-stored choose i db es w d = named-HasRow es _ (λ k h.
      ground
        (arith, (bulk_insert_adds fold (items_of id es) (choose (items_of id es)) w.table d).3 k))
