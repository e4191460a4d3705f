-- ===== src/Jobs/Lifecycle/Counters.antt =====
-- The counters by status of a job, over its tasks, its waiter and its operators. `f` is one of the
-- counters.
use mailclear.Base.{
  ℕ, ◌+◌, ◌≡◌, refl, sym, ap, List, [], ◌∷◌, Option, none, some, get_elem?, set, arith,
}
use mailclear.Text.{Text, lit}
use mailclear.Validation.Types.{Email}
use mailclear.Validation.Pipeline.{CtxError}
use mailclear.Jobs.Repo.{
  ProgressDelta, Job, update_status, increment_progress, add_counts, set_last_error, cancel,
  force_fail, mark_stale_as_failed,
}
use mailclear.Jobs.Handler.{Validated, first_error, delta_of, Database, mark_job_failed}
use mailclear.Jobs.Results.{Item, Emails}
use mailclear.Jobs.Submit.{Tick}
use mailclear.Jobs.Lifecycle.{
  Piece, queued, stored, counted, lost, World, emails_of, on_piece, insert_results,
  insert_validated, insert_piece, count_results, count_piece, look_step, write_step,
}
use mailclear.Jobs.Lifecycle.Progress.{weigh, weigh-set}

-- a counter: its sum over two deltas is that of the sum, and nothing counts for no emails
pub record IsCounter (f : ProgressDelta → ℕ) : Type 0 where
  pub add : (c d : ProgressDelta) → f (add_counts c d) ≡ f c + f d
  pub nothing : f (delta_of []) ≡ 0

mark_job_failed-counts :
    (db : Database) (phase cause : Text) (j : Job)
    → (mark_job_failed db.now db.reached phase cause j).counts ≡ j.counts
unfolding mark_job_failed update_status set_last_error
mark_job_failed-counts db phase cause j = ground arith

module _ (f : ProgressDelta → ℕ) (is_counter : IsCounter f) where
  -- what a task has added
  unfoldable pub credit : Piece → ℕ
  credit (queued _) = 0
  credit (stored _) = 0
  credit (counted es) = f (delta_of es)
  credit (lost _) = 0

  -- the counter moves with what the tasks have added
  unfoldable pub Credits : World → World → Type 0
  Credits w w' = f w'.job.counts + weigh credit w.pieces ≡ f w.job.counts + weigh credit w'.pieces

  set-Credits :
      (w : World) (i : ℕ) (p q : Piece) (j : Job) (t : Emails)
      → get_elem? w.pieces i ≡ some p
      → f j.counts + credit p ≡ f w.job.counts + credit q
      → Credits w (record { job = j; table = t; pieces = set w.pieces i q; waiter = w.waiter })
  unfolding Credits
  set-Credits w i p q j t at moved = omega (arith, weigh-set credit w.pieces i p q at, moved)

  refl-Credits : (w : World) → Credits w w
  unfolding Credits
  refl-Credits w = refl

  module _ (fold : Text → Text) (choose : List Item → List Item) (id : Text) (i : ℕ) (db : Database)
      (w : World) where
    insert_results-Credits :
        (us : List Validated) (err : Option Text) (es : List Email)
        → get_elem? w.pieces i ≡ some (queued us)
        → Credits w (insert_results fold choose id i db err es w)
    unfolding insert_results credit
    insert_results-Credits us (some e) es at =
        set-Credits w i (queued us) _ _ w.table at
          (ap (λ c. f c + 0) (mark_job_failed-counts db (lit "bulk_insert") e w.job))
    insert_results-Credits us none es at = set-Credits w i (queued us) _ w.job _ at refl

    insert_validated-Credits :
        (us : List Validated) (err : Option CtxError) (es : List Email)
        → get_elem? w.pieces i ≡ some (queued us)
        → Credits w (insert_validated fold choose id i db err es w)
    unfolding insert_validated credit
    insert_validated-Credits us (some e) es at = set-Credits w i (queued us) _ w.job w.table at refl
    insert_validated-Credits us none es at = insert_results-Credits us db.insert_err es at

    pub insert_piece-Credits :
        (p : Piece)
        → get_elem? w.pieces i ≡ some p
        → Credits w (insert_piece fold choose id i db p w)
    unfolding insert_piece credit
    insert_piece-Credits (queued []) at =
        set-Credits w i (queued []) (counted []) w.job w.table at
          (ap (λ n. f w.job.counts + n) (sym is_counter.nothing))
    insert_piece-Credits (queued (v ∷ vs)) at =
        insert_validated-Credits (v ∷ vs) (first_error (v ∷ vs)) (emails_of (v ∷ vs)) at
    insert_piece-Credits (stored es) at = refl-Credits w
    insert_piece-Credits (counted es) at = refl-Credits w
    insert_piece-Credits (lost n) at = refl-Credits w

    count_results-Credits :
        (err : Option Text) (es : List Email)
        → get_elem? w.pieces i ≡ some (stored es)
        → Credits w (count_results fold choose id i db err es w)
    unfolding count_results credit increment_progress
    count_results-Credits (some e) es at =
        set-Credits w i (stored es) _ _ w.table at
          (ap (λ c. f c + 0) (mark_job_failed-counts db (lit "increment_progress") e w.job))
    count_results-Credits none es at =
        set-Credits w i (stored es) (counted es) _ w.table at
          (omega (arith, is_counter.add w.job.counts (delta_of es)))

    pub count_piece-Credits :
        (p : Piece)
        → get_elem? w.pieces i ≡ some p
        → Credits w (count_piece fold choose id i db p w)
    unfolding count_piece
    count_piece-Credits (queued vs) at = refl-Credits w
    count_piece-Credits (stored es) at = count_results-Credits db.progress_err es at
    count_piece-Credits (counted es) at = refl-Credits w
    count_piece-Credits (lost n) at = refl-Credits w

  pub on_piece-Credits :
      (o : Option Piece) (g : Piece → World → World) (w : World)
      → ((p : Piece) → o ≡ some p → Credits w (g p w))
      → Credits w (on_piece o g w)
  unfolding on_piece
  on_piece-Credits none g w each = refl-Credits w
  on_piece-Credits (some p) g w each = each p refl

  -- a statement that leaves the counters and the tasks
  pub kept-Credits :
      (w w' : World) → (w'.job.counts ≡ w.job.counts) × (w'.pieces ≡ w.pieces) → Credits w w'
  unfolding Credits
  kept-Credits w w' (c, p) = rw c (ap (λ ps. f w.job.counts + weigh credit ps) (sym p))

pub look_step-counts :
    (total : ℕ) (t : Tick) (w : World)
    → ((look_step total t w).job.counts ≡ w.job.counts) × ((look_step total t w).pieces ≡ w.pieces)
unfolding look_step
look_step-counts total t w = ground arith

pub write_step-counts :
    (now : ℕ) (w : World)
    → ((write_step now w).job.counts ≡ w.job.counts) × ((write_step now w).pieces ≡ w.pieces)
unfolding write_step update_status
write_step-counts now w = ground arith

pub operator-counts :
    (now after : ℕ) (reason : Text) (j : Job)
    → ((cancel now j).counts ≡ j.counts)
      × ((force_fail now reason j).1.counts ≡ j.counts)
      × ((mark_stale_as_failed now after j).counts ≡ j.counts)
unfolding cancel force_fail mark_stale_as_failed
operator-counts now after reason j = ground arith
