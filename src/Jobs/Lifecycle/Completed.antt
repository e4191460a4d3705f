-- ===== src/Jobs/Lifecycle/Completed.antt =====
-- A job that is completed.
use mailclear.Base.{◌≤◌, ◌≡◌, ◌≢◌, refl, map, subst, ap, List, [], ◌∷◌, length, All, arith}
use mailclear.Text.{Text}
use mailclear.Jobs.Repo.{Job, completed}
use mailclear.Jobs.Handler.{Validated}
use mailclear.Jobs.Results.{Item, Row, Emails}
use mailclear.Jobs.Results.Batches.{IsDistinctOn}
use mailclear.Jobs.Lifecycle.{
  Piece, queued, stored, counted, lost, Event, emails_of, run, submitted,
}
use mailclear.Jobs.Lifecycle.Progress.{size, weigh, left}
use mailclear.Jobs.Lifecycle.Counted.{total_of, submitted_run-IsCounted}
use mailclear.Jobs.Lifecycle.Rows.{HasRow, Fits, AllFit}
use mailclear.Jobs.Lifecycle.Rows.Steps.{run-Tracks}

module _ (fold : Text → Text) (id : Text) where
  pub queued-AllFit :
      (rows : List Row) (tasks : List (List Validated))
      → AllFit fold id rows tasks (map queued tasks)
  queued-AllFit rows [] = tt
  queued-AllFit rows (vs ∷ tasks) = (refl, queued-AllFit rows tasks)

  -- every email of every task has its row
  abbrev pub AllStored : List Row → List (List Validated) → Type 0
  AllStored rows tasks = All (λ vs. All (HasRow fold id rows) (emails_of vs)) tasks

  Fits-stored :
      (rows : List Row) (vs : List Validated) (p : Piece)
      → size p ≡ 0
      → Fits fold id rows vs p
      → All (HasRow fold id rows) (emails_of vs)
  unfolding size emails_of
  Fits-stored rows [] p none_left fit = tt
  Fits-stored rows (v ∷ vs) (queued us) none_left fit =
      absurd (omega (arith, none_left, ap length fit))
  Fits-stored rows (v ∷ vs) (stored es) none_left fit =
      subst (All (HasRow fold id rows)) fit.0 fit.1
  Fits-stored rows (v ∷ vs) (counted es) none_left fit =
      subst (All (HasRow fold id rows)) fit.0 fit.1
  Fits-stored rows (v ∷ vs) (lost n) none_left fit = absurd (omega (arith, none_left, fit))

  AllFit-stored :
      (rows : List Row) (tasks : List (List Validated)) (ps : List Piece)
      → left ps ≡ 0
      → AllFit fold id rows tasks ps
      → AllStored rows tasks
  unfolding weigh
  AllFit-stored rows [] [] none_left h = tt
  AllFit-stored rows [] (p ∷ ps) none_left h = absurd h
  AllFit-stored rows (vs ∷ tasks) [] none_left h = absurd h
  AllFit-stored rows (vs ∷ tasks) (p ∷ ps) none_left h = (
    Fits-stored rows vs p (omega (arith, none_left)) h.0,
    AllFit-stored rows tasks ps (omega (arith, none_left)) h.1,
  )

  pub submitted_run-AllFit :
      (choose : List Item → List Item) (j : Job) (t : Emails) (tasks : List (List Validated))
      (es : List Event)
      → ((items : List Item) → IsDistinctOn fold items (choose items))
      → let w = run fold choose id (total_of tasks) es (submitted (total_of tasks) j t tasks) in
        AllFit fold id w.table.rows tasks w.pieces
  unfolding submitted
  submitted_run-AllFit choose j t tasks es distinct =
      run-Tracks fold choose id distinct tasks (total_of tasks) es
        (submitted (total_of tasks) j t tasks) (queued-AllFit t.rows tasks)

  -- Whatever the tasks, the waiter and the operators write, in any order and with any errors of the
  -- database, a new job whose total is the number of the emails of its tasks never has more processed
  -- emails than its total, which is what a constraint of the table of jobs asks.
  pub run-processed_le :
      (choose : List Item → List Item) (j : Job) (t : Emails) (tasks : List (List Validated))
      (es : List Event)
      → j.counts.processed ≡ 0
      → j.total ≡ total_of tasks
      → j.status ≢ completed
      → let w = run fold choose id (total_of tasks) es (submitted (total_of tasks) j t tasks) in
        w.job.counts.processed ≤ w.job.total
  run-processed_le choose j t tasks es new whole active =
      let c = submitted_run-IsCounted fold choose id j t tasks es new whole active in
      omega (arith, c.counted, c.fixed)

  -- Whatever the tasks, the waiter and the operators write, in any order and with any errors of the
  -- database: if a new job, whose total is the
  -- number of the emails of its tasks, is completed in the end, all emails of its tasks are processed, and each of
  -- them has a row of the job with its normalized address.
  pub run-completed :
      (choose : List Item → List Item) (j : Job) (t : Emails) (tasks : List (List Validated))
      (es : List Event)
      → ((items : List Item) → IsDistinctOn fold items (choose items))
      → j.counts.processed ≡ 0
      → j.total ≡ total_of tasks
      → j.status ≢ completed
      → (run fold choose id (total_of tasks) es (submitted (total_of tasks) j t tasks)).job.status
        ≡ completed
      → let w = run fold choose id (total_of tasks) es (submitted (total_of tasks) j t tasks) in
        (w.job.counts.processed ≡ total_of tasks) × AllStored w.table.rows tasks
  run-completed choose j t tasks es distinct new whole active over =
      let c = submitted_run-IsCounted fold choose id j t tasks es new whole active in
      (
        omega (arith, c.counted, c.finished over),
        AllFit-stored _ tasks _ (c.finished over)
            (submitted_run-AllFit choose j t tasks es distinct),
      )
