-- ===== src/Server/JobHandlers.antt =====
-- internal/server/handlers/jobs.go. `parse_id` is `uuid.Parse`; where a statement may fail, its error is
-- an argument. The rows of the table of jobs stand in the order of their creation.
pub mod Cursor
use mailclear.Base.{
  ℕ, zero, suc, List, [], ◌∷◌, ◌++◌, Option, none, some, take, drop, if◌then◌else◌,
}
use mailclear.Base.Int.{ℤ, pos, negsuc}
use mailclear.Text.{Text, lit}
use mailclear.Jobs.Repo.{Job, cancel}
use mailclear.Jobs.Submit.{Submitted}
use mailclear.Jobs.Results.{Row, Emails, list_by_job}
use mailclear.Jobs.Requeue.{Answers, requeue}
use mailclear.Jobs.Export.{Written, export_csv}
use mailclear.Server.Http.{Reply, refuse, answer, parse_int_default, int32}

unfoldable pub reverse : List Job → List Job
reverse [] = []
reverse (j ∷ js) = reverse js ++ (j ∷ [])

-- `JobsRepo.List`: PostgreSQL refuses a negative `LIMIT` or `OFFSET`
unfoldable pub list_jobs : (limit offset : ℤ) → List Job → Option (List Job)
unfolding reverse
list_jobs (negsuc _) offset jobs = none
list_jobs (pos limit) (negsuc _) jobs = none
list_jobs (pos limit) (pos offset) jobs = some (take limit (drop offset (reverse jobs)))

pub record JobsPage : Type 0 where
  pub jobs : List Job
  pub limit : ℕ
  pub offset : ℕ

-- `List`
unfoldable pub list : (db_err : Option Text) → (limit offset : Text) → List Job → Reply JobsPage
unfolding parse_int_default int32 list_jobs
list (some _) limit offset jobs = refuse 500 (lit "DB_ERROR")
list none limit offset jobs =
    let l = parse_int_default limit 50 200 in
    let o = parse_int_default offset 0 0 in
    elim (list_jobs (int32 l) (int32 o) jobs) [
      | none ↦ refuse 500 (lit "DB_ERROR")
      | some page ↦ answer 200 (record { jobs = page; limit = l; offset = o })
    ]

pub record ResultsPage : Type 0 where
  pub results : List Row
  pub limit : ℕ
  pub next_cursor : ℕ

-- the id of the last row, or 0
unfoldable pub last_id : List Row → ℕ
last_id [] = 0
last_id (r ∷ []) = r.id
last_id (_ ∷ s ∷ rs) = last_id (s ∷ rs)

module _ (parse_id : Text → Option Text) where
  -- `Get`, where `found` is what the statement returns for an id
  unfoldable pub get : (found : Text → Option Job) → Text → Reply Job
  get found id = elim (parse_id id) [
    | none ↦ refuse 400 (lit "BAD_ID")
    | some job ↦ elim (found job) [ none ↦ refuse 404 (lit "NOT_FOUND") | some j ↦ answer 200 j ]
  ]

  -- `Cancel`, on the row with the id if there is one
  unfoldable pub cancel_handler :
      (db_err : Option Text) → (now : ℕ) → Text → Option Job → Reply Text × Option Job
  unfolding cancel
  cancel_handler db_err now id row = elim (parse_id id) [
    | none ↦ (refuse 400 (lit "BAD_ID"), row)
    | some _ ↦ elim db_err [
      | some _ ↦ (refuse 500 (lit "DB_ERROR"), row)
      | none ↦
          (answer 200 (lit "cancelled"), elim row [ none ↦ none | some j ↦ some (cancel now j) ])
    ]
  ]

  -- `Requeue`, with what was submitted; the reply shows the total of the new job
  unfoldable pub requeue_handler :
      (now size : ℕ) → Answers → Text → Emails → Reply ℕ × Option Submitted
  unfolding requeue
  requeue_handler now size a id t = elim (parse_id id) [
    | none ↦ (refuse 400 (lit "BAD_ID"), none)
    | some job ↦
        let r = requeue now size a job t in
        (
          elim r.err [
            | some _ ↦ refuse 422 (lit "REQUEUE_ERROR")
            | none ↦ elim r.made [
              | none ↦ refuse 422 (lit "REQUEUE_ERROR")
              | some s ↦ answer 202 s.job.total
            ]
          ],
          r.made,
        )
  ]

  -- `Results`
  unfoldable pub results :
      (db_err : Option Text) → (id status after limit : Text) → Emails → Reply ResultsPage
  unfolding parse_int_default list_by_job last_id
  results db_err id status after limit t = elim (parse_id id) [
    | none ↦ refuse 400 (lit "BAD_ID")
    | some job ↦ elim db_err [
      | some _ ↦ refuse 500 (lit "DB_ERROR")
      | none ↦
          let l = parse_int_default limit 100 1000 in
          elim (list_by_job job status (parse_int_default after 0 0) l t) [
            | none ↦ refuse 500 (lit "DB_ERROR")
            | some rows ↦
                answer 200 (record { results = rows; limit = l; next_cursor = last_id rows })
          ]
    ]
  ]

  -- `ExportCSV`: the status is sent before the rows, and an error follows them as a line
  unfoldable pub export_handler :
      (ended refused wrote broken : ℕ → Option Text) → Text → Emails → Reply Written
  unfolding export_csv
  export_handler ended refused wrote broken id t = elim (parse_id id) [
    | none ↦ refuse 400 (lit "BAD_ID")
    | some job ↦ answer 200 (export_csv ended refused wrote broken job 1000 t)
  ]
