-- ===== src/Jobs/Manager.antt =====
-- internal/jobs/manager.go, the operations that pass on to the repositories and the pool, and
-- internal/storage/jobs_repo.go, `Create` with its metadata and `Get`. A job is a row with its id, its
-- name, its source and its metadata. `marshal` is `json.Marshal`, and `id` the default of the column.
pub mod Found
use mailclear.Base.{
  ℕ, ◌≡◌, refl, Bool, true, false, List, [], ◌∷◌, ◌++◌, Option, none, some, length, if◌then◌else◌,
}
use mailclear.Text.{Text, lit, text_eq}
use mailclear.Jobs.Repo.{JobStatus, completed, Job, update_status, cancel}
use mailclear.Jobs.Repo
use mailclear.Jobs.Submit.{batch_size}
use mailclear.Jobs.Results.{Emails, Row, list_by_job, count_by_status}
use mailclear.Validation.Types.{Status}
use mailclear.Workers.Pool.{Pool}

pub record JobRow : Type 0 where
  pub id : Text
  pub name : Text
  pub source : Text
  pub metadata : Text
  pub job : Job

-- `JobsRepo.Create`, whose metadata is an empty object where none is given
unfoldable pub create_row :
    (db_err : Option Text)
    → (now : ℕ) (id name source : Text) (total : ℕ) → (metadata : Option Text) → List JobRow
    → Option JobRow × List JobRow
unfolding Repo.create
create_row (some _) now id name source total metadata rows = (none, rows)
create_row none now id name source total metadata rows =
    let row : JobRow = record {
      id = id;
      name = name;
      source = source;
      metadata = elim metadata [ none ↦ lit "{}" | some raw ↦ raw ];
      job = Repo.create now total;
    } in
    (some row, rows ++ (row ∷ []))

-- `JobsRepo.Get`
unfoldable pub get : Text → List JobRow → Option JobRow
get id [] = none
get id (r ∷ rows) = let rest = get id rows in if text_eq r.id id then some r else rest

abbrev pub with_job : (Job → Job) → JobRow → JobRow
with_job f r = record r { job = f r.job }

-- `WHERE id = $1`
unfoldable pub on_row : Text → (Job → Job) → List JobRow → List JobRow
on_row id f [] = []
on_row id f (r ∷ rows) =
    let rest = on_row id f rows in if text_eq r.id id then with_job f r ∷ rest else r ∷ rest

module _ {Value : Type 0} (marshal : Value → Option Text) where
  -- `Create`: metadata that cannot be written as JSON is an error before any statement
  unfoldable pub create :
      (db_err : Option Text)
      → (now : ℕ) (id name source : Text) (total : ℕ) → (metadata : Option Value) → List JobRow
      → Option JobRow × List JobRow
  unfolding create_row
  create db_err now id name source total none rows =
      create_row db_err now id name source total none rows
  create db_err now id name source total (some v) rows = elim (marshal v) [
    | none ↦ (none, rows)
    | some raw ↦ create_row db_err now id name source total (some raw) rows
  ]

-- `MarkCompleted`
unfoldable pub mark_completed : (now : ℕ) → Text → List JobRow → List JobRow
unfolding on_row update_status
mark_completed now id rows = on_row id (update_status now completed) rows

-- `Cancel`
unfoldable pub cancel_row : (now : ℕ) → Text → List JobRow → List JobRow
unfolding on_row cancel
cancel_row now id rows = on_row id (cancel now) rows

-- `QueueLen`
unfoldable pub queue_len : Pool → ℕ
queue_len p = length p.queue
