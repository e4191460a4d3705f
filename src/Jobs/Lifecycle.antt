-- ===== src/Jobs/Lifecycle.antt =====
-- internal/jobs: one job while its tasks, its waiter and the operators write to the database, one
-- statement after the other in any order. A task is two statements, the insertion of its results and the
-- counting (`MakeTaskHandler` of handler.go), the waiter reads the row and then writes a status
-- (`waitForCompletion` of manager.go), and an operator cancels the job, forces it to fail, or boots a
-- process that sweeps it. The two statements of `markJobFailed` are one step. `choose` is the choice of
-- `SELECT DISTINCT ON` among the items of a batch.
pub mod Progress
pub mod Counted
pub mod Rows
pub mod Completed
pub mod Waiters
pub mod Fine
pub mod Finish
pub mod Task
pub mod Ended
pub mod Counters
pub mod Exact
pub mod Ranks
pub mod Moved
pub mod Served
pub mod Delivered
pub mod Sources
pub mod Whole
use mailclear.Base.{
  ℕ, Bool, List, [], ◌∷◌, Option, none, some, map, length, get_elem?, set, ◌==◌, if◌then◌else◌,
}
use mailclear.Text.{Text, lit}
use mailclear.Validation.Types.{Email}
use mailclear.Validation.Pipeline.{CtxError}
use mailclear.Jobs.Repo.{
  JobStatus, completed, Job, update_status, increment_progress, cancel, force_fail,
  mark_stale_as_failed,
}
use mailclear.Jobs.Handler.{Validated, first_error, record_of, delta_of, Database, mark_job_failed}
use mailclear.Jobs.Results.{Item, Emails, bulk_insert}
use mailclear.Jobs.Submit.{Tick, leave, mark, again, wait_turn}

-- A task before its first statement, with what the validation of its emails returns; between its two
-- statements; after both; and given up by an error.
pub data Piece : Type 0 where
  queued : List Validated → Piece
  stored counted : List Email → Piece
  lost : ℕ → Piece

-- the goroutine that waits for the end of the job
pub data Waiter : Type 0 where
  watching : Waiter
  writing : JobStatus → Waiter
  gone : Waiter

pub record World : Type 0 where
  pub job : Job
  pub table : Emails
  pub pieces : List Piece
  pub waiter : Waiter

pub data Event : Type 0 where
  insert count : ℕ → Database → Event
  look : Tick → Event
  write : ℕ → Event
  cancelled_at : ℕ → Event
  forced_at : ℕ → Text → Event
  swept_at : (now stale_after : ℕ) → Event

unfoldable pub emails_of : List Validated → List Email
emails_of vs = map (λ v. v.0) vs

unfoldable pub items_of : (id : Text) → List Email → List Item
unfolding record_of
items_of id es = map (λ e. record { job_id = id; result = record_of e }) es

-- the statement of the waiter that `Get` and the clock lead to
unfoldable pub look_at : (total : ℕ) → Tick → Waiter
unfolding wait_turn
look_at total t = elim (wait_turn total t) [ leave ↦ gone | mark s ↦ writing s | again ↦ watching ]

-- `Get`, which returns the row as it is or an error
unfoldable pub seen : Option Job → Job → Option Job
seen none j = none
seen (some _) j = some j

-- The waiter reads the row, and leaves or decides on a status.
unfoldable pub look_step : (total : ℕ) → Tick → World → World
unfolding look_at seen
look_step total t w = elim w.waiter [
  | watching ↦ record w { waiter = look_at total (record t { got = seen t.got w.job }) }
  | _ ↦ w
]

unfoldable pub write_step : ℕ → World → World
unfolding update_status
write_step now w = elim w.waiter [
  | writing s ↦ record w { job = update_status now s w.job; waiter = gone }
  | _ ↦ w
]

unfoldable pub on_piece : Option Piece → (Piece → World → World) → World → World
on_piece none f w = w
on_piece (some p) f w = f p w

module _ (fold : Text → Text) (choose : List Item → List Item) (id : Text) where
  -- `BulkInsert` with its error
  unfoldable pub insert_results : ℕ → Database → Option Text → List Email → World → World
  unfolding mark_job_failed bulk_insert items_of
  insert_results i db (some err) es w = record w {
    job = mark_job_failed db.now db.reached (lit "bulk_insert") err w.job;
    pieces = set w.pieces i (lost (length es));
  }
  insert_results i db none es w =
      let items = items_of id es in
      record w {
        table = (bulk_insert fold (choose items) none items w.table).1;
        pieces = set w.pieces i (stored es);
      }

  -- where the validation of the emails ends with an error, nothing is written
  unfoldable pub insert_validated : ℕ → Database → Option CtxError → List Email → World → World
  unfolding insert_results
  insert_validated i db (some _) es w = record w { pieces = set w.pieces i (lost (length es)) }
  insert_validated i db none es w = insert_results i db db.insert_err es w

  -- a task up to its first statement
  unfoldable pub insert_piece : ℕ → Database → Piece → World → World
  unfolding first_error emails_of insert_validated
  insert_piece i db (queued []) w = record w { pieces = set w.pieces i (counted []) }
  insert_piece i db (queued (v ∷ vs)) w =
      insert_validated i db (first_error (v ∷ vs)) (emails_of (v ∷ vs)) w
  insert_piece i db _ w = w

  -- `IncrementProgress` with its error
  unfoldable pub count_results : ℕ → Database → Option Text → List Email → World → World
  unfolding mark_job_failed increment_progress delta_of
  count_results i db (some err) es w = record w {
    job = mark_job_failed db.now db.reached (lit "increment_progress") err w.job;
    pieces = set w.pieces i (lost (length es));
  }
  count_results i db none es w = record w {
    job = increment_progress db.now (delta_of es) w.job;
    pieces = set w.pieces i (counted es);
  }

  -- the second statement of a task whose results are stored
  unfoldable pub count_piece : ℕ → Database → Piece → World → World
  unfolding count_results
  count_piece i db (stored es) w = count_results i db db.progress_err es w
  count_piece i db _ w = w

  unfoldable pub step : (total : ℕ) → Event → World → World
  unfolding on_piece insert_piece count_piece look_step write_step cancel force_fail
      mark_stale_as_failed
  step total (insert i db) w = on_piece (get_elem? w.pieces i) (insert_piece i db) w
  step total (count i db) w = on_piece (get_elem? w.pieces i) (count_piece i db) w
  step total (look t) w = look_step total t w
  step total (write now) w = write_step now w
  step total (cancelled_at now) w = record w { job = cancel now w.job }
  step total (forced_at now reason) w = record w { job = (force_fail now reason w.job).1 }
  step total (swept_at now stale_after) w = record w {
    job = mark_stale_as_failed now stale_after w.job;
  }

  unfoldable pub run : (total : ℕ) → List Event → World → World
  unfolding step
  run total [] w = w
  run total (e ∷ es) w = run total es (step total e w)

-- A job whose tasks the pool has taken, where the rows of other jobs are in the table already. With
-- nothing to do, the waiter writes at once.
unfoldable pub submitted : (total : ℕ) → Job → Emails → List (List Validated) → World
submitted total j t tasks = record {
  job = j;
  table = t;
  pieces = map queued tasks;
  waiter = if total == 0 then writing completed else watching;
}
