-- ===== src/Tests/Lifecycle.antt =====
-- A job of two tasks with the same email, which end in the other order.
use mailclear.Base.{
  map, ℕ, ◌+◌, ◌≤◌, ◌≡◌, ◌≢◌, ◌||◌, refl, true, false, List, [], ◌∷◌, ◌++◌, length, Option, none,
  some, All, get_elem?, arith,
}
use mailclear.Text.{Text, lit}
use mailclear.Validation.Types.{Email, Status, new_email}
use mailclear.Base.Int.{◌+ℤ◌}
use mailclear.Validation.Scoring
use mailclear.Validation.Scoring.{default_score}
use mailclear.Validation.Pipeline
use mailclear.Validation.Validator.{Validator, validate}
use mailclear.Jobs.Repo.{JobStatus, Job, create, running, completed, update_status, is_over}
use mailclear.Jobs.Handler.{Validated, Database, first_error, record_of}
use mailclear.Jobs.Handler.Statuses.{tally_of}
use mailclear.Jobs.Results.{Item, empty, key, has_key}
use mailclear.Jobs.Results.Batches.{named, IsDistinctOn}
use mailclear.Jobs.Submit.{submit, Tick}
use mailclear.Jobs.Lifecycle.{
  World, Event, insert, count, look, write, step, run, submitted, emails_of, items_of, queued,
}
use mailclear.Jobs.Lifecycle.Counted.{total_of}
use mailclear.Jobs.Lifecycle.Completed.{AllStored, run-processed_le, run-completed}
use mailclear.Jobs.Lifecycle.Served.{all_served}
use mailclear.Jobs.Lifecycle.Delivered.{submit-delivered}
use mailclear.Jobs.Lifecycle.Ended.{IsEnded, run-IsEnded}
use mailclear.Jobs.Lifecycle.Task.{both, both-known}
use mailclear.Jobs.Lifecycle.Whole.{after, checked, email_of, named_by, submit-completed}
use mailclear.Tests.Inputs.{alive}
use mailclear.Tests.Tables.{plain}

abbrev db : Database
db = record { now = 2; insert_err = none; progress_err = none; reached = true }

-- every item is chosen, in the order of the batch
abbrev chosen : List Item → List Item
chosen items = items

chosen-IsDistinctOn : (items : List Item) → IsDistinctOn plain items (chosen items)
chosen-IsDistinctOn items = record { fewer = omega arith; covers = λ k. refl }

abbrev email : Email
email = record (new_email (lit "a@x.org")) { status = Status.risky; normalized = lit "a@x.org" }

abbrev one_email : List Validated
one_email = (email, none) ∷ []

abbrev tasks : List (List Validated)
tasks = one_email ∷ one_email ∷ []

abbrev job : Job
job = update_status 1 running (create 0 2)

abbrev tick : Tick
tick = record { now = 3; late = false; got = some job }

-- the second task ends before the first one, and the waiter looks in between
abbrev events : List Event
events = insert 1 db ∷ look tick ∷ insert 0 db ∷ count 1 db ∷ count 0 db ∷ []

abbrev all_done : World
all_done =
    run plain chosen (lit "j") (total_of tasks) events (submitted (total_of tasks) job empty tasks)

abbrev completed_world : World
completed_world =
    run plain chosen (lit "j") (total_of tasks)
      (insert 1 db ∷ look tick ∷ insert 0 db ∷ count 1 db ∷ count 0 db ∷ look tick ∷ write 4 ∷ [])
      (submitted (total_of tasks) job empty tasks)

job-new : job.counts.processed ≡ 0
unfolding update_status create
job-new = refl

job-whole : job.total ≡ total_of tasks
unfolding update_status create total_of
job-whole = refl

job-running : job.status ≢ completed
unfolding update_status
job-running e = cc

run-processed_le_example : all_done.job.counts.processed ≤ all_done.job.total
run-processed_le_example =
    run-processed_le plain (lit "j") chosen job empty tasks events job-new job-whole job-running

world-completed : completed_world.job.status ≡ completed
unfolding run step submitted total_of create
world-completed = refl

-- the first task is counted, the second one is queued
abbrev half : World
half =
    run plain chosen (lit "j") (total_of tasks) (insert 0 db ∷ count 0 db ∷ [])
      (submitted (total_of tasks) job empty tasks)

half-queued : get_elem? half.pieces 1 ≡ some (queued one_email)
unfolding run step submitted total_of
half-queued = refl

one_email-fine : first_error one_email ≡ none
unfolding first_error
one_email-fine = refl

half-known :
    (k : Text × Text)
    → named plain k (items_of (lit "j") (emails_of one_email)) ≡ true
    → has_key plain k half.table.rows ≡ true
unfolding run step submitted total_of named has_key
half-known k h = h

both-known_example :
    let w = both plain chosen (lit "j") 1 db 2 half in
    (w.table.rows ≡ half.table.rows) × (w.job.counts.processed ≡ half.job.counts.processed + 1)
both-known_example =
    both-known plain chosen (lit "j") 1 db 2 half (email, none) [] half-queued one_email-fine refl
      refl half-known

run-completed_example :
    (completed_world.job.counts.processed ≡ total_of tasks)
    × AllStored plain (lit "j") completed_world.table.rows tasks
run-completed_example =
    run-completed plain (lit "j") chosen job empty tasks _ chosen-IsDistinctOn job-new job-whole
      job-running world-completed

-- a cancelled job whose first task is counted
abbrev stopped : World
stopped = record half {
  job = record half.job { status = JobStatus.cancelled; finished_at = some 3 };
}

stopped-IsEnded : IsEnded stopped
unfolding run step submitted total_of is_over
stopped-IsEnded = record { over = refl; open_end = λ e. cc; decided = λ s e. ground arith }

run-IsEnded_example :
    IsEnded (run plain chosen (lit "j") 2 (insert 1 db ∷ count 1 db ∷ look tick ∷ []) stopped)
run-IsEnded_example =
    run-IsEnded plain chosen (lit "j") 2 (insert 1 db ∷ count 1 db ∷ look tick ∷ []) stopped
      stopped-IsEnded

-- a pipeline with no stage
abbrev scorer_only : Validator
scorer_only = record { pipe = record { stages = []; metered = true }; scorer = default_score }

-- two emails in tasks of one, which end in the other order
abbrev upload : List Text
upload = lit "ann@gmail.com" ∷ lit "bob@yahoo.com" ∷ []

abbrev takes_all : ℕ → Option Text
takes_all _ = none

abbrev upload_events : List Event
upload_events = insert 1 db ∷ count 1 db ∷ insert 0 db ∷ count 0 db ∷ look tick ∷ write 4 ∷ []

abbrev uploaded : World
uploaded =
    after scorer_only (λ _. alive) plain chosen (lit "j") 1 1 takes_all upload empty upload_events

upload-taken : (submit 1 1 none takes_all upload (create 1 2)).err ≡ none
unfolding submit
upload-taken = refl

upload-completed : uploaded.job.status ≡ completed
unfolding run step submitted total_of submit validate Pipeline.run create Scoring.apply new_email
    Scoring.final_status default_score Scoring.clamp_score Scoring.raw_score ◌+ℤ◌
upload-completed = refl

abbrev ann_key : Text × Text
ann_key = key plain (record {
  job_id = lit "j";
  result = record_of (email_of scorer_only (λ _. alive) (lit "ann@gmail.com"));
})

submit-completed_example :
    (uploaded.job.counts ≡ tally_of (map (email_of scorer_only (λ _. alive)) upload))
    × (has_key plain ann_key uploaded.table.rows ≡ (
        has_key plain ann_key empty.rows
        || named_by scorer_only (λ _. alive) plain (lit "j") ann_key upload))
submit-completed_example =
    submit-completed scorer_only (λ _. alive) plain chosen (lit "j") 1 1 takes_all upload empty
      upload_events ann_key (omega arith) chosen-IsDistinctOn upload-taken upload-completed

upload-validated : All (λ raw. (checked scorer_only (λ _. alive) raw).1 ≡ none) upload
unfolding validate Pipeline.run
upload-validated = (refl, (refl, tt))

-- the waiter looks once between the tasks
abbrev delivery : List Event
delivery = insert 1 db ∷ count 1 db ∷ look tick ∷ insert 0 db ∷ count 0 db ∷ []

delivery-served :
    all_served (length (submit 1 1 none takes_all upload (create 1 2)).tasks) delivery ≡ true
unfolding submit all_served
delivery-served = refl

abbrev delivered : World
delivered =
    after scorer_only (λ _. alive) plain chosen (lit "j") 1 1 takes_all upload empty
      (delivery ++ (look tick ∷ write 4 ∷ []))

submit-delivered_example :
    (delivered.job.status ≡ completed)
    × (delivered.job.counts ≡ tally_of (map (email_of scorer_only (λ _. alive)) upload))
    × (has_key plain ann_key delivered.table.rows ≡ (
        has_key plain ann_key empty.rows
        || named_by scorer_only (λ _. alive) plain (lit "j") ann_key upload))
submit-delivered_example =
    submit-delivered scorer_only (λ _. alive) plain chosen (lit "j") 1 1 takes_all upload empty
      delivery tick 4 ann_key (omega arith) chosen-IsDistinctOn upload-taken upload-validated
      (refl, (refl, ((refl, λ e. cc), (refl, (refl, tt))))) delivery-served (refl, λ e. cc)
