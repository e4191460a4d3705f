-- ===== src/Tests/Jobs.antt =====
-- The import and the jobs.
use mailclear.Base.{ℕ, ◌+◌, ◌≡◌, refl, true, List, [], ◌∷◌, Option, none, length, map}
use mailclear.Text.{Text, lit}
use mailclear.Importer.Batcher.{new_batcher, close, add}
use mailclear.Importer.Batcher.Batches.{add_all, IsDone, add_all-close}
use mailclear.Jobs.Repo.{Job, create, running}
use mailclear.Jobs.Repo.Progress.{update, exec_all, IsJob, create-IsJob}
use mailclear.Jobs.Handler.{Validated, first_error, Database, handle}
use mailclear.Jobs.Handler.Statuses.{how_many, handle-counts}
use mailclear.Validation.Types.{Status, new_email}
use mailclear.Validation.Pipeline.{Ctx}
use mailclear.Tests.Inputs.{alive, raw}

abbrev three : List Text
three = lit "a@x.org" ∷ lit "b@x.org" ∷ lit "c@y.org" ∷ []

abbrev accepts : ℕ → Option Text
accepts _ = none

all_added : (add_all accepts three (new_batcher 2)).1 ≡ none
unfolding add new_batcher
all_added = refl

add_all-close_example :
    IsDone (new_batcher 2).size three (close accepts (add_all accepts three (new_batcher 2)).0).0
add_all-close_example = add_all-close accepts 2 three all_added

abbrev fresh_job : Job
fresh_job = create 0 3

create-IsJob_example : IsJob (exec_all (update 1 running ∷ []) fresh_job)
create-IsJob_example = create-IsJob 0 3 (update 1 running ∷ []) (tt, tt)

abbrev database : Database
database = record { now = 2; insert_err = none; progress_err = none; reached = true }

abbrev task : List (Text × Ctx)
task = (raw, alive) ∷ (lit "bob@yahoo.com", alive) ∷ []

abbrev rated : Text → Status → Validated
rated raw s = (record (new_email raw) { status = s }, none)

abbrev rated_task : List Validated
rated_task =
    rated (lit "a@x.org") Status.risky
    ∷ rated (lit "b@x.org") Status.invalid
    ∷ rated (lit "c@y.org") Status.risky
    ∷ []

rated-fine : first_error rated_task ≡ none
unfolding first_error
rated-fine = refl

handle-counts_example :
    let es = map (λ v. v.0) rated_task in
    let c = (handle database rated_task fresh_job).job.counts in
    (c.processed ≡ fresh_job.counts.processed + length es)
    × (c.valid ≡ fresh_job.counts.valid + how_many Status.valid es)
    × (c.invalid ≡ fresh_job.counts.invalid + how_many Status.invalid es)
    × (c.risky ≡ fresh_job.counts.risky + how_many Status.risky es)
    × (c.unknown ≡ fresh_job.counts.unknown + how_many Status.unknown es)
    × (c.disposable ≡ fresh_job.counts.disposable + how_many Status.disposable es)
handle-counts_example = handle-counts database rated_task fresh_job rated-fine refl refl
