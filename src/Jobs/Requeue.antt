-- ===== src/Jobs/Requeue.antt =====
-- internal/jobs/manager.go, `Requeue`: the emails of a job go through `Submit` again, for a new job. Each
-- statement that may fail comes with its error. The name and the metadata of the new job are left out.
use mailclear.Base.{
  ℕ, ◌≤◌, ◌≡◌, refl, ◌∙◌, sym, ap, inl, inr, true, Option-cases, List, [], ◌∷◌, Option, none, some,
  length, All, arith, map, subst, if◌then◌else◌,
}
use mailclear.Text.{Text, text_eq}
use mailclear.Importer.Batcher.Batches.{concat, IsSized}
use mailclear.Jobs.Repo.{Job, running, create, update_status}
use mailclear.Jobs.Submit.{Submitted, submit}
use mailclear.Jobs.Submit.Chunks.{submit_ok}
use mailclear.Jobs.Results.{Row, Emails, of_job, list_originals_by_job}

-- the messages that `Requeue` puts before an error
pub data RequeueError : Type 0 where
  source_job list_emails create_job submit_job : Text → RequeueError
  no_emails : RequeueError

-- the errors of `Get`, `ListOriginalsByJob`, `Create` and `UpdateStatus`, and the answers of the pool
pub record Answers : Type 0 where
  pub get_err : Option Text
  pub list_err : Option Text
  pub create_err : Option Text
  pub status_err : Option Text
  pub pool : ℕ → Option Text

-- `made` is the new job with what was submitted for it
pub record Requeued : Type 0 where
  pub made : Option Submitted
  pub err : Option RequeueError

-- from the emails of the source job on
unfoldable pub requeue_emails : (now size : ℕ) → Answers → List Text → Requeued
unfolding create submit
requeue_emails now size a [] = record { made = none; err = some no_emails }
requeue_emails now size a (e ∷ es) = elim a.create_err [
  | some x ↦ record { made = none; err = some (create_job x) }
  | none ↦
      let s = submit now size a.status_err a.pool (e ∷ es) (create now (length (e ∷ es))) in
      record { made = some s; err = elim s.err [ some x ↦ some (submit_job x) | none ↦ none ] }
]

unfoldable pub requeue : (now size : ℕ) → Answers → (job : Text) → Emails → Requeued
unfolding requeue_emails list_originals_by_job
requeue now size a job t = elim a.get_err [
  | some x ↦ record { made = none; err = some (source_job x) }
  | none ↦ elim a.list_err [
    | some x ↦ record { made = none; err = some (list_emails x) }
    | none ↦ requeue_emails now size a (list_originals_by_job job t)
  ]
]

-- the new job runs, and its tasks are the emails
pub record IsResubmitted (size : ℕ) (emails : List Text) (s : Submitted) : Type 0 where
  pub same : concat s.tasks ≡ emails
  pub sized : All (IsSized size) s.tasks
  pub total : s.job.total ≡ length emails
  pub status : s.job.status ≡ running
  pub waiting : s.waiting ≡ true

create-total : (now total : ℕ) → (create now total).total ≡ total
unfolding create
create-total now total = refl

submit-total :
    (now size : ℕ) (status_err : Option Text) (answer : ℕ → Option Text) (emails : List Text)
    (j : Job)
    → (submit now size status_err answer emails j).job.total ≡ j.total
unfolding submit update_status
submit-total now size (some e) answer emails j = refl
submit-total now size none answer emails j = refl

requeue_emails_ok :
    (now size : ℕ) (a : Answers) (emails : List Text)
    → (requeue_emails now size a emails).err ≡ none
    → let s = submit now size a.status_err a.pool emails (create now (length emails)) in
      ((requeue_emails now size a emails).made ≡ some s) × (s.err ≡ none)
unfolding requeue_emails
requeue_emails_ok now size a [] ok = absurd (ground arith)
requeue_emails_ok now size a (e ∷ es) ok = elim (Option-cases a.create_err) [
  | inr (x, h) ↦ absurd (ground arith)
  | inl h ↦ ground arith
]

requeue_ok :
    (now size : ℕ) (a : Answers) (job : Text) (t : Emails)
    → (requeue now size a job t).err ≡ none
    → requeue now size a job t ≡ requeue_emails now size a (list_originals_by_job job t)
unfolding requeue
requeue_ok now size a job t ok = ground arith

-- the emails of the rows of a job, as they were uploaded
abbrev pub originals : (job : Text) → List Row → List Text
originals job [] = []
originals job (r ∷ rs) =
    let rest = originals job rs in
    if text_eq r.item.job_id job then r.item.result.email_original ∷ rest else rest

map-of_job :
    (job : Text) (rs : List Row)
    → map (λ r. r.item.result.email_original) (of_job job rs) ≡ originals job rs
unfolding of_job
map-of_job job [] = refl
map-of_job job (r ∷ rs) = ground (arith, map-of_job job rs)

list_originals_by_job-originals :
    (job : Text) (t : Emails) → list_originals_by_job job t ≡ originals job t.rows
unfolding list_originals_by_job
list_originals_by_job-originals job t = map-of_job job t.rows

-- If `Requeue` returns no error, the new job runs and is watched, its tasks put together are the emails of
-- the rows of the source job as they were uploaded, in the order of the table, its total is their number,
-- and each task has from 1 email to as many as the batch size.
pub requeue-IsResubmitted :
    (now size : ℕ) (a : Answers) (job : Text) (t : Emails)
    → 1 ≤ size
    → (requeue now size a job t).err ≡ none
    → (s : Submitted) × ((requeue now size a job t).made ≡ some s)
      × IsResubmitted size (originals job t.rows) s
requeue-IsResubmitted now size a job t pos ok =
    let emails = list_originals_by_job job t in
    let j = create now (length emails) in
    let there = requeue_ok now size a job t ok in
    let (made, fine) = requeue_emails_ok now size a emails (ap (λ r. r.err) (sym there) ∙ ok) in
    let (same, sized, waiting, status) = submit_ok now size a.status_err a.pool emails j pos fine in
    (
      submit now size a.status_err a.pool emails j,
      ap (λ r. r.made) there ∙ made,
      subst (λ l. IsResubmitted size l (submit now size a.status_err a.pool emails j))
          (list_originals_by_job-originals job t)
          (record {
            same = same;
            sized = sized;
            waiting = waiting;
            status = status;
            total =
                submit-total now size a.status_err a.pool emails j
                ∙ create-total now (length emails);
          }),
    )
