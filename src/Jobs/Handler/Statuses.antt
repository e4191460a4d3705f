-- ===== src/Jobs/Handler/Statuses.antt =====
-- The emails of a task by status, without the loop that counts them.
use mailclear.Base.{ℕ, ◌+◌, ◌≡◌, ap, ◌∙◌, List, [], ◌∷◌, none, length, map, arith, if◌then◌else◌}
use mailclear.Validation.Types.{Status, same_status, Email}
use mailclear.Jobs.Repo.{Job, ProgressDelta, add_counts, increment_progress}
use mailclear.Jobs.Handler.{
  count_email, count_all, delta_of, Validated, first_error, Database, persist, handle,
}

abbrev pub how_many : (label : Status) → List Email → ℕ
how_many label [] = 0
how_many label (e ∷ es) = (if same_status e.status label then 1 else 0) + how_many label es

-- the emails, and those with each status
abbrev pub tally_of : List Email → ProgressDelta
tally_of es = record {
  processed = length es;
  valid = how_many Status.valid es;
  invalid = how_many Status.invalid es;
  risky = how_many Status.risky es;
  unknown = how_many Status.unknown es;
  disposable = how_many Status.disposable es;
}

-- one counter after another
abbrev raised : ProgressDelta → List Email → ProgressDelta
raised d es = record {
  processed = d.processed;
  valid = d.valid + how_many Status.valid es;
  invalid = d.invalid + how_many Status.invalid es;
  risky = d.risky + how_many Status.risky es;
  unknown = d.unknown + how_many Status.unknown es;
  disposable = d.disposable + how_many Status.disposable es;
}

raised-count_email :
    (e : Email) (es : List Email) (d : ProgressDelta)
    → raised (count_email e.status d) es ≡ raised d (e ∷ es)
unfolding count_email same_status
raised-count_email e es d = ground arith

count_all-raised : (es : List Email) (d : ProgressDelta) → count_all es d ≡ raised d es
unfolding count_all
count_all-raised [] d = ground arith
count_all-raised (e ∷ es) d =
    count_all-raised es (count_email e.status d) ∙ raised-count_email e es d

pub delta_of-tally_of : (es : List Email) → delta_of es ≡ tally_of es
unfolding delta_of
delta_of-tally_of es = count_all-raised es _ ∙ ground arith

persist-counts :
    (db : Database) (es : List Email) (j : Job)
    → db.insert_err ≡ none
    → db.progress_err ≡ none
    → (persist db es j).job.counts ≡ add_counts j.counts (tally_of es)
unfolding persist increment_progress
persist-counts db es j ok ok' = ground (arith, delta_of-tally_of es)

-- If no validation of the emails of a task ends with an error and neither its insertion nor its counting
-- fails, the handler adds to the processed emails of its job the number of its emails, and to each of the
-- five counters by status the number of its emails with exactly that status.
pub handle-counts :
    (db : Database) (vs : List Validated) (j : Job)
    → first_error vs ≡ none
    → db.insert_err ≡ none
    → db.progress_err ≡ none
    → let es = map (λ v. v.0) vs in
      let c = (handle db vs j).job.counts in
      (c.processed ≡ j.counts.processed + length es)
      × (c.valid ≡ j.counts.valid + how_many Status.valid es)
      × (c.invalid ≡ j.counts.invalid + how_many Status.invalid es)
      × (c.risky ≡ j.counts.risky + how_many Status.risky es)
      × (c.unknown ≡ j.counts.unknown + how_many Status.unknown es)
      × (c.disposable ≡ j.counts.disposable + how_many Status.disposable es)
unfolding handle add_counts
handle-counts db [] j fine ok ok' =
    (omega arith, omega arith, omega arith, omega arith, omega arith, omega arith)
handle-counts db (v ∷ vs) j fine ok ok' =
    let c = persist-counts db (map (λ w. w.0) (v ∷ vs)) j ok ok' in
    rw (fine, handle)
      (
        ap (λ d. d.processed) c,
        ap (λ d. d.valid) c,
        ap (λ d. d.invalid) c,
        ap (λ d. d.risky) c,
        ap (λ d. d.unknown) c,
        ap (λ d. d.disposable) c,
      )
