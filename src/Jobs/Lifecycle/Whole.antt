-- ===== src/Jobs/Lifecycle/Whole.antt =====
-- From the emails that `Submit` takes to the rows of the completed job: `Jobs.Submit`,
-- `Validation.Validator`, the statements of `Jobs.Lifecycle` and the table of `Jobs.Results` together.
use mailclear.Base.{
  ◌≢◌, ◌⊎◌, inl, inr, ◌||◌, Bool, true, Bool-cases, ℕ, suc, ◌≤◌, ◌≡◌, refl, sym, ap, ◌∙◌, subst,
  List, [], ◌∷◌, ◌++◌, Option, none, map, length, length-append, All, arith,
}
use mailclear.Text.{Text}
use mailclear.Validation.Types.{Email}
use mailclear.Validation.Pipeline.{Ctx}
use mailclear.Validation.Validator.{Validator, validate}
use mailclear.Importer.Batcher.Batches.{concat}
use mailclear.Jobs.Repo.{add_counts, create, update_status, running, completed}
use mailclear.Jobs.Handler.{Validated, delta_of, count_all}
use mailclear.Jobs.Handler.Statuses.{tally_of, delta_of-tally_of}
use mailclear.Jobs.Results.{Item, Row, Emails, has_key}
use mailclear.Jobs.Results.Batches.{named, IsDistinctOn}
use mailclear.Jobs.Submit.{submit}
use mailclear.Jobs.Submit.Chunks.{submit_ok}
use mailclear.Jobs.Lifecycle.{World, Event, emails_of, items_of, run, submitted}
use mailclear.Jobs.Lifecycle.Progress.{delta_of-processed}
use mailclear.Jobs.Lifecycle.Counted.{total_of}
use mailclear.Jobs.Lifecycle.Exact.{counts_of, completed-counts, delta_of-append}
use mailclear.Jobs.Lifecycle.Rows.{HasRow}
use mailclear.Jobs.Lifecycle.Completed.{run-completed}
use mailclear.Jobs.Lifecycle.Sources.{NamedIn, submitted_run-IsSourced, named-HasRow, named-append}

module _ (v : Validator) (ctx : Text → Ctx) where
  -- what `Validate` returns for an email of a task
  abbrev pub checked : Text → Validated
  checked raw = ((validate v (ctx raw) raw).email, (validate v (ctx raw) raw).error)

  abbrev pub checked_tasks : List (List Text) → List (List Validated)
  checked_tasks tasks = map (map checked) tasks

  length-checked : (raws : List Text) → length (map checked raws) ≡ length raws
  length-checked [] = refl
  length-checked (raw ∷ raws) = ap suc (length-checked raws)

  pub total_of-checked :
      (tasks : List (List Text)) → total_of (checked_tasks tasks) ≡ length (concat tasks)
  unfolding total_of
  total_of-checked [] = refl
  total_of-checked (raws ∷ tasks) =
      omega
        (arith, length-checked raws, total_of-checked tasks, length-append {0} raws (concat tasks))

  -- the validated email
  abbrev pub email_of : Text → Email
  email_of raw = (checked raw).0

  All-append :
      (P : Email → Type 0) (raws more : List Text)
      → All P (emails_of (map checked raws))
      → All (λ raw. P (email_of raw)) more
      → All (λ raw. P (email_of raw)) (raws ++ more)
  unfolding emails_of
  All-append P [] more h k = k
  All-append P (raw ∷ raws) more h k = (h.0, All-append P raws more h.1 k)

  All-concat :
      (P : Email → Type 0) (tasks : List (List Text))
      → All (λ vs. All P (emails_of vs)) (checked_tasks tasks)
      → All (λ raw. P (email_of raw)) (concat tasks)
  All-concat P [] h = tt
  All-concat P (raws ∷ tasks) h = All-append P raws (concat tasks) h.0 (All-concat P tasks h.1)

  emails_of-checked :
      (raws more : List Text)
      → emails_of (map checked raws) ++ map email_of more ≡ map email_of (raws ++ more)
  unfolding emails_of
  emails_of-checked [] more = refl
  emails_of-checked (raw ∷ raws) more = ap (λ es. email_of raw ∷ es) (emails_of-checked raws more)

  counts_of-checked :
      (tasks : List (List Text))
      → counts_of (checked_tasks tasks) ≡ delta_of (map email_of (concat tasks))
  unfolding counts_of
  counts_of-checked [] = refl
  counts_of-checked (raws ∷ tasks) =
      ap (add_counts (delta_of (emails_of (map checked raws)))) (counts_of-checked tasks)
      ∙ sym (delta_of-append (emails_of (map checked raws)) (map email_of (concat tasks)))
      ∙ ap delta_of (emails_of-checked raws (concat tasks))

  module _ (fold : Text → Text) (id : Text) (k : Text × Text) where
    -- the key of one of the validated emails
    abbrev pub named_by : List Text → Bool
    named_by raws = named fold k (items_of id (map email_of raws))

    NamedIn-concat :
        (tasks : List (List Text))
        → NamedIn fold id k (checked_tasks tasks)
        → named_by (concat tasks) ≡ true
    NamedIn-concat [] h = absurd h
    NamedIn-concat (raws ∷ tasks) h =
        let es = emails_of (map checked raws) in
        let fs = map email_of (concat tasks) in
        let same = ap (λ l. named fold k (items_of id l)) (emails_of-checked raws (concat tasks)) in
        let both = named-append fold id k es fs in
        elim h [
          | inl here ↦ ground (arith, same, both, here)
          | inr later ↦ ground (arith, same, both, NamedIn-concat tasks later)
        ]

    All-email_of :
        (rows : List Row) (raws : List Text)
        → All (λ raw. HasRow fold id rows (email_of raw)) raws
        → All (HasRow fold id rows) (map email_of raws)
    All-email_of rows [] h = tt
    All-email_of rows (raw ∷ raws) h = (h.0, All-email_of rows raws h.1)

    -- the keys of a table with the rows of the emails, and otherwise the ones from before
    sourced_keys :
        (t : Emails) (rows : List Row) (raws : List Text)
        → (has_key fold k rows ≡ true → (has_key fold k t.rows ≡ true) ⊎ (named_by raws ≡ true))
        → (has_key fold k t.rows ≡ true → has_key fold k rows ≡ true)
        → (named_by raws ≡ true → has_key fold k rows ≡ true)
        → has_key fold k rows ≡ (has_key fold k t.rows || named_by raws)
    sourced_keys t rows raws source kept stored = elim (Bool-cases (has_key fold k rows)) [
      | inl here ↦ elim (source here) [
        | inl before ↦ ground (arith, here, before)
        | inr named_here ↦ ground (arith, here, named_here)
      ]
      | inr missing ↦ elim (Bool-cases (has_key fold k t.rows)) [
        | inl before ↦ absurd (ground (arith, missing, kept before))
        | inr new ↦ elim (Bool-cases (named_by raws)) [
          | inl named_here ↦ absurd (ground (arith, missing, stored named_here))
          | inr other ↦ ground (arith, missing, new, other)
        ]
      ]
    ]

  -- the job, its tasks and the table after `Submit` and any statements
  abbrev pub after :
      (fold : Text → Text)
      → (choose : List Item → List Item) → (id : Text) (now size : ℕ) → (ℕ → Option Text)
      → List Text
      → Emails
      → List Event
      → World
  after fold choose id now size answer emails t es =
      let s = submit now size none answer emails (create now (length emails)) in
      run fold choose id (total_of (checked_tasks s.tasks)) es
        (submitted (total_of (checked_tasks s.tasks)) s.job t (checked_tasks s.tasks))

  pub submit-new :
      (now size : ℕ) (answer : ℕ → Option Text) (emails : List Text)
      → let s = submit now size none answer emails (create now (length emails)) in
        (s.job.counts ≡ delta_of []) × (s.job.total ≡ length emails) × (s.job.status ≡ running)
  unfolding submit create update_status delta_of count_all
  submit-new now size answer emails = (refl, refl, refl)

  -- If the pool takes all tasks of a new job for a list of emails, in slices of at least one, then whatever
  -- its tasks, the waiter and the operators write after that, in any order and with any errors of the
  -- database: where the job is completed, its counters are the number of the emails of the list and the
  -- numbers of them with each status after their validation, and the table has a row with a job and a
  -- folded address if and only if it had one before or these are this job and the folded normalized
  -- address of a validated email of the list.
  pub submit-completed :
      (fold : Text → Text) (choose : List Item → List Item) (id : Text) (now size : ℕ)
      (answer : ℕ → Option Text) (emails : List Text) (t : Emails) (es : List Event)
      (k : Text × Text)
      → 1 ≤ size
      → ((items : List Item) → IsDistinctOn fold items (choose items))
      → (submit now size none answer emails (create now (length emails))).err ≡ none
      → (after fold choose id now size answer emails t es).job.status ≡ completed
      → let w = after fold choose id now size answer emails t es in
        (w.job.counts ≡ tally_of (map email_of emails))
        × (has_key fold k w.table.rows ≡ (has_key fold k t.rows || named_by fold id k emails))
  submit-completed fold choose id now size answer emails t es k pos distinct ok over =
      let s = submit now size none answer emails (create now (length emails)) in
      let (same, sized, waiting, status) =
        submit_ok now size none answer emails (create now (length emails)) pos ok in
      let (new, total, active) = submit-new now size answer emails in
      let whole = total ∙ sym (total_of-checked s.tasks ∙ ap length same) in
      let goes_on : s.job.status ≢ completed = λ h. absurd (ground arith) in
      let w = after fold choose id now size answer emails t es in
      let counts =
        completed-counts fold choose id s.job t (checked_tasks s.tasks) es distinct new whole
          goes_on over in
      let zero = ap (λ c. c.processed) new ∙ delta_of-processed [] in
      let (processed, stored) =
        run-completed fold id choose s.job t (checked_tasks s.tasks) es distinct zero whole goes_on
          over in
      let (source, kept) =
        submitted_run-IsSourced fold id k choose distinct (checked_tasks s.tasks) t
          (total_of (checked_tasks s.tasks)) s.job es in
      (
        counts
            ∙ counts_of-checked s.tasks
            ∙ ap (λ l. delta_of (map email_of l)) same
            ∙ delta_of-tally_of (map email_of emails),
        subst (λ l. has_key fold k w.table.rows ≡ (has_key fold k t.rows || named_by fold id k l))
            same
            (sourced_keys fold id k t w.table.rows (concat s.tasks)
              (λ there. elim (source there) [
                | inl before ↦ inl before
                | inr task ↦ inr (NamedIn-concat fold id k s.tasks task)
              ])
              kept
              (named-HasRow fold id k w.table.rows (map email_of (concat s.tasks)) (
                All-email_of fold id k w.table.rows (concat s.tasks)
                  (All-concat (HasRow fold id w.table.rows) s.tasks stored)))),
      )
