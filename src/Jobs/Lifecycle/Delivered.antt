-- ===== src/Jobs/Lifecycle/Delivered.antt =====
-- A list of emails whose job goes through to its end: `Jobs.Lifecycle.Whole` with the statements that
-- every task and the waiter have.
use mailclear.Base.{
  ℕ, ◌≤◌, ◌≡◌, refl, sym, ap, ◌∙◌, subst, ◌||◌, true, List, [], ◌∷◌, ◌++◌, Option, none, map,
  length, All, arith,
}
use mailclear.Text.{Text}
use mailclear.Validation.Pipeline.{Ctx}
use mailclear.Validation.Validator.{Validator}
use mailclear.Importer.Batcher.Batches.{concat}
use mailclear.Jobs.Repo.{create, completed, is_over}
use mailclear.Jobs.Handler.{first_error}
use mailclear.Jobs.Handler.Statuses.{tally_of}
use mailclear.Jobs.Results.{Item, Emails, has_key}
use mailclear.Jobs.Results.Batches.{IsDistinctOn}
use mailclear.Jobs.Submit.{submit, Tick}
use mailclear.Jobs.Submit.Chunks.{submit_ok}
use mailclear.Jobs.Lifecycle.{World, Event, look, write, run, step, submitted}
use mailclear.Jobs.Lifecycle.Progress.{delta_of-processed}
use mailclear.Jobs.Lifecycle.Counted.{total_of, submitted_run-IsCounted}
use mailclear.Jobs.Lifecycle.Fine.{IsFine}
use mailclear.Jobs.Lifecycle.Finish.{run-finishes}
use mailclear.Jobs.Lifecycle.Served.{all_served, run-serves_tasks}
use mailclear.Jobs.Lifecycle.Whole.{
  checked, checked_tasks, total_of-checked, email_of, named_by, after, submit-new, submit-completed,
}

run-append :
    (fold : Text → Text) (choose : List Item → List Item) (id : Text) (total : ℕ)
    (es fs : List Event) (w : World)
    → run fold choose id total (es ++ fs) w
      ≡ run fold choose id total fs (run fold choose id total es w)
unfolding run
run-append fold choose id total [] fs w = refl
run-append fold choose id total (e ∷ es) fs w =
    run-append fold choose id total es fs (step fold choose id total e w)

length-map : {A B : Type 0} (f : A → B) (xs : List A) → length (map f xs) ≡ length xs
length-map f [] = refl
length-map f (x ∷ xs) = omega (arith, length-map f xs)

module _ (v : Validator) (ctx : Text → Ctx) where
  first_error-checked :
      (raws more : List Text)
      → All (λ raw. (checked v ctx raw).1 ≡ none) (raws ++ more)
      → (first_error (map (checked v ctx) raws) ≡ none)
        × All (λ raw. (checked v ctx raw).1 ≡ none) more
  unfolding first_error
  first_error-checked [] more h = (refl, h)
  first_error-checked (raw ∷ raws) more h =
      let rest = first_error-checked raws more h.1 in (ground (arith, h.0, rest.0), rest.1)

  tasks-checked :
      (tasks : List (List Text))
      → All (λ raw. (checked v ctx raw).1 ≡ none) (concat tasks)
      → All (λ vs. first_error vs ≡ none) (checked_tasks v ctx tasks)
  tasks-checked [] h = tt
  tasks-checked (raws ∷ tasks) h =
      let (here, more) = first_error-checked raws (concat tasks) h in
      (here, tasks-checked tasks more)

  -- Let the pool take all tasks of a new job for a list of emails, in slices of at least one, and let no
  -- validation of them end with an error of its context. If each task inserts and later counts, in any
  -- order of the tasks and with any looks and writes of the waiter in between, no insertion, counting or
  -- look fails, no tick is late and no operator interferes, then after one more look of the waiter and
  -- its write the job is completed, its counters are the number of the emails of the list and the numbers
  -- of them with each status after their validation, and the table has a row with a job and a folded
  -- address if and only if it had one before or these are this job and the folded normalized address of a
  -- validated email of the list.
  pub submit-delivered :
      (fold : Text → Text) (choose : List Item → List Item) (id : Text) (now size : ℕ)
      (answer : ℕ → Option Text) (emails : List Text) (t : Emails) (es : List Event) (tick : Tick)
      (later : ℕ) (k : Text × Text)
      → 1 ≤ size
      → ((items : List Item) → IsDistinctOn fold items (choose items))
      → (submit now size none answer emails (create now (length emails))).err ≡ none
      → All (λ raw. (checked v ctx raw).1 ≡ none) emails
      → All IsFine es
      → all_served
          (length (submit now size none answer emails (create now (length emails))).tasks)
          es
        ≡ true
      → IsFine (look tick)
      → let w =
          after v ctx fold choose id now size answer emails t
            (es ++ (look tick ∷ write later ∷ [])) in
        (w.job.status ≡ completed)
        × (w.job.counts ≡ tally_of (map (email_of v ctx) emails))
        × (has_key fold k w.table.rows ≡ (has_key fold k t.rows || named_by v ctx fold id k emails))
  unfolding is_over
  submit-delivered fold choose id now size answer emails t es tick later k pos distinct ok valid
        fine served look_fine =
      let s = submit now size none answer emails (create now (length emails)) in
      let tasks = checked_tasks v ctx s.tasks in
      let total = total_of tasks in
      let ends = look tick ∷ write later ∷ [] in
      let (same, sized, waiting, status) =
        submit_ok now size none answer emails (create now (length emails)) pos ok in
      let (new, whole, active) = submit-new v ctx now size answer emails in
      let none_left =
        run-serves_tasks fold choose id total s.job t tasks es
          (tasks-checked s.tasks
            (subst (All (λ raw. (checked v ctx raw).1 ≡ none)) (sym same) valid))
          fine
          (subst (λ n. all_served n es ≡ true) (sym (length-map (map (checked v ctx)) s.tasks))
            served) in
      let c =
        submitted_run-IsCounted fold choose id s.job t tasks es
          (ap (λ d. d.processed) new ∙ delta_of-processed [])
          (whole ∙ sym (total_of-checked v ctx s.tasks ∙ ap length same)) (λ h. ground arith) in
      let over =
        ap (λ w. w.job.status)
          (run-append fold choose id total es ends (submitted total s.job t tasks))
        ∙ run-finishes fold choose id s.job t tasks es tick later (ground (arith, active)) fine
            look_fine (omega (arith, c.counted, none_left)) in
      let (counts, keys) =
        submit-completed v ctx fold choose id now size answer emails t (es ++ ends) k pos distinct
          ok over in
      (over, counts, keys)
