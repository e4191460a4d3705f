-- ===== src/Jobs/Lifecycle/Counted.antt =====
-- The emails of a job that are counted, over any statements.
use mailclear.Base.{ℕ, ◌+◌, ◌≡◌, refl, ap, ◌∙◌, ◌≢◌, inl, inr, List, [], ◌∷◌, map, length, arith}
use mailclear.Text.{Text}
use mailclear.Jobs.Repo.{completed, Job}
use mailclear.Jobs.Handler.{Validated}
use mailclear.Jobs.Results.{Item, Emails}
use mailclear.Jobs.Lifecycle.{queued, writing, World, Event, step, run, submitted}
use mailclear.Jobs.Lifecycle.Progress.{size, weigh, left, Advances, step-Advances}

-- Every email of the job is counted or belongs to a task that is not; a job is completed, and the waiter
-- decides on it, only where all are counted.
pub record IsCounted (total : ℕ) (w : World) : Type 0 where
  pub counted : w.job.counts.processed + left w.pieces ≡ total
  pub fixed : w.job.total ≡ total
  pub decided : w.waiter ≡ writing completed → left w.pieces ≡ 0
  pub finished : w.job.status ≡ completed → left w.pieces ≡ 0

Advances-IsCounted :
    {total : ℕ} {w w' : World} → Advances total w w' → IsCounted total w → IsCounted total w'
Advances-IsCounted a c = record {
  counted = omega (arith, a.same, c.counted);
  fixed = a.fixed ∙ c.fixed;
  decided = λ h. elim (a.read h) [
    | inl d ↦ omega (arith, a.down, c.decided d)
    | inr le ↦ omega (arith, a.down, a.same, c.counted)
  ];
  finished = λ h. elim (a.from h) [
    | inl d ↦ omega (arith, a.down, c.finished d)
    | inr d ↦ omega (arith, a.down, c.decided d)
  ];
}

run-IsCounted :
    (fold : Text → Text) (choose : List Item → List Item) (id : Text) (total : ℕ) (es : List Event)
    (w : World)
    → IsCounted total w
    → IsCounted total (run fold choose id total es w)
unfolding run
run-IsCounted fold choose id total [] w c = c
run-IsCounted fold choose id total (e ∷ es) w c =
    run-IsCounted fold choose id total es (step fold choose id total e w)
      (Advances-IsCounted (step-Advances fold choose id total e w) c)

-- the emails of the tasks
unfoldable pub total_of : List (List Validated) → ℕ
total_of [] = 0
total_of (vs ∷ tasks) = length vs + total_of tasks

left-queued : (tasks : List (List Validated)) → left (map queued tasks) ≡ total_of tasks
unfolding weigh size total_of
left-queued [] = refl
left-queued (vs ∷ tasks) = ap (λ n. length vs + n) (left-queued tasks)

submitted-IsCounted :
    (j : Job) (t : Emails) (tasks : List (List Validated))
    → j.counts.processed ≡ 0
    → j.total ≡ total_of tasks
    → j.status ≢ completed
    → IsCounted (total_of tasks) (submitted (total_of tasks) j t tasks)
unfolding submitted
submitted-IsCounted j t tasks new whole active = record {
  counted = omega (arith, left-queued tasks, new);
  fixed = whole;
  decided = λ h. ground (arith, left-queued tasks);
  finished = λ h. absurd (active h);
}

pub submitted_run-IsCounted :
    (fold : Text → Text) (choose : List Item → List Item) (id : Text) (j : Job) (t : Emails)
    (tasks : List (List Validated)) (es : List Event)
    → j.counts.processed ≡ 0
    → j.total ≡ total_of tasks
    → j.status ≢ completed
    → IsCounted
        (total_of tasks)
        (run fold choose id (total_of tasks) es (submitted (total_of tasks) j t tasks))
submitted_run-IsCounted fold choose id j t tasks es new whole active =
    run-IsCounted fold choose id (total_of tasks) es (submitted (total_of tasks) j t tasks)
      (submitted-IsCounted j t tasks new whole active)
