-- ===== src/Jobs/Lifecycle/Exact.antt =====
-- The counters of a job that is completed.
use mailclear.Base.{
  ℕ, ◌+◌, ◌≡◌, ◌≢◌, refl, sym, ap, ◌∙◌, ◌++◌, length-append, List, [], ◌∷◌, map, length, get_elem?,
  arith,
}
use mailclear.Text.{Text}
use mailclear.Jobs.Repo.{ProgressDelta, Job, completed, add_counts}
use mailclear.Jobs.Handler.{Validated, delta_of, count_all, count_email}
use mailclear.Validation.Types.{Status, Email}
use mailclear.Jobs.Results.{Item, Row, Emails}
use mailclear.Jobs.Results.Batches.{IsDistinctOn}
use mailclear.Jobs.Lifecycle.{
  Piece, queued, stored, counted, lost, World, Event, insert, count, look, write, cancelled_at,
  forced_at, swept_at, emails_of, step, run, submitted,
}
use mailclear.Jobs.Lifecycle.Progress.{size, weigh, left}
use mailclear.Jobs.Lifecycle.Counted.{total_of, submitted_run-IsCounted}
use mailclear.Jobs.Lifecycle.Rows.{Fits, AllFit}
use mailclear.Jobs.Lifecycle.Completed.{submitted_run-AllFit}
use mailclear.Jobs.Lifecycle.Counters.{
  IsCounter, credit, Credits, on_piece-Credits, insert_piece-Credits, count_piece-Credits,
  kept-Credits, look_step-counts, write_step-counts, operator-counts,
}

-- the counters of all emails of the tasks
unfoldable pub counts_of : List (List Validated) → ProgressDelta
unfolding add_counts delta_of
counts_of [] = delta_of []
counts_of (vs ∷ tasks) = add_counts (delta_of (emails_of vs)) (counts_of tasks)

-- the six counters
is_processed : IsCounter (λ d. d.processed)
unfolding add_counts delta_of count_all
is_processed = record { add = λ c d. refl; nothing = refl }

is_valid : IsCounter (λ d. d.valid)
unfolding add_counts delta_of count_all
is_valid = record { add = λ c d. refl; nothing = refl }

is_invalid : IsCounter (λ d. d.invalid)
unfolding add_counts delta_of count_all
is_invalid = record { add = λ c d. refl; nothing = refl }

is_risky : IsCounter (λ d. d.risky)
unfolding add_counts delta_of count_all
is_risky = record { add = λ c d. refl; nothing = refl }

is_unknown : IsCounter (λ d. d.unknown)
unfolding add_counts delta_of count_all
is_unknown = record { add = λ c d. refl; nothing = refl }

is_disposable : IsCounter (λ d. d.disposable)
unfolding add_counts delta_of count_all
is_disposable = record { add = λ c d. refl; nothing = refl }

module _ (fold : Text → Text) (choose : List Item → List Item) (id : Text) where
  module _ (f : ProgressDelta → ℕ) (is_counter : IsCounter f) where
    step-Credits :
        (total : ℕ) (e : Event) (w : World) → Credits f is_counter w (step fold choose id total e w)
    unfolding step
    step-Credits total (insert i db) w =
        on_piece-Credits f is_counter (get_elem? w.pieces i) _ w
          (insert_piece-Credits f is_counter fold choose id i db w)
    step-Credits total (count i db) w =
        on_piece-Credits f is_counter (get_elem? w.pieces i) _ w
          (count_piece-Credits f is_counter fold choose id i db w)
    step-Credits total (look t) w = kept-Credits f is_counter w _ (look_step-counts total t w)
    step-Credits total (write now) w = kept-Credits f is_counter w _ (write_step-counts now w)
    step-Credits total (cancelled_at now) w =
        kept-Credits f is_counter w _ ((operator-counts now 0 [] w.job).0, refl)
    step-Credits total (forced_at now reason) w =
        kept-Credits f is_counter w _ ((operator-counts now 0 reason w.job).1, refl)
    step-Credits total (swept_at now after) w =
        kept-Credits f is_counter w _ ((operator-counts now after [] w.job).2, refl)

    run-Credits :
        (total : ℕ) (es : List Event) (w : World)
        → Credits f is_counter w (run fold choose id total es w)
    unfolding run Credits
    run-Credits total [] w = refl
    run-Credits total (e ∷ es) w =
        omega (arith, step-Credits total e w, run-Credits total es (step fold choose id total e w))

    credit-queued :
        (tasks : List (List Validated)) → weigh (credit f is_counter) (map queued tasks) ≡ 0
    unfolding weigh credit
    credit-queued [] = refl
    credit-queued (vs ∷ tasks) = omega (arith, credit-queued tasks)

    credit-Fits :
        (rows : List Row) (vs : List Validated) (p : Piece)
        → size p ≡ 0
        → Fits fold id rows vs p
        → credit f is_counter p ≡ f (delta_of (emails_of vs))
    unfolding size credit emails_of
    credit-Fits rows vs (counted es) done fit = ap (λ l. f (delta_of l)) fit.0
    credit-Fits rows [] (queued us) done fit = sym is_counter.nothing
    credit-Fits rows [] (stored es) done fit = sym is_counter.nothing
    credit-Fits rows [] (lost n) done fit = sym is_counter.nothing
    credit-Fits rows (v ∷ vs) (queued us) done fit = absurd (omega (arith, done, ap length fit))
    credit-Fits rows (v ∷ vs) (stored es) done fit = absurd (omega (arith, done, ap length fit.0))
    credit-Fits rows (v ∷ vs) (lost n) done fit = absurd (omega (arith, done, fit))

    credit-AllFit :
        (rows : List Row) (tasks : List (List Validated)) (ps : List Piece)
        → left ps ≡ 0
        → AllFit fold id rows tasks ps
        → weigh (credit f is_counter) ps ≡ f (counts_of tasks)
    unfolding weigh counts_of
    credit-AllFit rows [] [] done fit = sym is_counter.nothing
    credit-AllFit rows [] (p ∷ ps) done fit = absurd fit
    credit-AllFit rows (vs ∷ tasks) [] done fit = absurd fit
    credit-AllFit rows (vs ∷ tasks) (p ∷ ps) done fit = omega (
      arith,
      credit-Fits rows vs p (omega (arith, done)) fit.0,
      credit-AllFit rows tasks ps (omega (arith, done)) fit.1,
      is_counter.add (delta_of (emails_of vs)) (counts_of tasks),
    )

    completed-counter :
        (j : Job) (t : Emails) (tasks : List (List Validated)) (es : List Event)
        → ((items : List Item) → IsDistinctOn fold items (choose items))
        → f j.counts ≡ 0
        → left
            (run fold choose id (total_of tasks) es (submitted (total_of tasks) j t tasks)).pieces
          ≡ 0
        → f
            (run fold choose id
              (total_of tasks)
              es
              (submitted (total_of tasks) j t tasks)).job.counts
          ≡ f (counts_of tasks)
    unfolding submitted Credits
    completed-counter j t tasks es distinct new done =
        let w0 = submitted (total_of tasks) j t tasks in
        let w = run fold choose id (total_of tasks) es w0 in
        let fit = submitted_run-AllFit fold id choose j t tasks es distinct in
        omega (
          arith,
          run-Credits (total_of tasks) es w0,
          credit-queued tasks,
          credit-AllFit w.table.rows tasks w.pieces done fit,
          new,
        )

  -- If a new job, whose total is the number of the emails of its tasks, is completed, its counters are
  -- those of all emails of its tasks, processed and by status, whatever the order in which the tasks, the
  -- waiter and the operators wrote and whatever failed.
  pub completed-counts :
      (j : Job) (t : Emails) (tasks : List (List Validated)) (es : List Event)
      → ((items : List Item) → IsDistinctOn fold items (choose items))
      → j.counts ≡ delta_of []
      → j.total ≡ total_of tasks
      → j.status ≢ completed
      → (run fold choose id (total_of tasks) es (submitted (total_of tasks) j t tasks)).job.status
        ≡ completed
      → (run fold choose id (total_of tasks) es (submitted (total_of tasks) j t tasks)).job.counts
        ≡ counts_of tasks
  completed-counts j t tasks es distinct new whole active over =
      let zero_of = λ (f : ProgressDelta → ℕ) (c : IsCounter f). ap f new ∙ c.nothing in
      let c =
        submitted_run-IsCounted fold choose id j t tasks es (zero_of _ is_processed) whole active in
      let done = c.finished over in
      let counter = λ (f : ProgressDelta → ℕ) (k : IsCounter f).
        completed-counter f k j t tasks es distinct (zero_of f k) done in
      let processed = counter _ is_processed in
      let valid = counter _ is_valid in
      let invalid = counter _ is_invalid in
      let risky = counter _ is_risky in
      let unknown = counter _ is_unknown in let disposable = counter _ is_disposable in ground arith

-- the counters that `delta_of` starts with
abbrev start : ℕ → ProgressDelta
start n = record { processed = n; valid = 0; invalid = 0; risky = 0; unknown = 0; disposable = 0 }

count_email-add :
    (s : Status) (c d : ProgressDelta)
    → (count_email s (add_counts c d) ≡ add_counts (count_email s c) d)
      × (count_email s (add_counts c d) ≡ add_counts c (count_email s d))
unfolding count_email add_counts
count_email-add s c d = ground arith

count_all-add :
    (es : List Email) (c d : ProgressDelta)
    → (count_all es (add_counts c d) ≡ add_counts (count_all es c) d)
      × (count_all es (add_counts c d) ≡ add_counts c (count_all es d))
unfolding count_all
count_all-add [] c d = (refl, refl)
count_all-add (e ∷ es) c d =
    let (left_one, right_one) = count_email-add e.status c d in
    (
      ap (count_all es) left_one ∙ (count_all-add es (count_email e.status c) d).0,
      ap (count_all es) right_one ∙ (count_all-add es c (count_email e.status d)).1,
    )

count_all-append :
    (es fs : List Email) (d : ProgressDelta)
    → count_all (es ++ fs) d ≡ count_all fs (count_all es d)
unfolding count_all
count_all-append [] fs d = refl
count_all-append (e ∷ es) fs d = count_all-append es fs (count_email e.status d)

start-add : (m n : ℕ) → start (m + n) ≡ add_counts (start m) (start n)
unfolding add_counts
start-add m n = ground arith

-- The counters of two lists of emails together are the sums of their counters.
pub delta_of-append :
    (es fs : List Email) → delta_of (es ++ fs) ≡ add_counts (delta_of es) (delta_of fs)
unfolding delta_of
delta_of-append es fs =
    let m = length es in
    let n = length fs in
    count_all-append es fs (start (length (es ++ fs)))
    ∙ ap (λ k. count_all fs (count_all es (start k))) (length-append es fs)
    ∙ ap (λ d. count_all fs (count_all es d)) (start-add m n)
    ∙ ap (count_all fs) (count_all-add es (start m) (start n)).0
    ∙ (count_all-add fs (count_all es (start m)) (start n)).1
