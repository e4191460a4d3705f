-- ===== src/Jobs/Submit/Chunks.antt =====
-- What the pool gets from `Submit` of internal/jobs/manager.go.
use mailclear.Base.{
  ℕ, zero, suc, ◌≤◌, ◌≡◌, ◌≢◌, refl, ap, sym, subst, ◌∙◌, true, false, List, [], ◌∷◌, ◌++◌, Option,
  none, some, length, take, drop, length-take, length-drop, take-append-drop, All, arith,
}
use mailclear.Text.{Text}
use mailclear.Importer.Batcher.Batches.{concat, IsSized}
use mailclear.Jobs.Repo.{Job, running, update_status}
use mailclear.Jobs.Submit.{chunks, enqueue, submit}

pub concat-chunks :
    (fuel size : ℕ) (es : List Text)
    → 1 ≤ size
    → length es ≤ fuel
    → concat (chunks fuel size es) ≡ es
unfolding chunks
concat-chunks zero size [] pos enough = refl
concat-chunks zero size (e ∷ es) pos enough = absurd (omega arith)
concat-chunks (suc n) size [] pos enough = refl
concat-chunks (suc n) size (e ∷ es) pos enough =
    ap (λ l. take size (e ∷ es) ++ l)
      (concat-chunks n size (drop size (e ∷ es)) pos (omega (arith, length-drop size (e ∷ es))))
    ∙ take-append-drop size (e ∷ es)

chunks-IsSized :
    (fuel size : ℕ) (es : List Text) → 1 ≤ size → All (IsSized size) (chunks fuel size es)
unfolding chunks
chunks-IsSized zero size es pos = tt
chunks-IsSized (suc n) size [] pos = tt
chunks-IsSized (suc n) size (e ∷ es) pos = (
  (omega (arith, length-take size (e ∷ es)), omega (arith, length-take size (e ∷ es))),
  chunks-IsSized n size (drop size (e ∷ es)) pos,
)

enqueue-all :
    (answer : ℕ → Option Text) (k : ℕ) (tasks : List (List Text))
    → (enqueue answer k tasks).1 ≡ none
    → (enqueue answer k tasks).0 ≡ tasks
unfolding enqueue
enqueue-all answer k [] ok = refl
enqueue-all answer k (t ∷ ts) ok = let ih = enqueue-all answer (suc k) ts in ground arith

-- If `Submit` returns no error, the tasks put together are the emails in order, every task has from 1
-- email to as many as the batch size, the job runs, and a waiter watches it.
pub submit_ok :
    (now size : ℕ) (status_err : Option Text) (answer : ℕ → Option Text) (emails : List Text)
    (j : Job)
    → 1 ≤ size
    → (submit now size status_err answer emails j).err ≡ none
    → let s = submit now size status_err answer emails j in
      (concat s.tasks ≡ emails)
      × All (IsSized size) s.tasks
      × (s.waiting ≡ true)
      × (s.job.status ≡ running)
unfolding submit update_status
submit_ok now size (some err) answer emails j pos ok = absurd (ground arith)
submit_ok now size none answer emails j pos ok =
    let all = enqueue-all answer 0 (chunks (length emails) size emails) ok in
    (
      ap concat all ∙ concat-chunks (length emails) size emails pos (omega arith),
      subst (All (IsSized size)) (sym all) (chunks-IsSized (length emails) size emails pos),
      ground arith,
      refl,
    )

-- If the status is written and then the pool refuses a task, `Submit` returns the error with the job
-- running and no waiter, which alone would ever end it.
pub submit_refused :
    (now size : ℕ) (answer : ℕ → Option Text) (emails : List Text) (j : Job)
    → (submit now size none answer emails j).err ≢ none
    → let s = submit now size none answer emails j in (s.job.status ≡ running) × (s.waiting ≡ false)
unfolding submit update_status
submit_refused now size answer emails j refused = ground arith
