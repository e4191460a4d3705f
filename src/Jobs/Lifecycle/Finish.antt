-- ===== src/Jobs/Lifecycle/Finish.antt =====
-- A job whose tasks all succeed.
use mailclear.Base.{
  ℕ, ◌≤◌, ◌≡◌, ◌≢◌, ap, ◌∙◌, ◌⊎◌, inl, inr, false, List, [], ◌∷◌, none, All, arith,
}
use mailclear.Text.{Text}
use mailclear.Jobs.Repo.{completed, Job, is_over}
use mailclear.Jobs.Handler.{Validated}
use mailclear.Jobs.Results.{Item, Emails}
use mailclear.Jobs.Submit.{Tick}
use mailclear.Jobs.Lifecycle.{
  writing, gone, World, Event, look, write, look_step, step, run, submitted,
}
use mailclear.Jobs.Lifecycle.Counted.{total_of}
use mailclear.Jobs.Lifecycle.Waiters.{Waiter-cases, write_step-writes, write_step-skips}
use mailclear.Jobs.Lifecycle.Fine.{
  IsFine, IsOn, run-IsOn, submitted-IsOn, look_at-active, look_at-over, seen-some,
}

-- what the waiter does when all emails are processed
look_step-all :
    (total : ℕ) (t : Tick) (w : World)
    → t.late ≡ false
    → t.got ≢ none
    → total ≤ w.job.counts.processed
    → IsOn w
    → let w' = look_step total t w in
      (w'.waiter ≡ writing completed) ⊎ ((w'.waiter ≡ gone) × (w'.job.status ≡ completed))
unfolding look_step
look_step-all total t w late got all h = elim (Waiter-cases w.waiter) [
  | inl e ↦ ground (
    arith,
    h.status,
    seen-some t.got w.job got,
    look_at-active total t w.job late,
    look_at-over total t w.job late,
  )
  | inr (inl (s, e)) ↦ let over = h.writes s e in ground arith
  | inr (inr e) ↦ let over = h.left_it e in ground arith
]

-- A job that is not over: if no insertion, counting or look of its waiter fails, no tick is late and no
-- operator interferes, then, in any order of the statements, once all the emails of its tasks are
-- processed, the next look of the waiter and what it writes leave the job completed.
pub run-finishes :
    (fold : Text → Text) (choose : List Item → List Item) (id : Text) (j : Job) (t : Emails)
    (tasks : List (List Validated)) (es : List Event) (tick : Tick) (now : ℕ)
    → is_over j.status ≡ false
    → All IsFine es
    → IsFine (look tick)
    → total_of tasks
      ≤ (run fold choose id
          (total_of tasks)
          es
          (submitted (total_of tasks) j t tasks)).job.counts.processed
    → (run fold choose id
        (total_of tasks)
        (look tick ∷ write now ∷ [])
        (run fold choose id (total_of tasks) es (submitted (total_of tasks) j t tasks))).job.status
      ≡ completed
unfolding run step
run-finishes fold choose id j t tasks es tick now on fine look_fine all =
    let total = total_of tasks in
    let w = run fold choose id total es (submitted total j t tasks) in
    let h =
      run-IsOn fold choose id total es (submitted total j t tasks) fine
        (submitted-IsOn total j t tasks on) in
    let w' = look_step total tick w in
    elim (look_step-all total tick w look_fine.0 look_fine.1 all h) [
      | inl e ↦ (write_step-writes now w' completed e).0
      | inr (e, over) ↦ ap (λ v. v.job.status) (write_step-skips now w' (inr e)) ∙ over
    ]
