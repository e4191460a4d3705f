-- ===== src/Jobs/Lifecycle/Ended.antt =====
-- A job that was cancelled, forced to fail or swept while its tasks go on.
use mailclear.Base.{
  ℕ, ◌≡◌, ◌≢◌, refl, sym, ap, ◌∙◌, subst, ◌⊎◌, inl, inr, true, List, [], ◌∷◌, Option, none, some,
  get_elem?, arith,
}
use mailclear.Text.{Text}
use mailclear.Validation.Types.{Email}
use mailclear.Validation.Pipeline.{CtxError}
use mailclear.Jobs.Repo.{
  JobStatus, completed, failed, Job, is_over, update_status, set_last_error, increment_progress,
  cancel, force_fail, mark_stale_as_failed,
}
use mailclear.Jobs.Handler.{first_error, Database, mark_job_failed}
use mailclear.Jobs.Results.{Item}
use mailclear.Jobs.Submit.{Tick, judge, wait_turn}
use mailclear.Jobs.Lifecycle.{
  Piece, queued, stored, counted, lost, writing, World, Event, insert, count, look, write,
  cancelled_at, forced_at, swept_at, emails_of, look_at, seen, on_piece, insert_results,
  insert_validated, insert_piece, count_results, count_piece, look_step, write_step, step, run,
}
use mailclear.Jobs.Lifecycle.Waiters.{Waiter-cases, write_step-writes, write_step-skips}

-- The job is over without being completed, and the waiter has not decided on another status.
pub record IsEnded (w : World) : Type 0 where
  pub over : is_over w.job.status ≡ true
  pub open_end : w.job.status ≢ completed
  pub decided : (s : JobStatus) → w.waiter ≡ writing s → s ≡ failed

-- the status is kept or failed, and the waiter is kept
record Ends (w w' : World) : Type 0 where
  status : (w'.job.status ≡ w.job.status) ⊎ (w'.job.status ≡ failed)
  waiter : w'.waiter ≡ w.waiter

Ends-IsEnded : (w w' : World) → Ends w w' → IsEnded w → IsEnded w'
unfolding is_over
Ends-IsEnded w w' e h = record {
  over = elim e.status [ inl same ↦ ap is_over same ∙ h.over | inr fail ↦ ap is_over fail ];
  open_end = λ c. elim e.status [
    | inl same ↦ h.open_end (sym same ∙ c)
    | inr fail ↦ absurd (ground arith)
  ];
  decided = λ s d. h.decided s (sym e.waiter ∙ d);
}

refl-Ends : (w : World) → Ends w w
refl-Ends w = record { status = inl refl; waiter = refl }

mark_job_failed-status :
    (db : Database) (phase cause : Text) (j : Job)
    → let j' = mark_job_failed db.now db.reached phase cause j in
      (j'.status ≡ j.status) ⊎ (j'.status ≡ failed)
unfolding mark_job_failed update_status set_last_error
mark_job_failed-status db phase cause j = ground arith

module _ (fold : Text → Text) (choose : List Item → List Item) (id : Text) (i : ℕ) (db : Database)
    (w : World) where
  insert_results-Ends :
      (err : Option Text) (es : List Email) → Ends w (insert_results fold choose id i db err es w)
  unfolding insert_results
  insert_results-Ends (some e) es = record {
    status = mark_job_failed-status db _ e w.job;
    waiter = refl;
  }
  insert_results-Ends none es = record { status = inl refl; waiter = refl }

  insert_validated-Ends :
      (err : Option CtxError) (es : List Email)
      → Ends w (insert_validated fold choose id i db err es w)
  unfolding insert_validated
  insert_validated-Ends (some e) es = record { status = inl refl; waiter = refl }
  insert_validated-Ends none es = insert_results-Ends db.insert_err es

  insert_piece-Ends : (p : Piece) → Ends w (insert_piece fold choose id i db p w)
  unfolding insert_piece
  insert_piece-Ends (queued []) = record { status = inl refl; waiter = refl }
  insert_piece-Ends (queued (v ∷ vs)) =
      insert_validated-Ends (first_error (v ∷ vs)) (emails_of (v ∷ vs))
  insert_piece-Ends (stored es) = refl-Ends w
  insert_piece-Ends (counted es) = refl-Ends w
  insert_piece-Ends (lost n) = refl-Ends w

  count_results-Ends :
      (err : Option Text) (es : List Email) → Ends w (count_results fold choose id i db err es w)
  unfolding count_results increment_progress
  count_results-Ends (some e) es = record {
    status = mark_job_failed-status db _ e w.job;
    waiter = refl;
  }
  count_results-Ends none es = record { status = inl refl; waiter = refl }

  count_piece-Ends : (p : Piece) → Ends w (count_piece fold choose id i db p w)
  unfolding count_piece
  count_piece-Ends (queued vs) = refl-Ends w
  count_piece-Ends (stored es) = count_results-Ends db.progress_err es
  count_piece-Ends (counted es) = refl-Ends w
  count_piece-Ends (lost n) = refl-Ends w

on_piece-IsEnded :
    (o : Option Piece) (f : Piece → World → World) (w : World)
    → ((p : Piece) → Ends w (f p w))
    → IsEnded w
    → IsEnded (on_piece o f w)
unfolding on_piece
on_piece-IsEnded none f w ends h = h
on_piece-IsEnded (some p) f w ends h = Ends-IsEnded w (f p w) (ends p) h

-- the waiter reads a job that is over, or an error
look_at-over :
    (total : ℕ) (t : Tick) (o : Option Job) (j : Job) (s : JobStatus)
    → is_over j.status ≡ true
    → look_at total (record t { got = seen o j }) ≡ writing s
    → s ≡ failed
unfolding look_at wait_turn judge seen is_over
look_at-over total t none j s over e = ground arith
look_at-over total t (some _) j s over e = ground arith

look_step-IsEnded : (total : ℕ) (t : Tick) (w : World) → IsEnded w → IsEnded (look_step total t w)
unfolding look_step
look_step-IsEnded total t w h = record {
  over = ground (arith, h.over);
  open_end = λ c. h.open_end (ground arith);
  decided = λ s d. ground (arith, h.decided s, look_at-over total t t.got w.job s h.over);
}

write_step-IsEnded : (now : ℕ) (w : World) → IsEnded w → IsEnded (write_step now w)
unfolding is_over
write_step-IsEnded now w h = elim (Waiter-cases w.waiter) [
  | inl e ↦ subst IsEnded (sym (write_step-skips now w (inl e))) h
  | inr (inl (s, e)) ↦
      let (status, out) = write_step-writes now w s e in
      let fail : (write_step now w).job.status ≡ failed = status ∙ h.decided s e in
      record {
        over = ap is_over fail;
        open_end = λ c. absurd (ground arith);
        decided = λ st d. absurd (ground arith);
      }
  | inr (inr e) ↦ subst IsEnded (sym (write_step-skips now w (inr e))) h
]

-- an operator leaves a job that is over as it is
operator-kept :
    (now after : ℕ) (reason : Text) (j : Job)
    → is_over j.status ≡ true
    → (cancel now j ≡ j)
      × ((force_fail now reason j).1 ≡ j)
      × (mark_stale_as_failed now after j ≡ j)
unfolding cancel force_fail mark_stale_as_failed is_over
operator-kept now after reason j over = ground arith

operator-IsEnded : (w : World) (j : Job) → j ≡ w.job → IsEnded w → IsEnded (record w { job = j })
operator-IsEnded w j same h =
    subst (λ k. IsEnded (record w { job = k })) (sym same)
      (record { over = h.over; open_end = h.open_end; decided = h.decided })

step-IsEnded :
    (fold : Text → Text) (choose : List Item → List Item) (id : Text) (total : ℕ) (e : Event)
    (w : World)
    → IsEnded w
    → IsEnded (step fold choose id total e w)
unfolding step
step-IsEnded fold choose id total (insert i db) w h =
    on_piece-IsEnded (get_elem? w.pieces i) _ w (insert_piece-Ends fold choose id i db w) h
step-IsEnded fold choose id total (count i db) w h =
    on_piece-IsEnded (get_elem? w.pieces i) _ w (count_piece-Ends fold choose id i db w) h
step-IsEnded fold choose id total (look t) w h = look_step-IsEnded total t w h
step-IsEnded fold choose id total (write now) w h = write_step-IsEnded now w h
step-IsEnded fold choose id total (cancelled_at now) w h =
    operator-IsEnded w _ (operator-kept now 0 [] w.job h.over).0 h
step-IsEnded fold choose id total (forced_at now reason) w h =
    operator-IsEnded w _ (operator-kept now 0 reason w.job h.over).1 h
step-IsEnded fold choose id total (swept_at now after) w h =
    operator-IsEnded w _ (operator-kept now after [] w.job h.over).2 h

-- A job that was cancelled, forced to fail or swept, before the waiter had decided to complete it, stays
-- over and never becomes completed, whatever its tasks, its waiter and the operators write after that.
pub run-IsEnded :
    (fold : Text → Text) (choose : List Item → List Item) (id : Text) (total : ℕ) (es : List Event)
    (w : World)
    → IsEnded w
    → IsEnded (run fold choose id total es w)
unfolding run
run-IsEnded fold choose id total [] w h = h
run-IsEnded fold choose id total (e ∷ es) w h =
    run-IsEnded fold choose id total es (step fold choose id total e w)
      (step-IsEnded fold choose id total e w h)
