-- ===== src/Jobs/Lifecycle/Progress.antt =====
-- The counters of a job, over its tasks, its waiter and its operators.
use mailclear.Base.{
  ℕ, zero, suc, ◌+◌, ◌≤◌, ◌≡◌, refl, ap, ◌∙◌, ◌⊎◌, inl, List, [], ◌∷◌, Option, none, some, length,
  get_elem?, set, arith,
}
use mailclear.Text.{Text, lit}
use mailclear.Validation.Pipeline.{CtxError}
use mailclear.Validation.Types.{Email}
use mailclear.Jobs.Repo.{
  completed, ProgressDelta, Job, update_status, increment_progress, add_counts, set_last_error,
  cancel, force_fail, mark_stale_as_failed,
}
use mailclear.Jobs.Handler.{
  Validated, first_error, count_email, count_all, delta_of, Database, mark_job_failed,
}
use mailclear.Jobs.Results.{Item, Emails}
use mailclear.Jobs.Submit.{Tick, judge, wait_turn}
use mailclear.Jobs.Lifecycle.{
  Piece, queued, stored, counted, lost, writing, World, Event, insert, count, look, write,
  cancelled_at, forced_at, swept_at, emails_of, look_at, seen, on_piece, insert_results,
  insert_validated, insert_piece, count_results, count_piece, look_step, write_step, step,
}

-- the emails of a task that are not counted
unfoldable pub size : Piece → ℕ
size (queued vs) = length vs
size (stored es) = length es
size (counted _) = 0
size (lost n) = n

-- a sum over the tasks
unfoldable pub weigh : (Piece → ℕ) → List Piece → ℕ
weigh f [] = 0
weigh f (p ∷ ps) = f p + weigh f ps

abbrev pub left : List Piece → ℕ
left ps = weigh size ps

pub weigh-set :
    (f : Piece → ℕ) (ps : List Piece) (i : ℕ) (p q : Piece)
    → get_elem? ps i ≡ some p
    → weigh f (set ps i q) + f p ≡ weigh f ps + f q
unfolding weigh
weigh-set f [] i p q at = absurd (ground arith)
weigh-set f (x ∷ ps) zero p q at = ground arith
weigh-set f (x ∷ ps) (suc i) p q at = omega (arith, weigh-set f ps i p q at)

pub length-emails_of : (vs : List Validated) → length (emails_of vs) ≡ length vs
unfolding emails_of
length-emails_of [] = refl
length-emails_of (v ∷ vs) = ap suc (length-emails_of vs)

count_all-processed :
    (es : List Email) (d : ProgressDelta) → (count_all es d).processed ≡ d.processed
unfolding count_all count_email
count_all-processed [] d = refl
count_all-processed (e ∷ es) d =
    let rest = count_all-processed es (count_email e.status d) in
    let one : (count_email e.status d).processed ≡ d.processed = ground arith in rest ∙ one

pub delta_of-processed : (es : List Email) → (delta_of es).processed ≡ length es
unfolding delta_of
delta_of-processed es = count_all-processed es _

-- What one statement does to the emails that are not counted, and where a status `completed` comes from.
pub record Advances (total : ℕ) (w w' : World) : Type 0 where
  pub same : w'.job.counts.processed + left w'.pieces ≡ w.job.counts.processed + left w.pieces
  pub down : left w'.pieces ≤ left w.pieces
  pub fixed : w'.job.total ≡ w.job.total
  pub from : w'.job.status ≡ completed → (w.job.status ≡ completed) ⊎ (w.waiter ≡ writing completed)
  pub read :
      w'.waiter ≡ writing completed
      → (w.waiter ≡ writing completed) ⊎ (total ≤ w.job.counts.processed)

mark_job_failed-keeps :
    (db : Database) (phase cause : Text) (j : Job)
    → let j' = mark_job_failed db.now db.reached phase cause j in
      (j'.counts ≡ j.counts) × (j'.total ≡ j.total) × (j'.status ≡ completed → j.status ≡ completed)
unfolding mark_job_failed update_status set_last_error
mark_job_failed-keeps db phase cause j = ground arith

-- a statement of a task that takes piece `p` to `q`
set-Advances :
    {total : ℕ} (w : World) (i : ℕ) (p q : Piece) (j : Job) (t : Emails)
    → get_elem? w.pieces i ≡ some p
    → j.counts.processed + size q ≡ w.job.counts.processed + size p
    → size q ≤ size p
    → j.total ≡ w.job.total
    → (j.status ≡ completed → w.job.status ≡ completed)
    → Advances total w (record { job = j; table = t; pieces = set w.pieces i q; waiter = w.waiter })
set-Advances w i p q j t at moved le fixed from = record {
  same = omega (arith, weigh-set size w.pieces i p q at, moved);
  down = omega (arith, weigh-set size w.pieces i p q at);
  fixed = fixed;
  from = λ h. inl (from h);
  read = λ h. inl h;
}

refl-Advances : {total : ℕ} (w : World) → Advances total w w
refl-Advances w = record {
  same = refl;
  down = omega arith;
  fixed = refl;
  from = λ h. inl h;
  read = λ h. inl h;
}

module _ (fold : Text → Text) (choose : List Item → List Item) (id : Text) {total : ℕ} (i : ℕ)
    (db : Database) (w : World) where
  insert_results-Advances :
      (p : Piece) (err : Option Text) (es : List Email)
      → get_elem? w.pieces i ≡ some p
      → length es ≡ size p
      → Advances total w (insert_results fold choose id i db err es w)
  unfolding insert_results size
  insert_results-Advances p (some err) es at e =
      let (same, fixed, from) = mark_job_failed-keeps db (lit "bulk_insert") err w.job in
      set-Advances w i p (lost (length es)) _ w.table at (ground (arith)) (omega (arith, e)) fixed
        from
  insert_results-Advances p none es at e =
      set-Advances w i p (stored es) w.job _ at (omega (arith, e)) (omega (arith, e)) refl (λ h. h)

  insert_validated-Advances :
      (p : Piece) (err : Option CtxError) (es : List Email)
      → get_elem? w.pieces i ≡ some p
      → length es ≡ size p
      → Advances total w (insert_validated fold choose id i db err es w)
  unfolding insert_validated size
  insert_validated-Advances p (some err) es at e =
      set-Advances w i p (lost (length es)) w.job w.table at (omega (arith, e)) (omega (arith, e))
        refl (λ h. h)
  insert_validated-Advances p none es at e = insert_results-Advances p db.insert_err es at e

  insert_piece-Advances :
      (p : Piece)
      → get_elem? w.pieces i ≡ some p
      → Advances total w (insert_piece fold choose id i db p w)
  unfolding insert_piece size
  insert_piece-Advances (queued []) at =
      set-Advances w i (queued []) (counted []) w.job w.table at refl (omega arith) refl (λ h. h)
  insert_piece-Advances (queued (v ∷ vs)) at =
      insert_validated-Advances (queued (v ∷ vs)) (first_error (v ∷ vs)) (emails_of (v ∷ vs)) at
        (length-emails_of (v ∷ vs))
  insert_piece-Advances (stored es) at = refl-Advances w
  insert_piece-Advances (counted es) at = refl-Advances w
  insert_piece-Advances (lost n) at = refl-Advances w

  count_results-Advances :
      (err : Option Text) (es : List Email)
      → get_elem? w.pieces i ≡ some (stored es)
      → Advances total w (count_results fold choose id i db err es w)
  unfolding count_results size increment_progress add_counts
  count_results-Advances (some err) es at =
      let (same, fixed, from) = mark_job_failed-keeps db (lit "increment_progress") err w.job in
      set-Advances w i (stored es) (lost (length es)) _ w.table at (ground arith) (omega arith)
        fixed from
  count_results-Advances none es at =
      set-Advances w i (stored es) (counted es) _ w.table at (omega (arith, delta_of-processed es))
        (omega arith) refl (λ h. h)

  count_piece-Advances :
      (p : Piece)
      → get_elem? w.pieces i ≡ some p
      → Advances total w (count_piece fold choose id i db p w)
  unfolding count_piece
  count_piece-Advances (queued vs) at = refl-Advances w
  count_piece-Advances (stored es) at = count_results-Advances db.progress_err es at
  count_piece-Advances (counted es) at = refl-Advances w
  count_piece-Advances (lost n) at = refl-Advances w

look_at-completed :
    (total : ℕ) (t : Tick) (got : Option Job) (j : Job)
    → look_at total (record t { got = seen got j }) ≡ writing completed
    → total ≤ j.counts.processed
unfolding look_at wait_turn judge seen
look_at-completed total t none j h = ground arith
look_at-completed total t (some _) j h = ground arith

look_step-Advances : {total : ℕ} (t : Tick) (w : World) → Advances total w (look_step total t w)
unfolding look_step
look_step-Advances {total} t w = ground (arith, look_at-completed total t t.got w.job)

write_step-Advances : {total : ℕ} (now : ℕ) (w : World) → Advances total w (write_step now w)
unfolding write_step update_status
write_step-Advances now w = ground arith

on_piece-Advances :
    {total : ℕ} (o : Option Piece) (f : Piece → World → World) (w : World)
    → ((p : Piece) → o ≡ some p → Advances total w (f p w))
    → Advances total w (on_piece o f w)
unfolding on_piece
on_piece-Advances none f w each = refl-Advances w
on_piece-Advances (some p) f w each = each p refl

pub step-Advances :
    (fold : Text → Text) (choose : List Item → List Item) (id : Text) (total : ℕ) (e : Event)
    (w : World)
    → Advances total w (step fold choose id total e w)
unfolding step cancel force_fail mark_stale_as_failed
step-Advances fold choose id total (insert i db) w =
    on_piece-Advances (get_elem? w.pieces i) _ w (insert_piece-Advances fold choose id i db w)
step-Advances fold choose id total (count i db) w =
    on_piece-Advances (get_elem? w.pieces i) _ w (count_piece-Advances fold choose id i db w)
step-Advances fold choose id total (look t) w = look_step-Advances t w
step-Advances fold choose id total (write now) w = write_step-Advances now w
step-Advances fold choose id total (cancelled_at now) w = ground arith
step-Advances fold choose id total (forced_at now reason) w = ground arith
step-Advances fold choose id total (swept_at now after) w = ground arith
