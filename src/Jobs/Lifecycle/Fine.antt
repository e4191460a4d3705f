-- ===== src/Jobs/Lifecycle/Fine.antt =====
-- A job while its statements succeed and no operator interferes.
use mailclear.Base.{
  ℕ, ◌≡◌, ◌≢◌, refl, subst, sym, ◌∙◌, ◌⊎◌, inl, inr, false, List, [], ◌∷◌, Option, none, some, leb,
  get_elem?, All, arith, if◌then◌else◌,
}
use mailclear.Text.{Text}
use mailclear.Validation.Types.{Email}
use mailclear.Validation.Pipeline.{CtxError}
use mailclear.Jobs.Repo.{JobStatus, completed, Job, is_over, increment_progress}
use mailclear.Jobs.Handler.{Validated, first_error, Database}
use mailclear.Jobs.Results.{Item, Emails}
use mailclear.Jobs.Submit.{Tick, judge, wait_turn}
use mailclear.Jobs.Lifecycle.{
  Piece, queued, stored, counted, lost, watching, writing, gone, World, Event, insert, count, look,
  write, cancelled_at, forced_at, swept_at, emails_of, look_at, seen, on_piece, insert_results,
  insert_validated, insert_piece, count_results, count_piece, look_step, write_step, step, run,
  submitted,
}
use mailclear.Jobs.Lifecycle.Waiters.{Waiter-cases, write_step-writes, write_step-skips}

-- no statement fails, no tick is late, and no operator touches the job
abbrev pub IsFine : Event → Type 0
IsFine (insert _ db) = db.insert_err ≡ none
IsFine (count _ db) = db.progress_err ≡ none
IsFine (look t) = (t.late ≡ false) × (t.got ≢ none)
IsFine (write _) = Unit
IsFine (cancelled_at _) = ⊥
IsFine (forced_at _ _) = ⊥
IsFine (swept_at _ _) = ⊥

-- the job goes on, or it is completed; the waiter leaves only a completed one and writes nothing else
pub record IsOn (w : World) : Type 0 where
  pub status : (is_over w.job.status ≡ false) ⊎ (w.job.status ≡ completed)
  pub left_it : w.waiter ≡ gone → w.job.status ≡ completed
  pub writes : (s : JobStatus) → w.waiter ≡ writing s → s ≡ completed

-- a statement that leaves the status and the waiter
kept-IsOn :
    (w w' : World) → (w'.job.status ≡ w.job.status) × (w'.waiter ≡ w.waiter) → IsOn w → IsOn w'
kept-IsOn w w' (s, v) h = record {
  status = ground (arith, h.status);
  left_it = λ e. ground (arith, h.left_it);
  writes = λ st e. ground (arith, h.writes st);
}

module _ (fold : Text → Text) (choose : List Item → List Item) (id : Text) (i : ℕ)
    (db : Database) where
  insert_validated-keeps :
      (err : Option CtxError) (es : List Email) (w : World)
      → db.insert_err ≡ none
      → let w' = insert_validated fold choose id i db err es w in
        (w'.job.status ≡ w.job.status) × (w'.waiter ≡ w.waiter)
  unfolding insert_validated insert_results
  insert_validated-keeps (some e) es w ok = (refl, refl)
  insert_validated-keeps none es w ok = ground arith

  insert_piece-keeps :
      (p : Piece) (w : World)
      → db.insert_err ≡ none
      → let w' = insert_piece fold choose id i db p w in
        (w'.job.status ≡ w.job.status) × (w'.waiter ≡ w.waiter)
  unfolding insert_piece
  insert_piece-keeps (queued []) w ok = (refl, refl)
  insert_piece-keeps (queued (v ∷ vs)) w ok =
      insert_validated-keeps (first_error (v ∷ vs)) (emails_of (v ∷ vs)) w ok
  insert_piece-keeps (stored es) w ok = (refl, refl)
  insert_piece-keeps (counted es) w ok = (refl, refl)
  insert_piece-keeps (lost n) w ok = (refl, refl)

  count_piece-keeps :
      (p : Piece) (w : World)
      → db.progress_err ≡ none
      → let w' = count_piece fold choose id i db p w in
        (w'.job.status ≡ w.job.status) × (w'.waiter ≡ w.waiter)
  unfolding count_piece count_results increment_progress
  count_piece-keeps (queued vs) w ok = (refl, refl)
  count_piece-keeps (stored es) w ok = ground arith
  count_piece-keeps (counted es) w ok = (refl, refl)
  count_piece-keeps (lost n) w ok = (refl, refl)

on_piece-IsOn :
    (o : Option Piece) (f : Piece → World → World) (w : World)
    → ((p : Piece) → ((f p w).job.status ≡ w.job.status) × ((f p w).waiter ≡ w.waiter))
    → IsOn w
    → IsOn (on_piece o f w)
unfolding on_piece
on_piece-IsOn none f w keeps h = h
on_piece-IsOn (some p) f w keeps h = kept-IsOn w (f p w) (keeps p) h

-- the waiter reads a job that goes on, or a completed one
pub look_at-active :
    (total : ℕ) (t : Tick) (j : Job)
    → t.late ≡ false
    → is_over j.status ≡ false
    → look_at total (record t { got = some j })
      ≡ (if leb total j.counts.processed then writing completed else watching)
unfolding look_at wait_turn judge is_over
look_at-active total t j late on = ground arith

pub look_at-over :
    (total : ℕ) (t : Tick) (j : Job)
    → t.late ≡ false
    → j.status ≡ completed
    → look_at total (record t { got = some j }) ≡ gone
unfolding look_at wait_turn judge
look_at-over total t j late over = ground arith

pub seen-some : (o : Option Job) (j : Job) → o ≢ none → seen o j ≡ some j
unfolding seen
seen-some none j there = absurd (there refl)
seen-some (some _) j there = refl

-- what a look of a fine waiter leads to
look_step-IsOn :
    (total : ℕ) (t : Tick) (w : World)
    → t.late ≡ false
    → t.got ≢ none
    → IsOn w
    → IsOn (look_step total t w)
unfolding look_step
look_step-IsOn total t w late got h = record {
  status = ground (arith, h.status);
  left_it = λ e. ground (
    arith,
    h.status,
    h.left_it,
    seen-some t.got w.job got,
    look_at-active total t w.job late,
    look_at-over total t w.job late,
  );
  writes = λ s e. ground (
    arith,
    h.status,
    h.writes s,
    seen-some t.got w.job got,
    look_at-active total t w.job late,
    look_at-over total t w.job late,
  );
}

write_step-IsOn : (now : ℕ) (w : World) → IsOn w → IsOn (write_step now w)
write_step-IsOn now w h = elim (Waiter-cases w.waiter) [
  | inl e ↦ subst IsOn (sym (write_step-skips now w (inl e))) h
  | inr (inl (s, e)) ↦
      let (status, out) = write_step-writes now w s e in
      let over = h.writes s e in
      record {
        status = inr (status ∙ over);
        left_it = λ _. status ∙ over;
        writes = λ st f. absurd (ground arith);
      }
  | inr (inr e) ↦ subst IsOn (sym (write_step-skips now w (inr e))) h
]

step-IsOn :
    (fold : Text → Text) (choose : List Item → List Item) (id : Text) (total : ℕ) (e : Event)
    (w : World)
    → IsFine e
    → IsOn w
    → IsOn (step fold choose id total e w)
unfolding step
step-IsOn fold choose id total (insert i db) w fine h =
    on_piece-IsOn (get_elem? w.pieces i) _ w (λ p. insert_piece-keeps fold choose id i db p w fine)
      h
step-IsOn fold choose id total (count i db) w fine h =
    on_piece-IsOn (get_elem? w.pieces i) _ w (λ p. count_piece-keeps fold choose id i db p w fine) h
step-IsOn fold choose id total (look t) w fine h = look_step-IsOn total t w fine.0 fine.1 h
step-IsOn fold choose id total (write now) w fine h = write_step-IsOn now w h
step-IsOn fold choose id total (cancelled_at now) w fine h = absurd fine
step-IsOn fold choose id total (forced_at now reason) w fine h = absurd fine
step-IsOn fold choose id total (swept_at now after) w fine h = absurd fine

pub run-IsOn :
    (fold : Text → Text) (choose : List Item → List Item) (id : Text) (total : ℕ) (es : List Event)
    (w : World)
    → All IsFine es
    → IsOn w
    → IsOn (run fold choose id total es w)
unfolding run
run-IsOn fold choose id total [] w fine h = h
run-IsOn fold choose id total (e ∷ es) w fine h =
    run-IsOn fold choose id total es (step fold choose id total e w) fine.1
      (step-IsOn fold choose id total e w fine.0 h)

pub submitted-IsOn :
    (total : ℕ) (j : Job) (t : Emails) (tasks : List (List Validated))
    → is_over j.status ≡ false
    → IsOn (submitted total j t tasks)
unfolding submitted
submitted-IsOn total j t tasks on = record {
  status = inl on;
  left_it = λ e. ground arith;
  writes = λ s e. ground arith;
}
