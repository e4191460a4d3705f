-- ===== src/Jobs/Lifecycle/Rows/Steps.antt =====
-- Every statement keeps what the tasks of a job say about the rows.
use mailclear.Base.{
  ℕ, ◌≡◌, refl, ap, sym, ◌∙◌, subst, List, [], ◌∷◌, Option, none, some, length, get_elem?, arith,
}
use mailclear.Text.{Text}
use mailclear.Validation.Types.{Email}
use mailclear.Validation.Pipeline.{CtxError}
use mailclear.Jobs.Handler.{Validated, first_error, Database}
use mailclear.Jobs.Results.{Item}
use mailclear.Jobs.Results.Batches.{IsDistinctOn}
use mailclear.Jobs.Submit.{Tick}
use mailclear.Jobs.Lifecycle.{
  Piece, queued, stored, counted, lost, World, Event, insert, count, look, write, cancelled_at,
  forced_at, swept_at, emails_of, items_of, on_piece, insert_results, insert_validated,
  insert_piece, count_results, count_piece, look_step, write_step, step, run,
}
use mailclear.Jobs.Lifecycle.Progress.{length-emails_of}
use mailclear.Jobs.Lifecycle.Rows.{
  AllFit, AllFit-Grows, AllFit-set, insert_results-Grows, insert_results-stored,
}

module _ (fold : Text → Text) (choose : List Item → List Item) (id : Text)
    (distinct : (items : List Item) → IsDistinctOn fold items (choose items)) where
  -- the pieces are the tasks on their way, with their rows in the table
  abbrev pub Tracks : List (List Validated) → World → Type 0
  Tracks tasks w = AllFit fold id w.table.rows tasks w.pieces

  module _ (i : ℕ) (db : Database) (w : World) (tasks : List (List Validated)) where
    insert_results-Tracks :
        (us : List Validated) (err : Option Text)
        → get_elem? w.pieces i ≡ some (queued us)
        → Tracks tasks w
        → Tracks tasks (insert_results fold choose id i db err (emails_of us) w)
    unfolding insert_results
    insert_results-Tracks us (some e) at h =
        AllFit-set fold id w.table.rows tasks w.pieces i (queued us) _ at
          (λ vs same. length-emails_of us ∙ ap length same) h
    insert_results-Tracks us none at h =
        let es = emails_of us in
        let w' = insert_results fold choose id i db none es w in
        let more = insert_results-Grows fold id choose i db none es w (distinct (items_of id es)) in
        AllFit-set fold id w'.table.rows tasks w.pieces i (queued us) (stored es) at
          (λ vs same. (
            ap emails_of same,
            insert_results-stored fold id choose i db es w (distinct (items_of id es)),
          ))
          (AllFit-Grows fold id w.table.rows w'.table.rows tasks w.pieces more h)

    insert_validated-Tracks :
        (us : List Validated) (err : Option CtxError)
        → get_elem? w.pieces i ≡ some (queued us)
        → Tracks tasks w
        → Tracks tasks (insert_validated fold choose id i db err (emails_of us) w)
    unfolding insert_validated
    insert_validated-Tracks us (some e) at h =
        AllFit-set fold id w.table.rows tasks w.pieces i (queued us) _ at
          (λ vs same. length-emails_of us ∙ ap length same) h
    insert_validated-Tracks us none at h = insert_results-Tracks us db.insert_err at h

    insert_piece-Tracks :
        (p : Piece)
        → get_elem? w.pieces i ≡ some p
        → Tracks tasks w
        → Tracks tasks (insert_piece fold choose id i db p w)
    unfolding insert_piece emails_of
    insert_piece-Tracks (queued []) at h =
        AllFit-set fold id w.table.rows tasks w.pieces i (queued []) _ at
          (λ vs same. (ap emails_of same, tt)) h
    insert_piece-Tracks (queued (v ∷ vs)) at h =
        insert_validated-Tracks (v ∷ vs) (first_error (v ∷ vs)) at h
    insert_piece-Tracks (stored es) at h = h
    insert_piece-Tracks (counted es) at h = h
    insert_piece-Tracks (lost n) at h = h

    count_results-Tracks :
        (es : List Email) (err : Option Text)
        → get_elem? w.pieces i ≡ some (stored es)
        → Tracks tasks w
        → Tracks tasks (count_results fold choose id i db err es w)
    unfolding count_results
    count_results-Tracks es (some e) at h =
        AllFit-set fold id w.table.rows tasks w.pieces i (stored es) _ at
          (λ vs fit. ap length fit.0 ∙ length-emails_of vs) h
    count_results-Tracks es none at h =
        AllFit-set fold id w.table.rows tasks w.pieces i (stored es) (counted es) at (λ vs fit. fit)
          h

    count_piece-Tracks :
        (p : Piece)
        → get_elem? w.pieces i ≡ some p
        → Tracks tasks w
        → Tracks tasks (count_piece fold choose id i db p w)
    unfolding count_piece
    count_piece-Tracks (queued vs) at h = h
    count_piece-Tracks (stored es) at h = count_results-Tracks es db.progress_err at h
    count_piece-Tracks (counted es) at h = h
    count_piece-Tracks (lost n) at h = h

  on_piece-Tracks :
      (tasks : List (List Validated)) (o : Option Piece) (f : Piece → World → World) (w : World)
      → ((p : Piece) → o ≡ some p → Tracks tasks w → Tracks tasks (f p w))
      → Tracks tasks w
      → Tracks tasks (on_piece o f w)
  unfolding on_piece
  on_piece-Tracks tasks none f w each h = h
  on_piece-Tracks tasks (some p) f w each h = each p refl h

  look_step-same :
      (total : ℕ) (t : Tick) (w : World)
      → ((look_step total t w).table ≡ w.table) × ((look_step total t w).pieces ≡ w.pieces)
  unfolding look_step
  look_step-same total t w = ground arith

  write_step-same :
      (now : ℕ) (w : World)
      → ((write_step now w).table ≡ w.table) × ((write_step now w).pieces ≡ w.pieces)
  unfolding write_step
  write_step-same now w = ground arith

  same-Tracks :
      (tasks : List (List Validated)) (w w' : World)
      → (w'.table ≡ w.table) × (w'.pieces ≡ w.pieces)
      → Tracks tasks w
      → Tracks tasks w'
  same-Tracks tasks w w' (t, p) h =
      subst (λ t'. AllFit fold id t'.rows tasks w'.pieces) (sym t)
        (subst (λ p'. AllFit fold id w.table.rows tasks p') (sym p) h)

  pub step-Tracks :
      (tasks : List (List Validated)) (total : ℕ) (e : Event) (w : World)
      → Tracks tasks w
      → Tracks tasks (step fold choose id total e w)
  unfolding step
  step-Tracks tasks total (insert i db) w h =
      on_piece-Tracks tasks (get_elem? w.pieces i) _ w (insert_piece-Tracks i db w tasks) h
  step-Tracks tasks total (count i db) w h =
      on_piece-Tracks tasks (get_elem? w.pieces i) _ w (count_piece-Tracks i db w tasks) h
  step-Tracks tasks total (look t) w h =
      same-Tracks tasks w (look_step total t w) (look_step-same total t w) h
  step-Tracks tasks total (write now) w h =
      same-Tracks tasks w (write_step now w) (write_step-same now w) h
  step-Tracks tasks total (cancelled_at now) w h = h
  step-Tracks tasks total (forced_at now reason) w h = h
  step-Tracks tasks total (swept_at now after) w h = h

  pub run-Tracks :
      (tasks : List (List Validated)) (total : ℕ) (es : List Event) (w : World)
      → Tracks tasks w
      → Tracks tasks (run fold choose id total es w)
  unfolding run
  run-Tracks tasks total [] w h = h
  run-Tracks tasks total (e ∷ es) w h =
      run-Tracks tasks total es (step fold choose id total e w) (step-Tracks tasks total e w h)
