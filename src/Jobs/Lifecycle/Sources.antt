-- ===== src/Jobs/Lifecycle/Sources.antt =====
-- Where the rows of a job come from. `k` is a key of the table.
use mailclear.Base.{
  ℕ, zero, suc, ◌≡◌, refl, sym, ◌∙◌, ◌⊎◌, inl, inr, ◌||◌, true, List, [], ◌∷◌, ◌++◌, Option, none,
  some, get_elem?, subst, All, arith, Bool-cases,
}
use mailclear.Text.{Text}
use mailclear.Validation.Types.{Email}
use mailclear.Validation.Pipeline.{CtxError}
use mailclear.Jobs.Repo.{Job}
use mailclear.Jobs.Handler.{Validated, first_error, record_of, Database}
use mailclear.Jobs.Results.{Item, Row, Emails, key, same_key, has_key}
use mailclear.Jobs.Results.Batches.{named, IsDistinctOn, bulk_insert_adds}
use mailclear.Jobs.Submit.{Tick}
use mailclear.Jobs.Lifecycle.{
  Piece, queued, stored, counted, lost, World, Event, insert, count, look, write, cancelled_at,
  forced_at, swept_at, emails_of, items_of, on_piece, insert_results, insert_validated,
  insert_piece, count_results, count_piece, look_step, write_step, step, run, submitted,
}
use mailclear.Jobs.Lifecycle.Rows.{HasRow, AllFit}
use mailclear.Jobs.Lifecycle.Rows.Steps.{Tracks, step-Tracks}
use mailclear.Jobs.Lifecycle.Completed.{queued-AllFit}
use mailclear.Jobs.Results.Keys.{same_key_sound}

module _ (fold : Text → Text) (id : Text) (k : Text × Text) where
  -- an email of some task has the key
  abbrev pub NamedIn : List (List Validated) → Type 0
  NamedIn [] = ⊥
  NamedIn (vs ∷ tasks) = (named fold k (items_of id (emails_of vs)) ≡ true) ⊎ NamedIn tasks

  -- if it is in the table, it was there before or is one of a task, and if it was, it is
  abbrev pub IsSourced : List (List Validated) → Emails → World → Type 0
  IsSourced tasks t w =
      (has_key fold k w.table.rows ≡ true → (has_key fold k t.rows ≡ true) ⊎ NamedIn tasks)
      × (has_key fold k t.rows ≡ true → has_key fold k w.table.rows ≡ true)

  queued-NamedIn :
      (rows : List Row) (tasks : List (List Validated)) (ps : List Piece) (i : ℕ)
      (us : List Validated)
      → AllFit fold id rows tasks ps
      → get_elem? ps i ≡ some (queued us)
      → named fold k (items_of id (emails_of us)) ≡ true
      → NamedIn tasks
  queued-NamedIn rows [] [] i us fit at h = absurd (ground arith)
  queued-NamedIn rows [] (p ∷ ps) i us fit at h = absurd fit
  queued-NamedIn rows (vs ∷ tasks) [] i us fit at h = absurd fit
  queued-NamedIn rows (vs ∷ tasks) (queued ws ∷ ps) zero us fit at h =
      let same : ws ≡ us = cc in
      inl (subst (λ l. named fold k (items_of id (emails_of l)) ≡ true) (sym same ∙ fit.0) h)
  queued-NamedIn rows (vs ∷ tasks) (stored es ∷ ps) zero us fit at h = absurd (ground arith)
  queued-NamedIn rows (vs ∷ tasks) (counted es ∷ ps) zero us fit at h = absurd (ground arith)
  queued-NamedIn rows (vs ∷ tasks) (lost n ∷ ps) zero us fit at h = absurd (ground arith)
  queued-NamedIn rows (vs ∷ tasks) (p ∷ ps) (suc i) us fit at h =
      inr (queued-NamedIn rows tasks ps i us fit.1 at h)

  module _ (choose : List Item → List Item)
      (distinct : (items : List Item) → IsDistinctOn fold items (choose items))
      (tasks : List (List Validated)) (t : Emails) where
    insert_results-IsSourced :
        (i : ℕ) (db : Database) (us : List Validated) (err : Option Text) (w : World)
        → (named fold k (items_of id (emails_of us)) ≡ true → NamedIn tasks)
        → IsSourced tasks t w
        → IsSourced tasks t (insert_results fold choose id i db err (emails_of us) w)
    unfolding insert_results
    insert_results-IsSourced i db us (some e) w mine h = h
    insert_results-IsSourced i db us none w mine h =
        let items = items_of id (emails_of us) in
        let keys = (bulk_insert_adds fold items (choose items) w.table (distinct items)).3 k in
        (
          λ there. elim (Bool-cases (named fold k items)) [
            | inl named_here ↦ inr (mine named_here)
            | inr other ↦ h.0 (ground arith)
          ],
          λ before. let still = h.1 before in ground arith,
        )

    insert_validated-IsSourced :
        (i : ℕ) (db : Database) (us : List Validated) (err : Option CtxError) (w : World)
        → (named fold k (items_of id (emails_of us)) ≡ true → NamedIn tasks)
        → IsSourced tasks t w
        → IsSourced tasks t (insert_validated fold choose id i db err (emails_of us) w)
    unfolding insert_validated
    insert_validated-IsSourced i db us (some e) w mine h = h
    insert_validated-IsSourced i db us none w mine h =
        insert_results-IsSourced i db us db.insert_err w mine h

    insert_piece-IsSourced :
        (i : ℕ) (db : Database) (p : Piece) (w : World)
        → get_elem? w.pieces i ≡ some p
        → Tracks fold choose id distinct tasks w
        → IsSourced tasks t w
        → IsSourced tasks t (insert_piece fold choose id i db p w)
    unfolding insert_piece
    insert_piece-IsSourced i db (queued []) w at fit h = h
    insert_piece-IsSourced i db (queued (v ∷ vs)) w at fit h =
        insert_validated-IsSourced i db (v ∷ vs) (first_error (v ∷ vs)) w
          (queued-NamedIn w.table.rows tasks w.pieces i (v ∷ vs) fit at) h
    insert_piece-IsSourced i db (stored es) w at fit h = h
    insert_piece-IsSourced i db (counted es) w at fit h = h
    insert_piece-IsSourced i db (lost n) w at fit h = h

    count_results-table :
        (i : ℕ) (db : Database) (err : Option Text) (es : List Email) (w : World)
        → (count_results fold choose id i db err es w).table ≡ w.table
    unfolding count_results
    count_results-table i db (some e) es w = refl
    count_results-table i db none es w = refl

    count_piece-table :
        (i : ℕ) (db : Database) (p : Piece) (w : World)
        → (count_piece fold choose id i db p w).table ≡ w.table
    unfolding count_piece
    count_piece-table i db (queued vs) w = refl
    count_piece-table i db (stored es) w = count_results-table i db db.progress_err es w
    count_piece-table i db (counted es) w = refl
    count_piece-table i db (lost n) w = refl

    same-IsSourced :
        (w w' : World) → w'.table ≡ w.table → IsSourced tasks t w → IsSourced tasks t w'
    same-IsSourced w w' same h = (
      λ there. h.0 (subst (λ e. has_key fold k e.rows ≡ true) same there),
      λ before. subst (λ e. has_key fold k e.rows ≡ true) (sym same) (h.1 before),
    )

    on_piece-IsSourced :
        (o : Option Piece) (f : Piece → World → World) (w : World)
        → ((p : Piece) → o ≡ some p → IsSourced tasks t (f p w))
        → IsSourced tasks t w
        → IsSourced tasks t (on_piece o f w)
    unfolding on_piece
    on_piece-IsSourced none f w each h = h
    on_piece-IsSourced (some p) f w each h = each p refl

    look_step-table :
        (total : ℕ) (tick : Tick) (w : World) → (look_step total tick w).table ≡ w.table
    unfolding look_step
    look_step-table total tick w = ground arith

    write_step-table : (now : ℕ) (w : World) → (write_step now w).table ≡ w.table
    unfolding write_step
    write_step-table now w = ground arith

    step-IsSourced :
        (total : ℕ) (e : Event) (w : World)
        → Tracks fold choose id distinct tasks w
        → IsSourced tasks t w
        → IsSourced tasks t (step fold choose id total e w)
    unfolding step
    step-IsSourced total (insert i db) w fit h =
        on_piece-IsSourced (get_elem? w.pieces i) (insert_piece fold choose id i db) w
          (λ p at. insert_piece-IsSourced i db p w at fit h) h
    step-IsSourced total (count i db) w fit h =
        on_piece-IsSourced (get_elem? w.pieces i) (count_piece fold choose id i db) w
          (λ p at.
            same-IsSourced w (count_piece fold choose id i db p w) (count_piece-table i db p w) h)
          h
    step-IsSourced total (look tick) w fit h =
        same-IsSourced w (look_step total tick w) (look_step-table total tick w) h
    step-IsSourced total (write now) w fit h =
        same-IsSourced w (write_step now w) (write_step-table now w) h
    step-IsSourced total (cancelled_at now) w fit h = h
    step-IsSourced total (forced_at now reason) w fit h = h
    step-IsSourced total (swept_at now after) w fit h = h

    run-IsSourced :
        (total : ℕ) (es : List Event) (w : World)
        → Tracks fold choose id distinct tasks w
        → IsSourced tasks t w
        → IsSourced tasks t (run fold choose id total es w)
    unfolding run
    run-IsSourced total [] w fit h = h
    run-IsSourced total (e ∷ es) w fit h =
        run-IsSourced total es (step fold choose id total e w)
          (step-Tracks fold choose id distinct tasks total e w fit) (step-IsSourced total e w fit h)

    pub submitted_run-IsSourced :
        (total : ℕ) (j : Job) (es : List Event)
        → IsSourced tasks t (run fold choose id total es (submitted total j t tasks))
    unfolding submitted
    submitted_run-IsSourced total j es =
        run-IsSourced total es (submitted total j t tasks) (queued-AllFit fold id t.rows tasks)
          (λ there. inl there, λ before. before)

  -- a named key is the key of an email with its row
  pub named-HasRow :
      (rows : List Row) (es : List Email)
      → All (HasRow fold id rows) es
      → named fold k (items_of id es) ≡ true
      → has_key fold k rows ≡ true
  unfolding named items_of
  named-HasRow rows [] all h = absurd (ground arith)
  named-HasRow rows (e ∷ es) (here, all) h =
      let l = key fold (record { job_id = id; result = record_of e }) in
      elim (Bool-cases (same_key k l)) [
        | inl same ↦
            subst (λ m. has_key fold m rows ≡ true) (sym (same_key_sound fold k l same)) here
        | inr other ↦ named-HasRow rows es all (ground arith)
      ]

  pub named-append :
      (es fs : List Email)
      → named fold k (items_of id (es ++ fs))
        ≡ (named fold k (items_of id es) || named fold k (items_of id fs))
  unfolding named items_of
  named-append [] fs = refl
  named-append (e ∷ es) fs = ground (arith, named-append es fs)
