-- ===== src/Validation/Validator/Counts.antt =====
-- How often the counter of final statuses is incremented.
use mailclear.Base.{
  ℕ, suc, ◌+◌, ◌≡◌, refl, sym, subst, ◌∙◌, Bool, true, false, List, [], ◌∷◌, ◌++◌, Option, none,
  some, arith, Bool-cases, inl, inr, if◌then◌else◌,
}
use mailclear.Text.{Text}
use mailclear.Validation.Types.{Status, same_status, Email, is_unset, new_email}
use mailclear.Validation.Pipeline.{
  Ctx, Stage, Turn, stop, proceed, Outcome, Metric, stage_ok, stage_fail, result_status,
  count_status, settle, turn, prepend, fail_at, run_from, run,
}
use mailclear.Validation.Pipeline.Runs.{run-Runs}
use mailclear.Validation.Validator.{Validator, validate, finish}
use mailclear.Validation.Scoring.Verdict.{apply_verdict}

-- 1 for the status that the label is, and 0 for others
abbrev hit : (label s : Status) → ℕ
hit label s = if same_status s label then 1 else 0

-- the increments of `ResultStatus` under a label
abbrev pub status_counts : (label : Status) → List Metric → ℕ
status_counts label [] = 0
status_counts label (result_status s ∷ ms) = hit label s + status_counts label ms
status_counts label (stage_ok _ ∷ ms) = status_counts label ms
status_counts label (stage_fail _ ∷ ms) = status_counts label ms
status_counts label (Metric.short_circuit _ ∷ ms) = status_counts label ms

pub status_counts-append :
    (label : Status) (ms ns : List Metric)
    → status_counts label (ms ++ ns) ≡ status_counts label ms + status_counts label ns
status_counts-append label [] ns = omega arith
status_counts-append label (result_status s ∷ ms) ns =
    omega (arith, status_counts-append label ms ns)
status_counts-append label (stage_ok _ ∷ ms) ns = status_counts-append label ms ns
status_counts-append label (stage_fail _ ∷ ms) ns = status_counts-append label ms ns
status_counts-append label (Metric.short_circuit _ ∷ ms) ns = status_counts-append label ms ns

module _ (label : Status) where
  -- a status that is set counts under its label
  abbrev status_mark : Status → ℕ
  status_mark s = if is_unset s then 0 else hit label s

  status_counts-count_status :
      (s : Status) → status_counts label (count_status true s) ≡ status_mark s
  unfolding count_status
  status_counts-count_status s = ground arith

  abbrev TurnCounts : Turn → Type 0
  TurnCounts (stop e ms) =
      (status_counts label ms ≡ hit label e.status) × (is_unset e.status ≡ false)
  TurnCounts (proceed e ms) = status_counts label ms ≡ 0

  settle-counts : (s : Stage) (e : Email) (o : Option Text) → TurnCounts (settle true s e o)
  unfolding settle fail_at
  settle-counts s e none = refl
  settle-counts s e (some reason) = elim (Bool-cases s.short_circuit) [
    | inl c ↦ simp c (omega arith, ground arith)
    | inr c ↦ simp c refl
  ]

  module _ (ctx : Ctx) (live : (n : ℕ) → ctx n ≡ none) where
    abbrev after : ℕ → List Stage → Turn → Outcome
    after n ss t = elim t [
      | stop e' ms ↦ record { email = e'; error = none; metrics = ms }
      | proceed e' ms ↦ prepend ms (run_from true ctx (suc n) ss e')
    ]

    run_from-counts :
        (n : ℕ) (ss : List Stage) (e : Email)
        → status_counts label (run_from true ctx n ss e).metrics
          ≡ status_mark (run_from true ctx n ss e).email.status
    unfolding run_from turn prepend
    run_from-counts n [] e = status_counts-count_status e.status
    run_from-counts n (s ∷ ss) e =
        rw (live n, run_from)
          (go (settle true s (s.run e).0 (s.run e).1) (settle-counts s (s.run e).0 (s.run e).1)
            (run_from-counts (suc n) ss))
      where
        go :
            (t : Turn)
            → TurnCounts t
            → ((e' : Email)
                → status_counts label (run_from true ctx (suc n) ss e').metrics
                  ≡ status_mark (run_from true ctx (suc n) ss e').email.status)
            → status_counts label (after n ss t).metrics ≡ status_mark (after n ss t).email.status
        go (stop e' ms) h ih = ground arith
        go (proceed e' ms) h ih =
            omega (
              arith,
              status_counts-append label ms (run_from true ctx (suc n) ss e').metrics,
              ih e',
            )

  -- the counts of a run and of the last step, with metrics on
  module _ {m : Bool} (on : m ≡ true) where
    run_from-counts_on :
        (ctx : Ctx) (ss : List Stage) (e : Email)
        → ((n : ℕ) → ctx n ≡ none)
        → status_counts label (run_from m ctx 0 ss e).metrics
          ≡ status_mark (run_from m ctx 0 ss e).email.status
    run_from-counts_on ctx ss e live =
        subst
          (λ b.
            status_counts label (run_from b ctx 0 ss e).metrics
            ≡ status_mark (run_from b ctx 0 ss e).email.status)
          (sym on) (run_from-counts ctx live 0 ss e)

    count_status_on :
        (s : Status) → is_unset s ≡ false → status_counts label (count_status m s) ≡ hit label s
    count_status_on s h = rw on (status_counts-count_status s ∙ rw h refl)

  run-counts_on :
      (v : Validator) (ctx : Ctx) (raw : Text)
      → v.pipe.metered ≡ true
      → ((n : ℕ) → ctx n ≡ none)
      → status_counts label (run v.pipe ctx (new_email raw)).metrics
        ≡ status_mark (run v.pipe ctx (new_email raw)).email.status
  unfolding run
  run-counts_on v ctx raw on live = run_from-counts_on on ctx v.pipe.stages (new_email raw) live

  -- With metrics on and the context alive, one call of `Validate` adds to the counter of final statuses
  -- under the final status of the email alone: 1 where the pipeline leaves the status open, and 2 where
  -- the pipeline has set it.
  pub validate-counts :
      (v : Validator) (ctx : Ctx) (raw : Text)
      → v.pipe.metered ≡ true
      → ((n : ℕ) → ctx n ≡ none)
      → status_counts label (validate v ctx raw).metrics ≡ (
          if same_status (validate v ctx raw).email.status label
          then (if is_unset (run v.pipe ctx (new_email raw)).email.status then 1 else 2)
          else 0)
  unfolding validate
  validate-counts v ctx raw on live =
      let e = (run v.pipe ctx (new_email raw)).email in
      let (low, high, closed, kept) = apply_verdict v.scorer e in
      simp ((run-Runs v.pipe ctx (new_email raw) live).1, finish)
        (simp (status_counts-append, count_status_on on _ closed)
          (ground (arith, run-counts_on v ctx raw on live, kept)))
