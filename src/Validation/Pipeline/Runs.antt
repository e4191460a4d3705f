-- ===== src/Validation/Pipeline/Runs.antt =====
-- The loop of `Pipeline.Run` against a big-step relation.
use mailclear.Base.{
  ℕ, suc, ◌≡◌, refl, sym, ap, subst, ◌∙◌, Bool, true, false, List, [], ◌∷◌, Option, none, some,
  arith, Bool-cases, inl, inr, if◌then◌else◌,
}
use mailclear.Text.{Text, text_eq}
use mailclear.Validation.Types.{Status, StageOutcome, Email, put_stage, is_unset}
use mailclear.Validation.Pipeline.{
  Ctx, Stage, Metric, Pipeline, Outcome, Turn, stop, proceed, fail_at, settle, turn, prepend,
  run_from, run,
}

-- The map of outcomes with one written: it takes the place of an earlier one of the same name.
abbrev pub assign : Text → StageOutcome → List (Text × StageOutcome) → List (Text × StageOutcome)
assign name o [] = (name, o) ∷ []
assign name o (entry ∷ m) =
    let rest = assign name o m in if text_eq entry.0 name then (entry.0, o) ∷ m else entry ∷ rest

put_stage-assign :
    (name : Text) (o : StageOutcome) (m : List (Text × StageOutcome))
    → put_stage name o m ≡ assign name o m
unfolding put_stage
put_stage-assign name o [] = refl
put_stage-assign name o ((k, p) ∷ m) = ground (arith, put_stage-assign name o m)

-- the email with the outcome of a stage noted
abbrev pub note_pass : Text → Email → Email
note_pass name e = record e {
  stages = assign name (record { passed = true; reason = [] }) e.stages;
}

abbrev pub note_fail : Text → Text → Email → Email
note_fail name reason e = record e {
  stages = assign name (record { passed = false; reason = reason }) e.stages;
}

-- and with the end of the run noted: where it failed, and a status
abbrev pub end_at : Text → Text → Email → Email
end_at name reason e = record e {
  stages = assign name (record { passed = false; reason = reason }) e.stages;
  failed_at = name;
  status = if is_unset e.status then Status.invalid else e.status;
}

-- `Runs ss e r`: the stages `ss`, in order, take `e` to `r`
pub data Runs : List Stage → Email → Email → Type 0 where
  done : {e : Email} → Runs [] e e
  passes :
      {s : Stage} {ss : List Stage} {e r : Email}
      → (s.run e).1 ≡ none
      → Runs ss (note_pass s.name (s.run e).0) r
      → Runs (s ∷ ss) e r
  skips :
      {s : Stage} {ss : List Stage} {e r : Email} (reason : Text)
      → (s.run e).1 ≡ some reason
      → s.short_circuit ≡ false
      → Runs ss (note_fail s.name reason (s.run e).0) r
      → Runs (s ∷ ss) e r
  stops :
      {s : Stage} {ss : List Stage} {e r : Email} (reason : Text)
      → (s.run e).1 ≡ some reason
      → s.short_circuit ≡ true
      → r ≡ end_at s.name reason (s.run e).0
      → Runs (s ∷ ss) e r

-- the ways a turn can go
data TurnCases (m : Bool) (s : Stage) (e : Email) : Turn → Type 0 where
  passed :
      (ms : List Metric)
      → (s.run e).1 ≡ none
      → TurnCases m s e (proceed (note_pass s.name (s.run e).0) ms)
  skipped :
      (ms : List Metric) (reason : Text)
      → (s.run e).1 ≡ some reason
      → s.short_circuit ≡ false
      → TurnCases m s e (proceed (note_fail s.name reason (s.run e).0) ms)
  stopped :
      (ms : List Metric) (reason : Text)
      → (s.run e).1 ≡ some reason
      → s.short_circuit ≡ true
      → TurnCases m s e (stop (end_at s.name reason (s.run e).0) ms)

settle-TurnCases :
    (m : Bool) (s : Stage) (e : Email) (o : Option Text)
    → (s.run e).1 ≡ o
    → TurnCases m s e (settle m s (s.run e).0 o)
unfolding settle fail_at
settle-TurnCases m s e none h =
    rw (put_stage-assign s.name (record { passed = true; reason = [] }) (s.run e).0.stages)
      (passed _ h)
settle-TurnCases m s e (some reason) h =
    rw (put_stage-assign s.name (record { passed = false; reason = reason }) (s.run e).0.stages)
      (elim (Bool-cases s.short_circuit) [
        | inl c ↦ simp c (stopped _ reason h c)
        | inr c ↦ simp c (skipped _ reason h c)
      ])

turn-TurnCases : (m : Bool) (s : Stage) (e : Email) → TurnCases m s e (turn m s e)
unfolding turn
turn-TurnCases m s e = settle-TurnCases m s e (s.run e).1 refl

module _ (m : Bool) (ctx : Ctx) (live : (n : ℕ) → ctx n ≡ none) where
  abbrev after : ℕ → List Stage → Turn → Outcome
  after n ss t = elim t [
    | stop e' ms ↦ record { email = e'; error = none; metrics = ms }
    | proceed e' ms ↦ prepend ms (run_from m ctx (suc n) ss e')
  ]

  run_from-Runs :
      (n : ℕ) (ss : List Stage) (e : Email)
      → Runs ss e (run_from m ctx n ss e).email × ((run_from m ctx n ss e).error ≡ none)
  unfolding run_from prepend
  run_from-Runs n [] e = (done, refl)
  run_from-Runs n (s ∷ ss) e =
      rw (live n, run_from) (go (turn m s e) (turn-TurnCases m s e) (run_from-Runs (suc n) ss))
    where
      go :
          (t : Turn)
          → TurnCases m s e t
          → ((e' : Email)
              → Runs ss e' (run_from m ctx (suc n) ss e').email
                × ((run_from m ctx (suc n) ss e').error ≡ none))
          → Runs (s ∷ ss) e (after n ss t).email × ((after n ss t).error ≡ none)
      go t (passed ms h) ih = (passes h (ih _).0, (ih _).1)
      go t (skipped ms r h c) ih = (skips r h c (ih _).0, (ih _).1)
      go t (stopped ms r h c) ih = (stops r h c refl, refl)

-- The relation determines the result.
pub Runs-unique : {ss : List Stage} {e r r' : Email} → Runs ss e r → Runs ss e r' → r ≡ r'
Runs-unique done done = refl
Runs-unique (passes h t) (passes h' t') = Runs-unique t t'
Runs-unique (passes h t) (skips _ h' _ _) = absurd (ground arith)
Runs-unique (passes h t) (stops _ h' _ _) = absurd (ground arith)
Runs-unique (skips _ h _ _) (passes h' t') = absurd (ground arith)
Runs-unique (skips {s} {ss} {e} {r} a h _ t) (skips {r = r'} b h' _ t') =
    let same : a ≡ b = ground arith in
    Runs-unique t (subst (λ x. Runs ss (note_fail s.name x (s.run e).0) r') (sym same) t')
Runs-unique (skips _ h c _) (stops _ h' c' _) = absurd (ground arith)
Runs-unique (stops _ h _ _) (passes h' t') = absurd (ground arith)
Runs-unique (stops _ h c _) (skips _ h' c' _) = absurd (ground arith)
Runs-unique (stops {s} {e} a h _ p) (stops b h' _ q) =
    let same : a ≡ b = ground arith in p ∙ ap (λ x. end_at s.name x (s.run e).0) same ∙ sym q

-- While its context is alive the pipeline returns no error, and its email is the one that the
-- relation gives, and no other: each stage that ran is noted with its outcome, and a failing stage is
-- passed over, unless it short-circuits, which ends the run with `FailedAt` set to its name, with the
-- status invalid where none is set, and with no later stage run.
pub run-Runs :
    (p : Pipeline) (ctx : Ctx) (e : Email)
    → ((n : ℕ) → ctx n ≡ none)
    → Runs p.stages e (run p ctx e).email
      × ((run p ctx e).error ≡ none)
      × ((r : Email) → Runs p.stages e r → r ≡ (run p ctx e).email)
unfolding run
run-Runs p ctx e live =
    let (runs, ok) = run_from-Runs p.metered ctx live 0 p.stages e in
    (runs, ok, λ r t. Runs-unique t runs)
