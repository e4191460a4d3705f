-- ===== src/Validation/Pipeline.antt =====
-- internal/validation/pipeline.go and stage.go. A stage returns the changed email with its error, if
-- any. `ctx` answers each call of `ctx.Err()`; the metrics written are a list; times are left out.
pub mod Runs
use mailclear.Base.{
  ℕ, suc, Bool, true, false, List, [], ◌∷◌, ◌++◌, Option, none, some, if◌then◌else◌,
}
use mailclear.Text.{Text}
use mailclear.Validation.Types.{Status, StageOutcome, Email, is_unset, put_stage}

pub data CtxError : Type 0 where
  canceled deadline_exceeded : CtxError

-- the n-th answer of `ctx.Err()`
abbrev pub Ctx : Type 0
Ctx = ℕ → Option CtxError

pub record Stage : Type 0 where
  pub name : Text
  pub run : Email → Email × Option Text
  pub short_circuit : Bool

-- a counter that is incremented
pub data Metric : Type 0 where
  stage_ok : Text → Metric
  stage_fail : Text → Metric
  short_circuit : Text → Metric
  result_status : Status → Metric

-- `p.met` is nil where `metered` is false
pub record Pipeline : Type 0 where
  pub stages : List Stage
  pub metered : Bool

pub record Outcome : Type 0 where
  pub email : Email
  pub error : Option CtxError
  pub metrics : List Metric

abbrev pub emit : Bool → List Metric → List Metric
emit metered ms = if metered then ms else []

-- `if p.met != nil && e.Status != "" { ResultStatus.Inc() }`
unfoldable pub count_status : Bool → Status → List Metric
count_status metered s = if is_unset s then [] else emit metered (result_status s ∷ [])

-- one turn of the loop over the stages ends it, or goes on
pub data Turn : Type 0 where
  stop : Email → List Metric → Turn
  proceed : Email → List Metric → Turn

-- `e.FailedAt = s.Name()`, and the status where none is set
unfoldable pub fail_at : Text → Email → Email
fail_at name e = record e {
  failed_at = name;
  status = if is_unset e.status then Status.invalid else e.status;
}

unfoldable pub settle : Bool → Stage → Email → Option Text → Turn
unfolding fail_at
settle metered s e none =
    proceed
      (record e { stages = put_stage s.name (record { passed = true; reason = [] }) e.stages })
      (emit metered (stage_ok s.name ∷ []))
settle metered s e (some reason) =
    let noted = record e {
      stages = put_stage s.name (record { passed = false; reason = reason }) e.stages;
    } in
    let failed = fail_at s.name noted in
    if s.short_circuit
    then stop failed (
        emit metered
          (stage_fail s.name ∷ Metric.short_circuit s.name ∷ result_status failed.status ∷ []))
    else proceed noted (emit metered (stage_fail s.name ∷ []))

-- the body of the loop, where the context is alive
unfoldable pub turn : Bool → Stage → Email → Turn
turn metered s e = let (e', err) = s.run e in settle metered s e' err

unfoldable pub prepend : List Metric → Outcome → Outcome
prepend ms o = record o { metrics = ms ++ o.metrics }

unfoldable pub run_from : Bool → Ctx → ℕ → List Stage → Email → Outcome
run_from metered ctx n [] e = record {
  email = e;
  error = none;
  metrics = count_status metered e.status;
}
run_from metered ctx n (s ∷ ss) e = elim (ctx n) [
  | some err ↦ record { email = e; error = some err; metrics = [] }
  | none ↦ elim (turn metered s e) [
    | stop e' ms ↦ record { email = e'; error = none; metrics = ms }
    | proceed e' ms ↦ prepend ms (run_from metered ctx (suc n) ss e')
  ]
]

-- `Pipeline.Run`
unfoldable pub run : Pipeline → Ctx → Email → Outcome
unfolding run_from
run p ctx e = run_from p.metered ctx 0 p.stages e
