-- ===== src/Validation/Validator.antt =====
-- internal/validation/validator.go.
pub mod Counts
pub mod Total
use mailclear.Base.{ℕ, suc, Bool, List, [], ◌∷◌, ◌++◌, Option, none, some, if◌then◌else◌}
use mailclear.Text.{Text, lit}
use mailclear.Validation.Types.{Status, Email, new_email, add_reason}
use mailclear.Validation.Scoring.{ScoreConfig, apply}
use mailclear.Validation.Pipeline.{
  CtxError, canceled, deadline_exceeded, Ctx, Metric, Pipeline, Outcome, count_status, run,
}

pub record Validator : Type 0 where
  pub pipe : Pipeline
  pub scorer : ScoreConfig

-- the part of `Validate` after the pipeline
unfoldable pub finish : Validator → Outcome → Outcome
finish v o = elim o.error [
  | some _ ↦ o
  | none ↦
      let scored = apply v.scorer o.email in
      record o { email = scored; metrics = o.metrics ++ count_status v.pipe.metered scored.status }
]

unfoldable pub validate : Validator → Ctx → Text → Outcome
unfolding finish
validate v ctx raw = finish v (run v.pipe ctx (new_email raw))

-- `err.Error()` of a context error
unfoldable pub ctx_message : CtxError → Text
ctx_message canceled = lit "context canceled"
ctx_message deadline_exceeded = lit "context deadline exceeded"

-- what `ctx.Err()` answers around and during the validation of one email of a batch
pub record Checks : Type 0 where
  pub before : Option CtxError
  pub during : Ctx
  pub after : Option CtxError

pub record Batch : Type 0 where
  pub out : List Email
  pub error : Option CtxError

-- `e.Status = StatusUnknown` with its reason
unfoldable pub mark_unknown : CtxError → Email → Email
mark_unknown err e =
    add_reason (lit "validation_error") (ctx_message err) (record e { status = Status.unknown })

-- one turn of the loop: an email to append, or the error that aborts the batch
unfoldable pub batch_turn : Validator → Text → Checks → Email × Option CtxError
unfolding mark_unknown
batch_turn v raw c =
    let o = validate v c.during raw in
    elim o.error [
      | none ↦ (o.email, none)
      | some err ↦ elim c.after [
        | some _ ↦ (o.email, some err)
        | none ↦ (mark_unknown err o.email, none)
      ]
    ]

unfoldable pub batch_from : Validator → List (Text × Checks) → List Email → Batch
batch_from v [] out = record { out = out; error = none }
batch_from v ((raw, c) ∷ rest) out = elim c.before [
  | some err ↦ record { out = out; error = some err }
  | none ↦ elim (batch_turn v raw c).1 [
    | some err ↦ record { out = out; error = some err }
    | none ↦ batch_from v rest (out ++ ((batch_turn v raw c).0 ∷ []))
  ]
]

unfoldable pub validate_batch : Validator → List (Text × Checks) → Batch
unfolding batch_from
validate_batch v raws = batch_from v raws []
