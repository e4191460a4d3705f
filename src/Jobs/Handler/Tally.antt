-- ===== src/Jobs/Handler/Tally.antt =====
-- What a task adds to its job.
use mailclear.Base.{ℕ, ◌+◌, ◌≡◌, List, [], ◌∷◌, none}
use mailclear.Text.{Text}
use mailclear.Validation.Pipeline.{Ctx}
use mailclear.Validation.Validator.{Validator, validate}
use mailclear.Jobs.Repo.{ProgressDelta}
use mailclear.Jobs.Handler.{Validated}

-- the sum of the counters by status
abbrev sum_of : ProgressDelta → ℕ
sum_of d = d.valid + d.invalid + d.risky + d.unknown + d.disposable

-- the validations of the raw emails of a task, each in its context
abbrev pub validated_all : Validator → List (Text × Ctx) → List Validated
validated_all v [] = []
validated_all v ((raw, ctx) ∷ rest) =
    ((validate v ctx raw).email, (validate v ctx raw).error) ∷ validated_all v rest

-- no context of a task ends while its email is validated
abbrev pub AllAlive : List (Text × Ctx) → Type 0
AllAlive [] = Unit
AllAlive ((raw, ctx) ∷ rest) = ((n : ℕ) → ctx n ≡ none) × AllAlive rest
