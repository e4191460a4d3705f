-- ===== src/Tests/Emails.antt =====
-- The score, the pipeline and the validator.
use mailclear.Base.{
  arith, ℕ, ◌≡◌, ◌≢◌, refl, false, List, [], ◌∷◌, none, some, map, take, if◌then◌else◌,
}
use mailclear.Base.Int.{pos, ◌≤ℤ◌}
use mailclear.Text.{Text, lit}
use mailclear.Validation.Types.{Status, same_status, Email, new_email, is_unset}
use mailclear.Validation.Pipeline.{CtxError, run}
use mailclear.Validation.Pipeline.Runs.{Runs, run-Runs}
use mailclear.Validation.Validator.{Checks, validate, validate_batch}
use mailclear.Validation.Validator.Counts.{status_counts, validate-counts}
use mailclear.Validation.Validator.Total.{validate_total, validated, validate_batch-take}
use mailclear.Validation.Stages.Chain.{pipeline}
use mailclear.Validation.Stages.Chain.Statuses.{validate_never_valid}
use mailclear.Tests.Inputs.{world, validator, alive, raw, ana}

run-Runs_example :
    Runs (pipeline world).stages ana (run (pipeline world) alive ana).email
    × ((run (pipeline world) alive ana).error ≡ none)
    × ((r : Email)
        → Runs (pipeline world).stages ana r
        → r ≡ (run (pipeline world) alive ana).email)
run-Runs_example = run-Runs (pipeline world) alive ana (λ n. refl)

validate_total_example :
    ((validate validator alive raw).error ≡ none)
    × (is_unset (validate validator alive raw).email.status ≡ false)
    × (pos 0 ≤ℤ (validate validator alive raw).email.score)
    × ((validate validator alive raw).email.score ≤ℤ pos 100)
    × (is_unset (run (pipeline world) alive (new_email raw)).email.status ≡ false
        → (validate validator alive raw).email.status
          ≡ (run (pipeline world) alive (new_email raw)).email.status)
validate_total_example = validate_total validator alive raw (λ n. refl)

validate-counts_example : status_counts Status.risky (validate validator alive raw).metrics ≡ (
    if same_status (validate validator alive raw).email.status Status.risky
    then (if is_unset (run (pipeline world) alive (new_email raw)).email.status then 1 else 2)
    else 0)
unfolding pipeline
validate-counts_example = validate-counts Status.risky validator alive raw refl (λ n. refl)

validate_never_valid_example : (validate validator alive raw).email.status ≢ Status.valid
validate_never_valid_example = validate_never_valid world alive raw

abbrev quiet : Checks
quiet = record { before = none; during = alive; after = none }

abbrev two : List (Text × Checks)
two = (raw, quiet) ∷ (lit "bob@yahoo.com", quiet) ∷ []

quiet_sticky : (n : ℕ) (err : CtxError) → quiet.during n ≡ some err → quiet.after ≢ none
quiet_sticky n err h = absurd (ground arith)

validate_batch-take_example :
    (k : ℕ) × ((validate_batch validator two).out ≡ map (validated validator) (take k two))
    × ((validate_batch validator two).error ≡ none → take k two ≡ two)
validate_batch-take_example = validate_batch-take validator two (quiet_sticky, (quiet_sticky, tt))
