-- ===== src/Validation/Scoring/Verdict.antt =====
-- What `ScoreEngine.Apply` decides.
use mailclear.Base.{◌≡◌, ◌≢◌, Bool, true, false, arith}
use mailclear.Base.Int.{ℤ, pos, ◌+ℤ◌, ◌≤ℤ◌}
use mailclear.Validation.Types.{Status, Email, is_unset}
use mailclear.Validation.Scoring.{
  ScoreConfig, default_score, raw_score, clamp_score, final_status, apply,
}

clamp_score_bounds : (s : ℤ) → (pos 0 ≤ℤ clamp_score s) × (clamp_score s ≤ℤ pos 100)
unfolding clamp_score
clamp_score_bounds s = ground arith

final_status_set : (cfg : ScoreConfig) (b : Bool) (s : ℤ) → is_unset (final_status cfg b s) ≡ false
unfolding final_status
final_status_set cfg b s = ground arith

-- The score lies between 0 and 100 under every configuration, a status is always set, and a status
-- that the pipeline has set stays.
pub apply_verdict :
    (cfg : ScoreConfig) (em : Email)
    → (pos 0 ≤ℤ (apply cfg em).score)
      × ((apply cfg em).score ≤ℤ pos 100)
      × (is_unset (apply cfg em).status ≡ false)
      × (is_unset em.status ≡ false → (apply cfg em).status ≡ em.status)
unfolding apply
apply_verdict cfg em =
    let (low, high) = clamp_score_bounds (raw_score cfg.weights em) in
    (
      low,
      high,
      ground
          (arith, final_status_set cfg em.is_disposable (clamp_score (raw_score cfg.weights em))),
      λ h. ground arith,
    )

default_raw_score : (em : Email) → raw_score default_score.weights em ≤ℤ pos 75
unfolding raw_score default_score ◌+ℤ◌
default_raw_score em = ground arith

clamp_score-le : (s : ℤ) → s ≤ℤ pos 75 → clamp_score s ≤ℤ pos 75
unfolding clamp_score
clamp_score-le s h = ground arith

final_status-default :
    (b : Bool) (s : ℤ) → s ≤ℤ pos 75 → final_status default_score b s ≢ Status.valid
unfolding final_status default_score
final_status-default b s h = ground arith

-- Under the default weights and thresholds no email is classified as valid: the weights add up to
-- 75 at most, and `ValidMin` is 80.
pub default_never_valid :
    (em : Email) → is_unset em.status ≡ true → (apply default_score em).status ≢ Status.valid
unfolding apply
default_never_valid em h = rw h (
    final_status-default em.is_disposable _
      (clamp_score-le (raw_score default_score.weights em) (default_raw_score em)))
