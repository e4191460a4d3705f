-- ===== src/Validation/Scoring.antt =====
-- internal/validation/scoring.go and the score section of internal/config. The sums of weights are
-- far below the range of Go's `int`, so they are integers.
pub mod Verdict
use mailclear.Base.{Bool, true, false, not, if◌then◌else◌}
use mailclear.Base.Int.{ℤ, pos, negsuc, ◌+ℤ◌, ltb_ℤ, leb_ℤ}
use mailclear.Text.{is_empty}
use mailclear.Validation.Types.{Status, Email, is_unset}

pub record ScoreWeights : Type 0 where
  pub syntax : ℤ
  pub tld : ℤ
  pub mx : ℤ
  pub a_fallback : ℤ
  pub disposable : ℤ
  pub role : ℤ
  pub typo : ℤ
  pub catch_all : ℤ

pub record ScoreConfig : Type 0 where
  pub valid_min : ℤ
  pub risky_min : ℤ
  pub weights : ScoreWeights

-- the score section of `config.Defaults`
unfoldable pub default_score : ScoreConfig
default_score = record {
  valid_min = pos 80;
  risky_min = pos 40;
  weights = record {
    syntax = pos 30;
    tld = pos 10;
    mx = pos 35;
    a_fallback = pos 15;
    disposable = negsuc 59;
    role = negsuc 14;
    typo = negsuc 9;
    catch_all = negsuc 19;
  };
}

-- `if b { score += w }`
abbrev pub add_if : Bool → ℤ → ℤ → ℤ
add_if b w score = if b then score +ℤ w else score

-- the sum of the weights of the signals, before it is clamped
unfoldable pub raw_score : ScoreWeights → Email → ℤ
raw_score w em =
    let s1 = add_if (not (is_empty em.normalized)) w.syntax (pos 0) in
    let s2 = if em.has_mx then s1 +ℤ w.mx else add_if em.has_a w.a_fallback s1 in
    let s3 = s2 +ℤ w.tld in
    let s4 = add_if em.is_disposable w.disposable s3 in
    let s5 = add_if em.is_role w.role s4 in add_if (not (is_empty em.suggested)) w.typo s5

unfoldable pub clamp_score : ℤ → ℤ
clamp_score score =
    let low = if ltb_ℤ score (pos 0) then pos 0 else score in
    if ltb_ℤ (pos 100) low then pos 100 else low

-- the `switch` at the end of `Apply`
unfoldable pub final_status : ScoreConfig → Bool → ℤ → Status
final_status cfg is_disposable score =
    if is_disposable
    then Status.disposable
    else if leb_ℤ cfg.valid_min score
    then Status.valid
    else if leb_ℤ cfg.risky_min score
    then Status.risky
    else Status.invalid

-- `ScoreEngine.Apply`
unfoldable pub apply : ScoreConfig → Email → Email
apply cfg em =
    let score = clamp_score (raw_score cfg.weights em) in
    record em {
      score = score;
      status = if is_unset em.status then final_status cfg em.is_disposable score else em.status;
    }
