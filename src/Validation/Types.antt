-- ===== src/Validation/Types.antt =====
-- internal/validation/types.go. The zero value "" of a status is `unset`. Times are left out.
use mailclear.Base.{Bool, true, false, ◌||◌, List, [], ◌∷◌, ◌++◌, if◌then◌else◌}
use mailclear.Base.Int.{ℤ, pos}
use mailclear.Text.{Text, Unicode, to_lower, text_eq}

pub data Status : Type 0 where
  unset valid invalid risky unknown disposable : Status

pub data Classification : Type 0 where
  blank unknown personal role free corporate educational government : Classification

pub record Reason : Type 0 where
  pub code : Text
  pub message : Text

pub record StageOutcome : Type 0 where
  pub passed : Bool
  pub reason : Text

pub record Email : Type 0 where
  pub original : Text
  pub normalized : Text
  pub local_part : Text
  pub domain : Text
  pub has_mx : Bool
  pub has_a : Bool
  pub is_disposable : Bool
  pub is_role : Bool
  pub is_free : Bool
  pub suggested : Text
  pub status : Status
  pub score : ℤ
  pub classification : Classification
  pub reasons : List Reason
  pub failed_at : Text
  pub stages : List (Text × StageOutcome)

unfoldable pub new_email : Text → Email
new_email raw = record {
  original = raw;
  normalized = [];
  local_part = [];
  domain = [];
  has_mx = false;
  has_a = false;
  is_disposable = false;
  is_role = false;
  is_free = false;
  suggested = [];
  status = Status.unset;
  score = pos 0;
  classification = Classification.unknown;
  reasons = [];
  failed_at = [];
  stages = [];
}

-- the loop of `AddReason`
unfoldable pub has_code : Text → List Reason → Bool
has_code code [] = false
has_code code (r ∷ rs) = text_eq r.code code || has_code code rs

unfoldable pub add_reason : Text → Text → Email → Email
add_reason code msg e =
    if has_code code e.reasons
    then e
    else record e { reasons = e.reasons ++ (record { code = code; message = msg } ∷ []) }

unfoldable pub domain_lower : Unicode → Email → Text
domain_lower u e = to_lower u e.domain

-- `e.Status == ""`
abbrev pub is_unset : Status → Bool
is_unset Status.unset = true
is_unset _ = false

-- `status = $3`
unfoldable pub same_status : Status → Status → Bool
same_status Status.unset Status.unset = true
same_status Status.valid Status.valid = true
same_status Status.invalid Status.invalid = true
same_status Status.risky Status.risky = true
same_status Status.unknown Status.unknown = true
same_status Status.disposable Status.disposable = true
same_status _ _ = false

-- `e.Stages[name] = outcome`
unfoldable pub put_stage :
    Text → StageOutcome → List (Text × StageOutcome) → List (Text × StageOutcome)
put_stage name o [] = (name, o) ∷ []
put_stage name o ((k, p) ∷ m) = if text_eq k name then (k, o) ∷ m else (k, p) ∷ put_stage name o m
