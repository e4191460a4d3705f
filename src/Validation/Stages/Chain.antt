-- ===== src/Validation/Stages/Chain.antt =====
-- The pipeline that `app.New` builds, with the `Name` and `ShortCircuit` of each stage.
pub mod Statuses
use mailclear.Base.{ℕ, Bool, true, false, List, [], ◌∷◌, Option, none, some}
use mailclear.Text.{Text, Unicode, lit}
use mailclear.Typo.Corrector.{Corrector}
use mailclear.Lookups.Registry.{Registry}
use mailclear.Lookups.Detector.{Detector}
use mailclear.Lookups.Classifier.{Classifier}
use mailclear.Dns.Types.{MxResult, Answer}
use mailclear.Validation.Types.{Email}
use mailclear.Validation.Pipeline.{Stage, Pipeline}
use mailclear.Validation.Stages.Normalize.{Names, normalize}
use mailclear.Validation.Stages.Syntax.{syntax}
use mailclear.Validation.Stages.Tld.{check_tld}
use mailclear.Validation.Stages.Signals.{typo_bound, typo, disposable, role}
use mailclear.Validation.Stages.Mx.{mx}

-- what the stages are built from: the loaded sets, and the code that is not the program's
pub record World : Type 0 where
  pub unicode : Unicode
  pub names : Names
  pub parse_address : Text → Option Text
  pub tlds : List Text
  pub corrector : Corrector
  pub registry : Registry
  pub detector : Detector
  pub classifier : Classifier
  pub lookup : Text → Answer MxResult

-- A panic of the corrector ends the process; here the email is then left as it is.
unfoldable pub run_typo : World → Email → Email × Option Text
run_typo w e = elim (typo w.unicode (some w.corrector) (typo_bound 2) e) [
  | some r ↦ r
  | none ↦ (e, none)
]

unfoldable pub chain : World → List Stage
chain w =
    record { name = lit "normalize"; run = normalize w.unicode w.names; short_circuit = false }
    ∷ record { name = lit "syntax"; run = syntax w.unicode w.parse_address; short_circuit = true }
    ∷ record { name = lit "tld"; run = check_tld w.tlds; short_circuit = true }
    ∷ record { name = lit "typo"; run = run_typo w; short_circuit = false }
    ∷ record {
      name = lit "disposable";
      run = disposable w.unicode (some w.registry);
      short_circuit = false;
    }
    ∷ record { name = lit "role"; run = role w.unicode (some w.detector); short_circuit = false }
    ∷ record {
      name = lit "mx";
      run = mx w.unicode w.lookup (some w.classifier);
      short_circuit = true;
    }
    ∷ []

unfoldable pub pipeline : World → Pipeline
unfolding chain
pipeline w = record { stages = chain w; metered = true }
