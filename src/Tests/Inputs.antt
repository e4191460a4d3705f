-- ===== src/Tests/Inputs.antt =====
-- Small inputs: ASCII text, a short list of domains, and stages around them.
use mailclear.Base.{[], ◌∷◌, none, some}
use mailclear.Text.{Text, Unicode, lit}
use mailclear.Typo.Corrector.{load}
use mailclear.Lookups.Registry
use mailclear.Lookups.Detector
use mailclear.Lookups.Classifier
use mailclear.Dns.Types.{failed, DnsError}
use mailclear.Validation.Types.{Email, new_email}
use mailclear.Validation.Scoring.{default_score}
use mailclear.Validation.Pipeline.{Ctx}
use mailclear.Validation.Validator.{Validator}
use mailclear.Validation.Stages.Normalize.{Names}
use mailclear.Validation.Stages.Chain.{World, pipeline}

abbrev pub ascii : Unicode
ascii = record { lower = λ s. s; trim = λ s. s }

abbrev pub common : Text
common = lit "gmail.com\nhotmail.com\n# comment\n\nyahoo.com"

abbrev pub plain_names : Names
plain_names = record { nfc = λ s. s; to_ascii = λ d. some d }

-- every lookup times out
abbrev pub world : World
world = record {
  unicode = ascii;
  names = plain_names;
  parse_address = λ _. none;
  tlds = lit "com" ∷ [];
  corrector = load ascii common;
  registry = Registry.new ascii (lit "yopmail.com");
  detector = Detector.new ascii (lit "admin");
  classifier = Classifier.new ascii (lit "gmail.com");
  lookup = λ _. failed DnsError.timeout;
}

abbrev pub validator : Validator
validator = record { pipe = pipeline world; scorer = default_score }

abbrev pub alive : Ctx
alive _ = none

abbrev pub raw : Text
raw = lit "ana@gmial.com"

abbrev pub ana : Email
ana = new_email raw
