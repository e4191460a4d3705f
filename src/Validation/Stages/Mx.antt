-- ===== src/Validation/Stages/Mx.antt =====
-- internal/validation/stages/mx.go. `lookup` is the answer of the resolver's `LookupMX` in this run.
use mailclear.Base.{Bool, true, false, not, ◌&&◌, Option, none, some, if◌then◌else◌}
use mailclear.Text.{Text, Unicode, lit, is_empty}
use mailclear.Dns.Types.{DnsError, MxResult, Answer, found, failed, message}
use mailclear.Lookups.Classifier.{Classifier, Label, is_free, classify}
use mailclear.Validation.Types.{Status, Classification, Email, add_reason}

-- `e.Classification == "" || e.Classification == ClassificationUnknown`
unfoldable pub is_open : Classification → Bool
is_open Classification.blank = true
is_open Classification.unknown = true
is_open _ = false

-- `validation.Classification(c)`
unfoldable pub of_label : Label → Classification
of_label Label.free = Classification.free
of_label Label.educational = Classification.educational
of_label Label.government = Classification.government
of_label Label.corporate = Classification.corporate

unfoldable pub label_domain : Unicode → Classifier → Email → Email
unfolding is_open of_label
label_domain u c e =
    if is_free u c e.domain
    then record e {
      is_free = true;
      classification = if is_open e.classification then Classification.free else e.classification;
    }
    else if is_open e.classification
    then record e { classification = of_label (classify u c e.domain) }
    else e

-- the `switch` on the error of the lookup
unfoldable pub on_error : DnsError → Email → Email × Option Text
on_error DnsError.nxdomain e =
    (add_reason (lit "NXDOMAIN") (lit "Domínio não existe") e, some (lit "nxdomain"))
on_error DnsError.timeout e = (
  record (add_reason (lit "DNS_TIMEOUT") (lit "Timeout consultando DNS") e) {
    status = Status.risky;
  },
  none,
)
on_error DnsError.servfail e = (
  record (add_reason (lit "DNS_SERVFAIL") (lit "Servidor DNS retornou falha") e) {
    status = Status.risky;
  },
  none,
)
on_error DnsError.rate_limited e = (
  record (add_reason (lit "DNS_RATE_LIMITED") (lit "Rate-limit por domínio") e) {
    status = Status.risky;
  },
  none,
)
on_error err e =
    (record (add_reason (lit "DNS_ERROR") (message err) e) { status = Status.risky }, none)

-- what follows a lookup without an error
unfoldable pub on_result : Unicode → Option Classifier → MxResult → Email → Email × Option Text
unfolding label_domain
on_result u classifier res e =
    let e' = record e { has_mx = res.has_mx; has_a = res.has_a } in
    if not res.has_mx && not res.has_a
    then (add_reason (lit "NO_MX") (lit "Domínio sem MX nem A") e', some (lit "no_mx"))
    else elim classifier [ none ↦ (e', none) | some c ↦ (label_domain u c e', none) ]

-- `MX.Run`
unfoldable pub mx :
    Unicode → (Text → Answer MxResult) → Option Classifier → Email → Email × Option Text
unfolding on_error on_result
mx u lookup classifier e =
    if is_empty e.domain then (e, some (lit "sem domínio")) else elim (lookup e.domain) [
      | failed err ↦ on_error err e
      | found res ↦ on_result u classifier res e
    ]
