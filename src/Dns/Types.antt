-- ===== src/Dns/Types.antt =====
-- internal/dns/errors.go, and the result types of internal/dns/resolver.go.
use mailclear.Base.{ℕ, Bool, List}
use mailclear.Text.{Text, lit}

-- the canonical errors; `other` is any error that is none of them, with its message
pub data DnsError : Type 0 where
  nxdomain servfail refused timeout no_records rate_limited : DnsError
  other : Text → DnsError

-- `err.Error()`
unfoldable pub message : DnsError → Text
message nxdomain = lit "nxdomain"
message servfail = lit "servfail"
message refused = lit "refused"
message timeout = lit "dns timeout"
message no_records = lit "no records"
message rate_limited = lit "rate limited"
message (other m) = m

-- `priority` is a uint16
pub record MxRecord : Type 0 where
  pub host : Text
  pub priority : ℕ

-- the strings of `MXResult.Status`
pub data MxStatus : Type 0 where
  ok no_mx nxdomain timeout servfail : MxStatus

-- `ttl_seconds` is the pattern of an int32, filled from a uint32
pub record MxResult : Type 0 where
  pub domain : Text
  pub mx : List MxRecord
  pub has_mx : Bool
  pub has_a : Bool
  pub a : List Text
  pub status : MxStatus
  pub ttl_seconds : ℕ

-- a value or an error of the package
pub data Answer {ℓ} (A : Type ℓ) : Type ℓ where
  found : A → Answer A
  failed : DnsError → Answer A
