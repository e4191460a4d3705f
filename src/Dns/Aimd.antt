-- ===== src/Dns/Aimd.antt =====
-- internal/dns/adaptive.go, `AIMDController`, and internal/dns/stats_reader.go. A rate is a quotient
-- of counts, and is compared with a threshold of whole percents by cross multiplication: below 2^50
-- queries a tick this is what the comparison of the float64 values gives. A limit divided by a whole
-- factor and converted to int is the quotient of numbers.
pub mod Ticks
pub mod Deltas
pub mod Run
use mailclear.Base.{ℕ, ◌+◌, ◌-◌, ◌*◌, ◌/◌, Bool, Option, none, some, ltb, leb, ◌==◌, if◌then◌else◌}
use mailclear.Dns.Semaphore.{Semaphore, set_limit}

-- thresholds in percent; the log, the tick interval and the gauges are left out
pub record Controller : Type 0 where
  pub error_rate_upper : ℕ
  pub error_rate_critical : ℕ
  pub error_rate_lower : ℕ
  pub additive_step : ℕ
  pub multiplicative : ℕ
  pub fast_factor : ℕ
  pub min_limit : ℕ
  pub max_limit : ℕ
  pub min_samples : ℕ

-- `NewAIMDController`
abbrev pub default_controller : Controller
default_controller = record {
  error_rate_upper = 5;
  error_rate_critical = 20;
  error_rate_lower = 1;
  additive_step = 64;
  multiplicative = 2;
  fast_factor = 4;
  min_limit = 32;
  max_limit = 4096;
  min_samples = 50;
}

-- `rate > p` and `rate < p`, for the rate `errors / total` and `p` percent
unfoldable pub rate_above : (errors total p : ℕ) → Bool
rate_above errors total p = ltb (p * total) (100 * errors)

unfoldable pub rate_below : (errors total p : ℕ) → Bool
rate_below errors total p = ltb (100 * errors) (p * total)

-- the `switch` of `tick`
unfoldable pub next_limit : Controller → (old total errors : ℕ) → ℕ
unfolding rate_above rate_below
next_limit c old total errors =
    if rate_above errors total c.error_rate_critical
    then old / c.fast_factor
    else if rate_above errors total c.error_rate_upper
    then old / c.multiplicative
    else if rate_below errors total c.error_rate_lower
    then old + c.additive_step
    else old

unfoldable pub clamp_limit : Controller → ℕ → ℕ
clamp_limit c n =
    let low = if ltb n c.min_limit then c.min_limit else n in
    if ltb c.max_limit low then c.max_limit else low

-- `tick`, with what `getRate` returns
unfoldable pub tick : Controller → (total errors : ℕ) → Semaphore → Semaphore
tick c total errors s =
    if total == 0
    then s
    else if ltb total c.min_samples
    then s
    else let new_limit = clamp_limit c (next_limit c s.limit total errors) in
      if new_limit == s.limit then s else set_limit new_limit s

-- the counters of MX queries by result, and what `MakeRateReader` keeps between calls
pub record Counters : Type 0 where
  pub ok : ℕ
  pub nxdomain : ℕ
  pub timeout : ℕ
  pub servfail : ℕ
  pub error : ℕ

pub record Reader : Type 0 where
  pub last_total : ℕ
  pub last_errors : ℕ

unfoldable pub total_of : Counters → ℕ
total_of m = m.ok + m.nxdomain + m.timeout + m.servfail + m.error

-- `if now >= prev { delta = now - prev }`
unfoldable pub delta : ℕ → ℕ → ℕ
delta now prev = if leb prev now then now - prev else 0

-- one call of the reader
unfoldable pub read_rate : Counters → Reader → Reader × ℕ × ℕ
unfolding total_of delta
read_rate m r = (
  record { last_total = total_of m; last_errors = m.timeout },
  delta (total_of m) r.last_total,
  delta m.timeout r.last_errors,
)
