-- ===== src/Dns/Settings.antt =====
-- The constructors of internal/dns: `NewClient` (client.go), `NewDomainLimiter` (rate.go) and the
-- semaphore and times of `NewResolver` (resolver.go). Durations are nanoseconds. The connections of
-- miekg/dns and the buckets of golang.org/x/time/rate are left out.
use mailclear.Base.{ℕ, ◌*◌, ◌==◌, if◌then◌else◌}
use mailclear.Base.Int.{ℤ, pos, negsuc}
use mailclear.Text.{Text}
use mailclear.Dns.Semaphore.{Semaphore, new_semaphore}
use mailclear.Dns.Lookup.{Times, second}

pub record ClientSettings : Type 0 where
  pub upstream : Text
  pub timeout : ℕ
  pub retries : ℕ
  pub edns_buffer : ℕ

-- a duration, or the default where it is not positive
unfoldable pub positive_or : (default : ℕ) → ℤ → ℕ
positive_or default (pos n) = if n == 0 then default else n
positive_or default (negsuc _) = default

-- `NewClient`
unfoldable pub new_client :
    (upstream : Text) → (timeout retries : ℤ) → (edns_buffer : ℕ) → ClientSettings
unfolding positive_or
new_client upstream timeout retries edns_buffer = record {
  upstream = upstream;
  timeout = positive_or (2 * second) timeout;
  retries = elim retries [ pos n ↦ n | negsuc _ ↦ 0 ];
  edns_buffer = if edns_buffer == 0 then 4096 else edns_buffer;
}

pub record DomainLimiter : Type 0 where
  pub rps : ℤ
  pub burst : ℤ

-- `NewDomainLimiter`
unfoldable pub new_domain_limiter : (rps burst : ℤ) → DomainLimiter
new_domain_limiter rps burst = record {
  rps = rps;
  burst = elim burst [ pos n ↦ if n == 0 then rps else pos n | negsuc _ ↦ rps ];
}

abbrev pub inflight_initial : ℕ
inflight_initial = 256

pub record ResolverSettings : Type 0 where
  pub client : ClientSettings
  pub limiter : DomainLimiter
  pub times : Times
  pub inflight : Semaphore

-- `NewResolver`, without its cache and metrics
unfoldable pub new_resolver : ClientSettings → DomainLimiter → Times → ResolverSettings
unfolding new_semaphore
new_resolver client limiter times = record {
  client = client;
  limiter = limiter;
  times = times;
  inflight = new_semaphore inflight_initial;
}
