-- ===== src/Dns/Lookup.antt =====
-- internal/dns/resolver.go, `LookupMX` and what it adds around the attempts, and internal/dns/rate.go,
-- whose token buckets are golang.org/x/time/rate, a parameter. Durations are nanoseconds.
pub mod Cached
use mailclear.Base.{
  ℕ, zero, ◌*◌, ◌/◌, Bool, true, false, List, [], Option, none, some, leb, if◌then◌else◌,
}
use mailclear.Text.{Text, Unicode, is_empty, to_lower, trim_suffix}
use mailclear.Cache.Lru.{Entry, Store}
use mailclear.Cache.Redis.{Client, Codec}
use mailclear.Cache.Multi.{Layers}
use mailclear.Cache.Multi
use mailclear.Cache.Ttl.{jittered_ttl, mx_key}
use mailclear.Dns.Types.{DnsError, MxResult, MxStatus, Answer}
use mailclear.Dns.Client.{Message}
use mailclear.Dns.Resolver.{Qtype, Metric, resolve_mx_with_retry, is_cacheable, err_from_status}

-- `DomainLimiter.Wait`, where the bucket of the domain answers whether its wait fails
unfoldable pub limiter_wait : Unicode → (rps : ℕ) → (Text → Bool) → Text → Option DnsError
limiter_wait u rps fails domain =
    if leb rps 0
    then none
    else if fails (to_lower u domain)
    then some DnsError.rate_limited
    else none

abbrev pub second : ℕ
second = 1000000000

pub record Times : Type 0 where
  pub ttl_min : ℕ
  pub ttl_max : ℕ
  pub ttl_neg : ℕ

-- what the calls of one flight return: the wait of the limiter, that of the semaphore, the queries and
-- waits of the attempts, and the random shift of the time to live
pub record Flight : Type 0 where
  pub limited : Option DnsError
  pub acquire : Option DnsError
  pub ask : ℕ → Qtype → Answer Message
  pub cancelled : ℕ → Bool
  pub reduce : Bool
  pub shift : ℕ

unfoldable pub cache_ttl_for : Times → Bool → ℕ → MxResult → ℕ
cache_ttl_for t reduce shift res = elim res.status [
  | MxStatus.nxdomain ↦ t.ttl_neg
  | _ ↦ jittered_ttl (res.ttl_seconds * second) t.ttl_min t.ttl_max reduce shift
]

module _ (m : Store (Entry MxResult)) (cli : Client) (codec : Codec MxResult) (prefix : Text)
    (u : Unicode) (t : Times) where
  abbrev pub Cache : Type 0
  Cache = Option (Layers m cli codec prefix)

  -- a result, an error or both, with the cache and the counters after the call
  pub record Reply : Type 0 where
    pub res : Option MxResult
    pub err : Option DnsError
    pub cache : Cache
    pub metrics : List Metric

  unfoldable pub clean_domain : Text → Text
  clean_domain domain = to_lower u (trim_suffix b'.' domain)

  -- `if r.cache != nil && isCacheable(res) { r.cache.Set }`
  unfoldable pub keep : ℕ → Flight → Text → MxResult → Cache → Cache
  unfolding is_cacheable cache_ttl_for Multi.set
  keep now f key res none = none
  keep now f key res (some c) =
      if is_cacheable res.status
      then some
          (Multi.set m cli codec prefix now key res (cache_ttl_for t f.reduce f.shift res) c).1
      else some c

  -- the function that singleflight runs, and what follows it
  unfoldable pub fly : ℕ → Flight → Text → Cache → Reply
  unfolding resolve_mx_with_retry err_from_status keep
  fly now f domain cache = elim f.limited [
    | some err ↦ record { res = none; err = some err; cache = cache; metrics = [] }
    | none ↦ elim f.acquire [
      | some err ↦ record { res = none; err = some err; cache = cache; metrics = [] }
      | none ↦
          let (res, ms) = resolve_mx_with_retry (t.ttl_neg / second) f.ask f.cancelled domain in
          record {
            res = some res;
            err = err_from_status res.status;
            cache = keep now f (mx_key u domain) res cache;
            metrics = ms;
          }
    ]
  ]

  unfoldable pub lookup_clean : ℕ → Flight → Text → Cache → Reply
  unfolding fly Multi.get
  lookup_clean now f domain none = fly now f domain none
  lookup_clean now f domain (some c) =
      let (hit, c') = Multi.get m cli codec prefix now (mx_key u domain) c in
      elim hit [
        | some res ↦ record {
          res = some res;
          err = err_from_status res.status;
          cache = some c';
          metrics = [];
        }
        | none ↦ fly now f domain (some c')
      ]

  -- `LookupMX`
  unfoldable pub lookup_mx : ℕ → Flight → Text → Cache → Reply
  unfolding clean_domain lookup_clean
  lookup_mx now f domain cache =
      if is_empty (clean_domain domain)
      then record { res = none; err = some DnsError.nxdomain; cache = cache; metrics = [] }
      else lookup_clean now f (clean_domain domain) cache

  -- `IsCached`
  unfoldable pub is_cached : ℕ → Text → Cache → Bool
  unfolding clean_domain Multi.get
  is_cached now domain none = false
  is_cached now domain (some c) =
      if is_empty (clean_domain domain)
      then false
      else elim (Multi.get m cli codec prefix now (mx_key u (clean_domain domain)) c).0 [
        | none ↦ false
        | some _ ↦ true
      ]
