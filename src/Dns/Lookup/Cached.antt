-- ===== src/Dns/Lookup/Cached.antt =====
-- What `LookupMX` of internal/dns/resolver.go leaves in the cache.
use mailclear.Base.{
  ℕ, ◌+◌, ◌/◌, ◌≤◌, ◌≡◌, sym, subst, ◌⊎◌, inr, true, false, [], Option, none, some, arith,
}
use mailclear.Text.{Text, Unicode, is_empty}
use mailclear.Cache.Lru.{Entry, Store, IsStore}
use mailclear.Cache.Lru
use mailclear.Cache.Redis.{Client, Codec}
use mailclear.Cache.Multi.{Layers}
use mailclear.Cache.Multi
use mailclear.Cache.Multi.Freshness.{get-set}
use mailclear.Cache.Ttl.{mx_key}
use mailclear.Dns.Types.{DnsError, MxResult}
use mailclear.Dns.Resolver.{resolve_mx_with_retry, is_cacheable, err_from_status}
use mailclear.Dns.Lookup.{
  Times, Flight, second, cache_ttl_for, clean_domain, keep, fly, lookup_clean, lookup_mx, is_cached,
}

module _ (m : Store (Entry MxResult)) (cli : Client) (codec : Codec MxResult) (prefix : Text)
    (u : Unicode) (t : Times) where
  -- the result of the attempts of a flight
  abbrev pub flown : Flight → Text → MxResult
  flown f domain =
      (resolve_mx_with_retry (t.ttl_neg / second) f.ask f.cancelled
        (clean_domain m cli codec prefix u t domain)).0

  abbrev pub key_of : Text → Text
  key_of domain = mx_key u (clean_domain m cli codec prefix u t domain)

  -- a lookup that misses, and is let through by the limiter and the semaphore
  pub record IsFlight (now : ℕ) (f : Flight) (domain : Text) (c : Layers m cli codec prefix)
      : Type 0 where
    pub named : is_empty (clean_domain m cli codec prefix u t domain) ≡ false
    pub missed : (Multi.get m cli codec prefix now (key_of domain) c).0 ≡ none
    pub unlimited : f.limited ≡ none
    pub acquired : f.acquire ≡ none

  lookup_mx-flown :
      (now : ℕ) (f : Flight) (domain : Text) (c : Layers m cli codec prefix)
      → IsFlight now f domain c
      → lookup_mx m cli codec prefix u t now f domain (some c) ≡ record {
        res = some (flown f domain);
        err = err_from_status (flown f domain).status;
        cache =
            keep m cli codec prefix u t now f
              (key_of domain)
              (flown f domain)
              (some (Multi.get m cli codec prefix now (key_of domain) c).1);
        metrics =
            (resolve_mx_with_retry
              (t.ttl_neg / second)
              f.ask
              f.cancelled
              (clean_domain m cli codec prefix u t domain)).1;
      }
  unfolding lookup_mx lookup_clean fly
  lookup_mx-flown now f domain c h = ground (arith, h.named, h.missed, h.unlimited, h.acquired)

  -- A timeout or a server failure is never kept: a lookup whose attempts end in one leaves the cache as
  -- its own reading left it.
  pub lookup_mx_transient :
      (now : ℕ) (f : Flight) (domain : Text) (c : Layers m cli codec prefix)
      → IsFlight now f domain c
      → ((lookup_mx m cli codec prefix u t now f domain (some c)).err ≡ some DnsError.timeout)
        ⊎ ((lookup_mx m cli codec prefix u t now f domain (some c)).err ≡ some DnsError.servfail)
      → (lookup_mx m cli codec prefix u t now f domain (some c)).cache
        ≡ some (Multi.get m cli codec prefix now (key_of domain) c).1
  unfolding keep err_from_status is_cacheable
  lookup_mx_transient now f domain c h failed =
      let e = lookup_mx-flown now f domain c h in ground arith

  get-layers :
      (now : ℕ) (k : Text) (l : m.State) (r : Option cli.State)
      → (Multi.get m cli codec prefix now k (record { l1 = some l; l2 = r })).0 ≡ none
      → (l' : m.State) × ((Multi.get m cli codec prefix now k (record { l1 = some l; l2 = r })).1
          ≡ record { l1 = some l'; l2 = r })
  unfolding Multi.get Multi.get_l2
  get-layers now k l r missed = ((Lru.get m now k l).1, ground arith)

  cache_after :
      (now : ℕ) (f : Flight) (domain : Text) (l : m.State) (r : Option cli.State)
      → IsFlight now f domain (record { l1 = some l; l2 = r })
      → is_cacheable (flown f domain).status ≡ true
      → (l' : m.State) × ((lookup_mx m cli codec prefix u t now f domain
            (some (record { l1 = some l; l2 = r }))).cache
          ≡ some
              (Multi.set m cli codec prefix now
                (key_of domain)
                (flown f domain)
                (cache_ttl_for t f.reduce f.shift (flown f domain))
                (record { l1 = some l'; l2 = r })).1)
  unfolding keep
  cache_after now f domain l r h final =
      let e = lookup_mx-flown now f domain (record { l1 = some l; l2 = r }) h in
      let (l', kept) = get-layers now (key_of domain) l r h.missed in (l', ground arith)

  lookup_mx-hit :
      (now : ℕ) (f : Flight) (domain : Text) (c : Layers m cli codec prefix) (res : MxResult)
      → is_empty (clean_domain m cli codec prefix u t domain) ≡ false
      → (Multi.get m cli codec prefix now (key_of domain) c).0 ≡ some res
      → let reply = lookup_mx m cli codec prefix u t now f domain (some c) in
        (reply.res ≡ some res)
        × (reply.err ≡ err_from_status res.status)
        × (reply.metrics ≡ [])
        × (is_cached m cli codec prefix u t now domain (some c) ≡ true)
  unfolding lookup_mx lookup_clean is_cached
  lookup_mx-hit now f domain c res named hit = ground arith

  -- With the first layer on, a lookup whose attempts end in a final result answers for the next one:
  -- until the time to live has passed, the next lookup of the domain has the same result and error and
  -- asks no server, and `IsCached` holds.
  pub lookup_mx_again :
      IsStore m
      → (now now' : ℕ) (f f' : Flight) (domain : Text) (l : m.State) (r : Option cli.State)
      → IsFlight now f domain (record { l1 = some l; l2 = r })
      → is_cacheable (flown f domain).status ≡ true
      → now' ≤ now + cache_ttl_for t f.reduce f.shift (flown f domain)
      → let cache =
          (lookup_mx m cli codec prefix u t now f domain
            (some (record { l1 = some l; l2 = r }))).cache in
        let again = lookup_mx m cli codec prefix u t now' f' domain cache in
        (again.res ≡ some (flown f domain))
        × (again.err ≡ err_from_status (flown f domain).status)
        × (again.metrics ≡ [])
        × (is_cached m cli codec prefix u t now' domain cache ≡ true)
  lookup_mx_again laws now now' f f' domain l r h final fresh =
      let (l', kept) = cache_after now f domain l r h final in
      let ttl = cache_ttl_for t f.reduce f.shift (flown f domain) in
      let c =
        (Multi.set m cli codec prefix now (key_of domain) (flown f domain) ttl
          (record { l1 = some l'; l2 = r })).1 in
      let hit =
        get-set m laws cli codec prefix now now' ttl (key_of domain) (flown f domain) l' r
          (inr fresh) in
      subst
        (λ cache.
          let again = lookup_mx m cli codec prefix u t now' f' domain cache in
          (again.res ≡ some (flown f domain))
          × (again.err ≡ err_from_status (flown f domain).status)
          × (again.metrics ≡ [])
          × (is_cached m cli codec prefix u t now' domain cache ≡ true))
        (sym kept) (lookup_mx-hit now' f' domain c (flown f domain) h.named hit)
