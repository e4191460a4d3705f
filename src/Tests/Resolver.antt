-- ===== src/Tests/Resolver.antt =====
-- The client, the resolver and its cache.
use mailclear.Base.{
  arith, ℕ, ◌≤◌, ◌≡◌, refl, ap, ◌⊎◌, inl, true, false, [], ◌∷◌, Option, none, some, if◌then◌else◌,
}
use mailclear.Text.{Text, lit, text_eq, to_lower, trim_suffix, is_ascii}
use mailclear.Text.Equality.{text_eq_refl}
use mailclear.Cache.Lru.{Entry, Store, IsStore}
use mailclear.Cache.Redis.{Client, Codec, nil}
use mailclear.Cache.Multi.{Layers}
use mailclear.Cache.Multi
use mailclear.Cache.Ttl.{mx_key}
use mailclear.Dns.Types.{DnsError, MxResult, MxStatus, Answer, found, failed}
use mailclear.Dns.Client.{Rr, Message, NetError, Exchange, query}
use mailclear.Dns.Client.Origin.{query_nxdomain}
use mailclear.Dns.Resolver.{Qtype, resolve_mx, resolve_mx_with_retry, is_cacheable, err_from_status}
use mailclear.Dns.Resolver.Answers.{servers, of_priority, Sorted, IsLeast, resolve_mx-servers}
use mailclear.Dns.Lookup.{Times, Flight, lookup_mx, is_cached, clean_domain}
use mailclear.Dns.Lookup.Cached.{flown, key_of, IsFlight, lookup_mx_transient, lookup_mx_again}
use mailclear.Tests.Inputs.{ascii}

abbrev lost : Exchange
lost = record { resp = none; err = some NetError.deadline }

abbrev two_servers : Message
two_servers = record {
  rcode = 0;
  truncated = false;
  answer = Rr.mx (lit "b.example.") 20 300 ∷ Rr.mx (lit "a.example.") 10 600 ∷ [];
}

abbrev unknown_name : Message
unknown_name = record { rcode = 3; truncated = false; answer = [] }

abbrev denied : ℕ → Exchange
denied _ = record { resp = some unknown_name; err = none }

denied_answer : query 2 denied lost ≡ failed DnsError.nxdomain
unfolding query
denied_answer = ground arith

query_nxdomain_example :
    (m : Message) × (m.rcode ≡ 3)
    × ((lost.resp ≡ some m) ⊎ ((k : ℕ) × (k ≤ 2) × ((denied k).resp ≡ some m)))
query_nxdomain_example = query_nxdomain 2 denied lost denied_answer

abbrev ask : Qtype → Answer Message
ask Qtype.mx = found two_servers
ask Qtype.a = failed DnsError.refused

resolve_mx-servers_example :
    let res = (resolve_mx 300 ask (lit "example")).0 in
    (res.status ≡ MxStatus.ok)
    × (res.has_mx ≡ true)
    × Sorted res.mx
    × ((p : ℕ) → of_priority p res.mx ≡ of_priority p (servers two_servers.answer))
    × (res.ttl_seconds ≤ 3600)
    × IsLeast res.ttl_seconds two_servers.answer
resolve_mx-servers_example =
    resolve_mx-servers 300 ask (lit "example") two_servers refl (λ e. absurd (ground arith))

-- a store of one entry
abbrev tiny_get :
    Text → Option (Text × Entry MxResult) → Option (Entry MxResult) × Option (Text × Entry MxResult)
tiny_get k none = (none, none)
tiny_get k (some (k', v)) = (if text_eq k k' then some v else none, some (k', v))

abbrev tiny : Store (Entry MxResult)
tiny = record {
  State = Option (Text × Entry MxResult);
  get = tiny_get;
  add = λ k v s. some (k, v);
  remove = λ k s. none;
  purge = λ s. none;
}

tiny-IsStore : IsStore tiny
tiny-IsStore = record { get-add = λ k v s. ap (λ b. if b then some v else none) (text_eq_refl k) }

abbrev silent : Client
silent = record {
  State = Unit {0};
  get = λ k s. nil;
  set = λ k v ttl s. (true, s);
  del = λ k s. (true, s);
}

abbrev sample : MxResult
sample = record {
  domain = lit "example";
  mx = [];
  has_mx = false;
  has_a = true;
  a = lit "192.0.2.1" ∷ [];
  status = MxStatus.ok;
  ttl_seconds = 300;
}

abbrev json : Codec MxResult
json = record { marshal = λ v. some (lit "{}"); unmarshal = λ b. some sample }

abbrev times : Times
times = record { ttl_min = 60000000000; ttl_max = 3600000000000; ttl_neg = 300000000000 }

abbrev flight : Flight
flight = record {
  limited = none;
  acquire = none;
  ask = λ _. ask;
  cancelled = λ _. false;
  reduce = false;
  shift = 0;
}

abbrev bad_flight : Flight
bad_flight = record {
  limited = none;
  acquire = none;
  ask = λ _ _. failed DnsError.timeout;
  cancelled = λ _. false;
  reduce = false;
  shift = 0;
}

abbrev empty : Layers tiny silent json []
empty = record { l1 = some none; l2 = some tt }

flies :
    (f : Flight)
    → f.limited ≡ none
    → f.acquire ≡ none
    → IsFlight tiny silent json [] ascii times 0 f (lit "example.") empty
unfolding Multi.get clean_domain lit to_lower trim_suffix mx_key is_ascii
flies f l a = record { named = refl; missed = refl; unlimited = l; acquired = a }

times_out :
    (lookup_mx tiny silent json [] ascii times 0 bad_flight (lit "example.") (some empty)).err
    ≡ some DnsError.timeout
unfolding lookup_mx lit to_lower trim_suffix mx_key is_ascii
times_out = refl

lookup_mx_transient_example :
    (lookup_mx tiny silent json [] ascii times 0 bad_flight (lit "example.") (some empty)).cache
    ≡ some
        (Multi.get tiny silent json [] 0
          (key_of tiny silent json [] ascii times (lit "example."))
          empty).1
lookup_mx_transient_example =
    lookup_mx_transient tiny silent json [] ascii times 0 bad_flight (lit "example.") empty
      (flies bad_flight refl refl) (inl times_out)

flown_final :
    is_cacheable (flown tiny silent json [] ascii times flight (lit "example.")).status ≡ true
unfolding resolve_mx_with_retry is_cacheable
flown_final = ground arith

lookup_mx_again_example :
    let cache =
      (lookup_mx tiny silent json [] ascii times 0 flight (lit "example.") (some empty)).cache in
    let again = lookup_mx tiny silent json [] ascii times 0 bad_flight (lit "example.") cache in
    (again.res ≡ some (flown tiny silent json [] ascii times flight (lit "example.")))
    × (again.err
        ≡ err_from_status (flown tiny silent json [] ascii times flight (lit "example.")).status)
    × (again.metrics ≡ [])
    × (is_cached tiny silent json [] ascii times 0 (lit "example.") cache ≡ true)
lookup_mx_again_example =
    lookup_mx_again tiny silent json [] ascii times tiny-IsStore 0 0 flight bad_flight
      (lit "example.") none (some tt) (flies flight refl refl) flown_final (omega arith)
