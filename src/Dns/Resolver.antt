-- ===== src/Dns/Resolver.antt =====
-- internal/dns/resolver.go. `ask` is what `Client.Query` returns for a record type at one attempt, the
-- other packages are called through their models; durations are left out, and a time to live is a
-- number of seconds below 2^31. A caller that joins the flight of another one for the same key gets
-- that one's result, so `lookup_mx` is the flight.
pub mod Answers
pub mod Attempts
use mailclear.Base.{
  ℕ, zero, suc, Bool, true, false, not, ◌&&◌, List, [], ◌∷◌, ◌++◌, Option, none, some, ltb, leb,
  if◌then◌else◌,
}
use mailclear.Text.{Text, lit, trim_suffix}
use mailclear.Dns.Types.{DnsError, MxRecord, MxResult, MxStatus, Answer, found, failed}
use mailclear.Dns.Client.{Rr, Message}

pub data Qtype : Type 0 where
  mx a : Qtype

-- a counter of queries by type and result
pub data Metric : Type 0 where
  queries_total : Qtype → Text → Metric

-- the loop over the answers: the records of mail servers and the least time to live
unfoldable pub collect_mx : List Rr → List MxRecord → ℕ → List MxRecord × ℕ
collect_mx [] mxs ttl = (mxs, ttl)
collect_mx (Rr.mx host priority t ∷ rest) mxs ttl =
    collect_mx rest (mxs ++ (record { host = trim_suffix b'.' host; priority = priority } ∷ []))
      (if ltb t ttl then t else ttl)
collect_mx (Rr.a _ _ ∷ rest) mxs ttl = collect_mx rest mxs ttl
collect_mx (Rr.another _ ∷ rest) mxs ttl = collect_mx rest mxs ttl

-- `sort.SliceStable` by priority, which keeps the order of equal ones
unfoldable pub insert_mx : MxRecord → List MxRecord → List MxRecord
insert_mx x [] = x ∷ []
insert_mx x (y ∷ ys) = if leb x.priority y.priority then x ∷ y ∷ ys else y ∷ insert_mx x ys

unfoldable pub sort_mx : List MxRecord → List MxRecord
unfolding insert_mx
sort_mx [] = []
sort_mx (x ∷ xs) = insert_mx x (sort_mx xs)

unfoldable pub collect_a : List Rr → List Text
collect_a [] = []
collect_a (Rr.a ip _ ∷ rest) = ip ∷ collect_a rest
collect_a (Rr.mx _ _ _ ∷ rest) = collect_a rest
collect_a (Rr.another _ ∷ rest) = collect_a rest

abbrev pub is_nonempty {ℓ} : {A : Type ℓ} → List A → Bool
is_nonempty [] = false
is_nonempty (_ ∷ _) = true

-- `if res.Status == "ok" { res.Status = "no_mx" }`
unfoldable pub mark_no_mx : MxResult → MxResult
mark_no_mx res = elim res.status [ MxStatus.ok ↦ record res { status = MxStatus.no_mx } | _ ↦ res ]

-- `fallbackA` after an error of its query
unfoldable pub fallback_error : DnsError → MxResult → MxResult
unfolding mark_no_mx
fallback_error DnsError.timeout res = record res { status = MxStatus.timeout }
fallback_error DnsError.servfail res = record res { status = MxStatus.servfail }
fallback_error _ res = mark_no_mx res

-- `fallbackA` after an answer
unfoldable pub fallback_found : Message → MxResult → MxResult
unfolding collect_a mark_no_mx
fallback_found msg res =
    let ips = res.a ++ collect_a msg.answer in
    if is_nonempty ips
    then record res {
      a = ips;
      has_a = true;
      has_mx = false;
      status = MxStatus.ok;
      mx = record { host = res.domain; priority = 0 } ∷ [];
    }
    else mark_no_mx (record res { a = ips; has_a = false })

unfoldable pub fallback_a : (Qtype → Answer Message) → MxResult → MxResult × List Metric
unfolding fallback_error fallback_found
fallback_a ask res = elim (ask Qtype.a) [
  | failed err ↦ (fallback_error err res, queries_total Qtype.a (lit "error") ∷ [])
  | found msg ↦ (fallback_found msg res, queries_total Qtype.a (lit "ok") ∷ [])
]

unfoldable pub new_result : Text → MxResult
new_result domain = record {
  domain = domain;
  mx = [];
  has_mx = false;
  has_a = false;
  a = [];
  status = MxStatus.ok;
  ttl_seconds = 0;
}

-- the `case err == nil` of `resolveMX`
unfoldable pub on_answer : (Qtype → Answer Message) → Text → Message → MxResult × List Metric
unfolding collect_mx sort_mx fallback_a new_result
on_answer ask domain msg =
    let (mxs, ttl) = collect_mx msg.answer [] 3600 in
    let res = record (new_result domain) {
      mx = sort_mx mxs;
      has_mx = is_nonempty mxs;
      ttl_seconds = ttl;
    } in
    if is_nonempty mxs
    then (res, queries_total Qtype.mx (lit "ok") ∷ [])
    else let (res', ms) = fallback_a ask res in
      (res', ms ++ (queries_total Qtype.mx (lit "ok") ∷ []))

-- the other cases, with `r.ttlNeg` in seconds
unfoldable pub on_failure : ℕ → Text → DnsError → MxResult × List Metric
unfolding new_result
on_failure ttl_neg domain DnsError.nxdomain = (
  record (new_result domain) { status = MxStatus.nxdomain; ttl_seconds = ttl_neg },
  queries_total Qtype.mx (lit "nxdomain") ∷ [],
)
on_failure ttl_neg domain DnsError.servfail = (
  record (new_result domain) { status = MxStatus.servfail; ttl_seconds = ttl_neg },
  queries_total Qtype.mx (lit "servfail") ∷ [],
)
on_failure ttl_neg domain DnsError.timeout = (
  record (new_result domain) { status = MxStatus.timeout; ttl_seconds = ttl_neg },
  queries_total Qtype.mx (lit "timeout") ∷ [],
)
on_failure ttl_neg domain _ = (
  record (new_result domain) { status = MxStatus.servfail; ttl_seconds = ttl_neg },
  queries_total Qtype.mx (lit "error") ∷ [],
)

unfoldable pub resolve_mx : ℕ → (Qtype → Answer Message) → Text → MxResult × List Metric
unfolding on_answer on_failure
resolve_mx ttl_neg ask domain = elim (ask Qtype.mx) [
  | found msg ↦ on_answer ask domain msg
  | failed err ↦ on_failure ttl_neg domain err
]

abbrev pub max_retries : ℕ
max_retries = 2

-- `res.Status != "timeout" && res.Status != "servfail"`
unfoldable pub is_final : MxStatus → Bool
is_final MxStatus.timeout = false
is_final MxStatus.servfail = false
is_final _ = true

-- the attempts after the first: `n` of them, the next with index `i`; `cancelled i` tells whether the
-- context ends in the wait before attempt `i`
unfoldable pub retry_from :
    ℕ
    → (ℕ → Qtype → Answer Message)
    → (cancelled : ℕ → Bool) → Text
    → (n i : ℕ) → MxResult × List Metric
    → MxResult × List Metric
unfolding resolve_mx is_final
retry_from ttl_neg ask cancelled domain zero i (res, ms) = (res, ms)
retry_from ttl_neg ask cancelled domain (suc n) i (res, ms) =
    let (res', ms') = resolve_mx ttl_neg (ask i) domain in
    let rest = retry_from ttl_neg ask cancelled domain n (suc i) (res', ms ++ ms') in
    if is_final res.status then (res, ms) else if cancelled i then (res, ms) else rest

-- `resolveMXWithRetry`
unfoldable pub resolve_mx_with_retry :
    ℕ → (ℕ → Qtype → Answer Message) → (cancelled : ℕ → Bool) → Text → MxResult × List Metric
unfolding retry_from resolve_mx
resolve_mx_with_retry ttl_neg ask cancelled domain =
    retry_from ttl_neg ask cancelled domain max_retries 1 (resolve_mx ttl_neg (ask zero) domain)

unfoldable pub is_cacheable : MxStatus → Bool
is_cacheable MxStatus.ok = true
is_cacheable MxStatus.no_mx = true
is_cacheable MxStatus.nxdomain = true
is_cacheable _ = false

unfoldable pub err_from_status : MxStatus → Option DnsError
err_from_status MxStatus.nxdomain = some DnsError.nxdomain
err_from_status MxStatus.timeout = some DnsError.timeout
err_from_status MxStatus.servfail = some DnsError.servfail
err_from_status _ = none
