-- ===== src/Server/Middleware/Observed.antt =====
-- What a request leaves in the metrics and in the log.
use mailclear.Base.{ℕ, ◌+◌, ◌≡◌, refl, ◌∙◌, false, ◌∷◌, none, some, ltb, arith, if◌then◌else◌}
use mailclear.Text.{Text, lit, is_empty}
use mailclear.Server.Health.{status_bucket}
use mailclear.Server.Middleware.{
  Request, Outcome, replied, panicked, aborted, Records, Handler, route_of, after_metrics, metrics,
  after_log, http_middleware, Chi, wrap, IsChi,
}

-- a handler that records nothing itself
abbrev pub plain : (Request → Outcome) → Handler
plain f r m = (f r, m)

-- the class of a status, which is 5xx from 500 on and 1xx below 200
abbrev pub class_of : ℕ → Text
class_of s =
    if ltb s 300
    then (if ltb s 200 then lit "1xx" else lit "2xx")
    else (if ltb s 400 then lit "3xx" else if ltb s 500 then lit "4xx" else lit "5xx")

-- the reply and the records of a request to a handler with that outcome
unfoldable pub observed : Request → Outcome → Records → Outcome × Records
observed r (replied status) m = (
  replied status,
  record m {
    counted =
        record {
          method = r.method;
          route = if is_empty r.pattern then r.path else r.pattern;
          bucket = class_of status;
        }
        ∷ m.counted;
    log = record { method = r.method; path = r.path; status = status } ∷ m.log;
  },
)
observed r (panicked none) m = (replied 500, m)
observed r (panicked (some status)) m = (replied status, m)
observed r aborted m = (aborted, m)

bucket-class_of : (s : ℕ) → status_bucket s ≡ class_of s
unfolding status_bucket
bucket-class_of s = ground arith

module _ (chi : Chi) (f : Request → Outcome) (r : Request) (m : Records) (is_chi : IsChi chi) where
  -- the handler inside of `Recoverer`
  abbrev inner : Handler
  inner = chi.compress (http_middleware (metrics (plain f)))

  inner-eq :
      (o : Outcome)
      → f r ≡ o
      → inner r m ≡ after_log r (after_metrics r (o, record m { in_flight = m.in_flight + 1 }))
  unfolding metrics http_middleware
  inner-eq o h = is_chi.compress-pass (http_middleware (metrics (plain f))) r m ∙ rw h refl

  recovered-observed :
      (o : Outcome) → f r ≡ o → r.upgrade ≡ false → chi.recoverer inner r m ≡ observed r o m
  unfolding after_log after_metrics observed route_of
  recovered-observed (replied status) h plain_request =
      is_chi.recoverer-replied inner r m _ status (inner-eq (replied status) h)
      ∙ ground (arith, bucket-class_of status)
  recovered-observed (panicked none) h plain_request =
      is_chi.recoverer-panicked inner r m _ plain_request (inner-eq (panicked none) h)
      ∙ ground arith
  recovered-observed (panicked (some status)) h plain_request =
      is_chi.recoverer-late inner r m _ status (inner-eq (panicked (some status)) h) ∙ ground arith
  recovered-observed aborted h plain_request =
      is_chi.recoverer-aborted inner r m _ (inner-eq aborted h) ∙ ground arith

-- For a request without an upgrade to a handler that records nothing itself: if the handler returns, the
-- request is counted once, under its method, its route, or its path where no route matched, and the class
-- of its status, and it is logged once; if the handler panics, the reply is 500, or the status that was
-- written before, unless it panics with `http.ErrAbortHandler`, which goes on, and the request leaves
-- neither a count nor a line of the log. Either way the number of requests in flight is as before.
pub wrap-observed :
    (chi : Chi) (f : Request → Outcome) (r : Request) (m : Records)
    → IsChi chi
    → r.upgrade ≡ false
    → wrap chi (plain f) r m ≡ observed r (f r) m
unfolding wrap
wrap-observed chi f r m is_chi plain_request =
    is_chi.request_id-pass _ r m
    ∙ is_chi.real_ip-pass _ r m
    ∙ recovered-observed chi f r m is_chi (f r) refl plain_request
