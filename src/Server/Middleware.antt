-- ===== src/Server/Middleware.antt =====
-- internal/server/middleware/metrics.go, internal/logger/middleware.go and the middlewares of `Build` in
-- internal/server/router.go. Those of chi are parameters. Durations and byte counts are left out.
pub mod Observed
use mailclear.Base.{ℕ, ◌+◌, ◌-◌, ◌≡◌, Bool, false, List, ◌∷◌, Option, none, some, if◌then◌else◌}
use mailclear.Text.{Text, is_empty}
use mailclear.Server.Health.{status_bucket}

-- `pattern` is what chi knows of the route after the handler, empty where none matched, and `upgrade`
-- whether the header `Connection` is `Upgrade`
pub record Request : Type 0 where
  pub method : Text
  pub path : Text
  pub pattern : Text
  pub upgrade : Bool

-- The handler returns, with the status that was written or 0; it panics, with the status if a header was
-- written before; or it panics with `http.ErrAbortHandler`.
pub data Outcome : Type 0 where
  replied : ℕ → Outcome
  panicked : Option ℕ → Outcome
  aborted : Outcome

-- the labels of one increment of `RequestsTotal`
pub record Counted : Type 0 where
  pub method : Text
  pub route : Text
  pub bucket : Text

pub record LogLine : Type 0 where
  pub method : Text
  pub path : Text
  pub status : ℕ

pub record Records : Type 0 where
  pub in_flight : ℕ
  pub counted : List Counted
  pub log : List LogLine

-- a handler over what is recorded
abbrev pub Handler : Type 0
Handler = Request → Records → Outcome × Records

unfoldable pub route_of : Request → Text
route_of r = if is_empty r.pattern then r.path else r.pattern

-- what is recorded once the inner handler has returned; a panic runs the deferred call only
unfoldable pub after_metrics : Request → Outcome × Records → Outcome × Records
unfolding route_of status_bucket
after_metrics r (replied status, m) = (
  replied status,
  record m {
    in_flight = m.in_flight - 1;
    counted =
        record { method = r.method; route = route_of r; bucket = status_bucket status } ∷ m.counted;
  },
)
after_metrics r (panicked s, m) = (panicked s, record m { in_flight = m.in_flight - 1 })
after_metrics r (aborted, m) = (aborted, record m { in_flight = m.in_flight - 1 })

-- `Metrics`
unfoldable pub metrics : Handler → Handler
unfolding after_metrics
metrics next r m = after_metrics r (next r (record m { in_flight = m.in_flight + 1 }))

unfoldable pub after_log : Request → Outcome × Records → Outcome × Records
after_log r (replied status, m) = (
  replied status,
  record m { log = record { method = r.method; path = r.path; status = status } ∷ m.log },
)
after_log r (panicked s, m) = (panicked s, m)
after_log r (aborted, m) = (aborted, m)

-- `HTTPMiddleware`
unfoldable pub http_middleware : Handler → Handler
unfolding after_log
http_middleware next r m = after_log r (next r m)

-- chi's middlewares
pub record Chi : Type 0 where
  pub request_id : Handler → Handler
  pub real_ip : Handler → Handler
  pub recoverer : Handler → Handler
  pub compress : Handler → Handler

-- the order of `Use`, the first outermost
unfoldable pub wrap : Chi → Handler → Handler
unfolding metrics http_middleware
wrap chi h =
    chi.request_id (chi.real_ip (chi.recoverer (chi.compress (http_middleware (metrics h)))))

-- documented of chi: three of the middlewares change the request or the encoding of the reply, and
-- `Recoverer` answers a panic with 500 if no header is written and the request does not ask for an
-- upgrade, cannot change a header that is written, and panics again with `http.ErrAbortHandler`
pub record IsChi (chi : Chi) : Type 0 where
  pub request_id-pass : (h : Handler) (r : Request) (m : Records) → chi.request_id h r m ≡ h r m
  pub real_ip-pass : (h : Handler) (r : Request) (m : Records) → chi.real_ip h r m ≡ h r m
  pub compress-pass : (h : Handler) (r : Request) (m : Records) → chi.compress h r m ≡ h r m
  pub recoverer-replied :
      (h : Handler) (r : Request) (m m' : Records) (s : ℕ)
      → h r m ≡ (replied s, m')
      → chi.recoverer h r m ≡ (replied s, m')
  pub recoverer-panicked :
      (h : Handler) (r : Request) (m m' : Records)
      → r.upgrade ≡ false
      → h r m ≡ (panicked none, m')
      → chi.recoverer h r m ≡ (replied 500, m')
  pub recoverer-late :
      (h : Handler) (r : Request) (m m' : Records) (s : ℕ)
      → h r m ≡ (panicked (some s), m')
      → chi.recoverer h r m ≡ (replied s, m')
  pub recoverer-aborted :
      (h : Handler) (r : Request) (m m' : Records)
      → h r m ≡ (aborted, m')
      → chi.recoverer h r m ≡ (aborted, m')
