-- ===== src/Tests/Operations.antt =====
-- The table of jobs, the controller, the middlewares and the start of a process.
use mailclear.Base.{
  Bool, false, ℕ, ◌≤◌, ◌≡◌, refl, List, [], ◌∷◌, Option, none, some, arith, if◌then◌else◌,
}
use mailclear.Text.{Text, lit}
use mailclear.Jobs.Repo
use mailclear.Jobs.Manager.{JobRow, create}
use mailclear.Jobs.Manager.Found.{new_row}
use mailclear.Dns.Semaphore.{Semaphore, new_semaphore}
use mailclear.Dns.Aimd.{Counters, Reader, default_controller}
use mailclear.Dns.Aimd.Run.{run, run_bounds}
use mailclear.Server.Middleware.{
  Request, Outcome, replied, panicked, aborted, Records, Chi, wrap, IsChi,
}
use mailclear.Server.Middleware.Observed.{plain, observed, wrap-observed}
use mailclear.App.Config.{defaults}
use mailclear.App.Startup.{Outside, App, built, new}
use mailclear.App.Startup.Ready.{IsReady, new-IsReady}
use mailclear.Tests.Inputs.{ascii}

abbrev as_json : ℕ → Option Text
as_json n = some (lit "{\"page\":1}")

abbrev old_rows : List JobRow
old_rows = new_row 0 (lit "j1") (lit "first") (lit "csv") 3 (lit "{}") ∷ []

abbrev counters : ℕ → ℕ → Counters
counters ok timeout = record { ok = ok; nxdomain = 0; timeout = timeout; servfail = 0; error = 0 }

abbrev readings : List Counters
readings = counters 100 0 ∷ counters 150 50 ∷ counters 900 51 ∷ []

abbrev unread : Reader
unread = record { last_total = 0; last_errors = 0 }

abbrev fresh : Semaphore
fresh = new_semaphore 256

fresh-limit : fresh.limit ≡ 256
unfolding new_semaphore
fresh-limit = refl

run_bounds_example :
    let s = run default_controller readings unread fresh in
    (32 ≤ s.limit)
    × (s.limit ≤ 4096)
    × (s.inflight ≡ fresh.inflight)
    × (s.acquired_total ≡ fresh.acquired_total)
run_bounds_example =
    run_bounds default_controller readings unread fresh (omega arith) (omega arith)
      (omega (arith, fresh-limit)) (omega (arith, fresh-limit))

recover : Bool → Outcome × Records → Outcome × Records
recover upgrade (panicked none, m) = (if upgrade then replied 200 else replied 500, m)
recover upgrade (panicked (some s), m) = (replied s, m)
recover upgrade (replied s, m) = (replied s, m)
recover upgrade (aborted, m) = (aborted, m)

abbrev bare_chi : Chi
bare_chi = record {
  request_id = λ h. h;
  real_ip = λ h. h;
  recoverer = λ h r m. recover r.upgrade (h r m);
  compress = λ h. h;
}

bare_chi-IsChi : IsChi bare_chi
unfolding recover
bare_chi-IsChi = record {
  request_id-pass = λ h r m. refl;
  real_ip-pass = λ h r m. refl;
  compress-pass = λ h r m. refl;
  recoverer-replied = λ h r m m' s e. rw (e, recover) refl;
  recoverer-panicked = λ h r m m' no e. rw (e, recover) (rw no refl);
  recoverer-late = λ h r m m' s e. rw (e, recover) refl;
  recoverer-aborted = λ h r m m' e. rw (e, recover) refl;
}

abbrev request : Request
request = record {
  method = lit "GET";
  path = lit "/api/v1/jobs/7";
  pattern = lit "/api/v1/jobs/{id}";
  upgrade = false;
}

abbrev no_records : Records
no_records = record { in_flight = 0; counted = []; log = [] }

wrap-observed_example :
    wrap bare_chi (plain (λ _. panicked none)) request no_records
    ≡ observed request (panicked none) no_records
wrap-observed_example =
    wrap-observed bare_chi (λ _. panicked none) request no_records bare_chi-IsChi refl

-- everything answers, and one job of an earlier process runs
abbrev outside : Outside
outside = record {
  unicode = ascii;
  embedded_domains = lit "yopmail.com";
  embedded_prefixes = lit "admin";
  binary = lit "mailclear-api";
  db_parse_err = none;
  db_open_err = none;
  db_ping_err = none;
  driver = record { max_conns = 4; min_conns = 0; max_lifetime = 3600 };
  redis_parse_err = none;
  redis_ping_err = none;
  url_pool_size = 10;
  lru_err = λ _. none;
  domains = none;
  prefixes = none;
  sweep_err = none;
  now = 1000;
}

new-IsReady_example :
    (a : App) × (new (defaults 4) outside (Repo.create 1 3 ∷ []) ≡ built a)
    × IsReady 1000 (Repo.create 1 3 ∷ []) a
new-IsReady_example =
    new-IsReady (defaults 4) outside (Repo.create 1 3 ∷ [])
      (record {
        db_parse = refl;
        db_open = refl;
        db_ping = refl;
        redis_parse = refl;
        redis_ping = refl;
        lru = refl;
      })
      refl
