-- ===== src/App/Startup.antt =====
-- `New` of internal/app/app.go and the flags of cmd/server/main.go and cmd/worker/main.go. What the
-- database, Redis, hashicorp's LRU and the operating system answer is an argument; the wiring of the
-- handlers, the metrics and the log is left out. Times are nanoseconds, but those of jobs are seconds.
pub mod Ready
use mailclear.Base.{
  ℕ, ◌*◌, Bool, true, false, ◌||◌, List, [], ◌∷◌, ◌++◌, Option, none, some, map, if◌then◌else◌,
}
use mailclear.Base.Int.{pos}
use mailclear.Text.{Text, Unicode, lit, text_eq}
use mailclear.Cache.Connection.{Connected, connected, new_redis_client}
use mailclear.Storage.Transactions.{Opened, opened, Limits, new_pool}
use mailclear.Storage.Transactions
use mailclear.Storage.Disposable.{RolePrefix}
use mailclear.Lookups.Registry.{Registry}
use mailclear.Lookups.Detector.{Detector}
use mailclear.Dns.Lookup.{Times, second}
use mailclear.Dns.Settings.{ResolverSettings, new_client, new_domain_limiter, new_resolver}
use mailclear.Dns.Aimd.{Controller, default_controller}
use mailclear.Jobs.Repo.{Job, mark_stale_as_failed}
use mailclear.Jobs.Submit.{batch_size}
use mailclear.Workers.Pool.{Pool}
use mailclear.Workers.Pool
use mailclear.App.Config.{Config}
use mailclear.App.Lists.{boot_registry, boot_detector, detect_self_unit}

-- `embedded_domains` and `embedded_prefixes` are the files in the binary, `binary` the last part of its
-- path, `url_pool_size` and `driver` what the URLs and the driver set, `lru_err` what `lru.New` answers,
-- and the lists are `none` where their statement fails
pub record Outside : Type 0 where
  pub unicode : Unicode
  pub embedded_domains : Text
  pub embedded_prefixes : Text
  pub binary : Text
  pub db_parse_err : Option Text
  pub db_open_err : Option Text
  pub db_ping_err : Option Text
  pub driver : Limits
  pub redis_parse_err : Option Text
  pub redis_ping_err : Option Text
  pub url_pool_size : ℕ
  pub lru_err : ℕ → Option Text
  pub domains : Option (List Text)
  pub prefixes : Option (List RolePrefix)
  pub sweep_err : Option Text
  pub now : ℕ

pub record App : Type 0 where
  pub db : Limits
  pub redis_pool_size : ℕ
  pub registry : Registry
  pub detector : Detector
  pub resolver : ResolverSettings
  pub controller : Controller
  pub jobs : List Job
  pub pool : Pool
  pub batch : ℕ
  pub self_unit : Text

pub data Component : Type 0 where
  postgres redis dns_lru : Component

-- the rows of the table of jobs after `MarkStaleAsFailed` with five minutes, whose error is ignored
unfoldable pub recover_stale : (sweep_err : Option Text) → (now : ℕ) → List Job → List Job
unfolding mark_stale_as_failed
recover_stale (some _) now jobs = jobs
recover_stale none now jobs = map (λ j. mark_stale_as_failed now 300 j) jobs

-- the part of `New` that cannot fail
unfoldable pub assemble : Config → Outside → Limits → (redis_pool_size : ℕ) → List Job → App
unfolding boot_registry boot_detector new_client new_domain_limiter new_resolver recover_stale
    Pool.new_pool batch_size detect_self_unit
assemble cfg o limits redis_pool_size jobs = record {
  db = limits;
  redis_pool_size = redis_pool_size;
  registry = boot_registry o.unicode o.embedded_domains o.domains;
  detector = boot_detector o.unicode o.embedded_prefixes o.prefixes;
  resolver =
      new_resolver
        (new_client cfg.dns.server (pos (cfg.dns.timeout * second)) (pos cfg.dns.retries)
          cfg.dns.edns_buffer)
        (new_domain_limiter (pos cfg.per_domain) (pos cfg.per_domain))
        (record {
          ttl_min = cfg.cache.ttl_min * second;
          ttl_max = cfg.cache.ttl_max * second;
          ttl_neg = cfg.cache.ttl_negative * second;
        });
  controller = default_controller;
  jobs = recover_stale o.sweep_err o.now jobs;
  pool = Pool.new_pool cfg.workers.count cfg.workers.job_queue_buffer;
  batch = batch_size cfg.workers.batch_size;
  self_unit = detect_self_unit o.binary;
}

-- The result of `New`: the app, or which part failed, with the connections that are left open.
pub data Built : Type 0 where
  built : App → Built
  broken : Component → (left_open : List Component) → Built

-- from the in-memory cache on
unfoldable pub new_app : Config → Outside → Limits → (redis_pool_size : ℕ) → List Job → Built
unfolding assemble
new_app cfg o limits size jobs = elim (o.lru_err cfg.cache.lru_size) [
  | some _ ↦ broken dns_lru (postgres ∷ redis ∷ [])
  | none ↦ built (assemble cfg o limits size jobs)
]

-- from the client of Redis on
unfoldable pub new_with_redis : Config → Outside → Limits → Connected → List Job → Built
unfolding new_app
new_with_redis cfg o limits (connected size) jobs = new_app cfg o limits size jobs
new_with_redis cfg o limits (Connected.failed _) jobs = broken redis (postgres ∷ [])

unfoldable pub new_with_db : Config → Outside → Opened → List Job → Built
unfolding new_with_redis new_redis_client
new_with_db cfg o (opened limits) jobs =
    new_with_redis cfg o limits
      (new_redis_client o.redis_parse_err o.redis_ping_err cfg.redis.pool_size o.url_pool_size) jobs
new_with_db cfg o (Transactions.failed _) jobs = broken postgres []

unfoldable pub db_limits : Config → Limits
db_limits cfg = record {
  max_conns = cfg.db.max_conns;
  min_conns = cfg.db.min_conns;
  max_lifetime = cfg.db.max_conn_lifetime;
}

-- `New`, over the rows of the table of jobs
unfoldable pub new : Config → Outside → List Job → Built
unfolding new_with_db new_pool db_limits
new cfg o jobs =
    new_with_db cfg o (new_pool o.db_parse_err o.db_open_err o.db_ping_err (db_limits cfg) o.driver)
      jobs

-- what `main` does with the arguments of the command: print and return, or start
pub data Started : Type 0 where
  show_version show_help run_app : Started

-- cmd/server
unfoldable pub server_flags : List Text → Started
server_flags [] = run_app
server_flags (a ∷ args) =
    let rest = server_flags args in
    if text_eq a (lit "--version") || text_eq a (lit "-v")
    then show_version
    else if text_eq a (lit "--help") || text_eq a (lit "-h")
    then show_help
    else rest

-- cmd/worker
unfoldable pub worker_flags : List Text → Started
worker_flags [] = run_app
worker_flags (a ∷ args) =
    let rest = worker_flags args in
    if text_eq a (lit "--version") || text_eq a (lit "-v") then show_version else rest
