-- ===== src/Server/StatusPage.antt =====
-- `Status` of internal/server/handlers/admin.go. Its queries run in parallel and write different fields,
-- so they are independent; one that fails leaves its field as it was. The version, the uptime and the
-- numbers of the Go runtime are left out. Times are in seconds.
use mailclear.Base.{
  ℕ, Bool, true, false, not, ◌&&◌, List, [], Option, none, some, length, if◌then◌else◌,
}
use mailclear.Base.Int.{pos}
use mailclear.Text.{Text, lit}
use mailclear.Workers.Pool.{Pool}
use mailclear.Dns.Semaphore.{Semaphore}
use mailclear.Lookups.Registry.{Registry, size}
use mailclear.Jobs.Repo.{Job, running, count_by_status, list_stale}
use mailclear.Jobs.Results.{GlobalStats, global}
use mailclear.Server.JobHandlers.{list_jobs}
use mailclear.Server.AdminHandlers.{services, extract_info_line}

pub data Query : Type 0 where
  global_query list_query stale_query count_query info_query : Query

-- what the handler was made with, where `none` is a nil pointer or an empty name; the pings of the
-- services, the queries that fail, the table of jobs and the text of INFO
pub record Sources : Type 0 where
  pub db : Option Bool
  pub redis : Option Bool
  pub dns : Option Bool
  pub has_results : Bool
  pub has_jobs : Bool
  pub fails : Query → Bool
  pub now : ℕ
  pub jobs : List Job
  pub info : Text
  pub registry : Option Registry
  pub pool : Option Pool
  pub inflight : Option Semaphore

pub record StatusResponse : Type 0 where
  pub services : List (Text × Text)
  pub stats : Option GlobalStats
  pub jobs : List Job
  pub stuck_jobs : List Job
  pub redis_memory : Text
  pub in_memory_size : ℕ
  pub queue_len : ℕ
  pub queue_cap : ℕ
  pub dns_limit : ℕ
  pub dns_inflight : ℕ
  pub jobs_running : ℕ

-- a query that runs if its repository is there
unfoldable pub answers : (there : Bool) → Query → Sources → Bool
answers there q s = there && not (s.fails q)

unfoldable pub has_redis : Sources → Bool
has_redis s = elim s.redis [ none ↦ false | some _ ↦ true ]

unfoldable pub status : Sources → StatusResponse
unfolding answers has_redis
status s = record {
  services = services s.db s.redis s.dns;
  stats = if answers s.has_results global_query s then some (global s.jobs) else none;
  jobs =
      if answers s.has_jobs list_query s
      then elim (list_jobs (pos 10) (pos 0) s.jobs) [ none ↦ [] | some page ↦ page ]
      else [];
  stuck_jobs = if answers s.has_jobs stale_query s then list_stale s.now 300 20 s.jobs else [];
  redis_memory =
      if answers (has_redis s) info_query s
      then extract_info_line s.info (lit "used_memory_human:")
      else [];
  in_memory_size = elim s.registry [ none ↦ 0 | some r ↦ size r ];
  queue_len = elim s.pool [ none ↦ 0 | some p ↦ length p.queue ];
  queue_cap = elim s.pool [ none ↦ 0 | some p ↦ p.queue_cap ];
  dns_limit = elim s.inflight [ none ↦ 0 | some m ↦ m.limit ];
  dns_inflight = elim s.inflight [ none ↦ 0 | some m ↦ m.inflight ];
  jobs_running = if answers s.has_jobs count_query s then count_by_status running s.jobs else 0;
}
