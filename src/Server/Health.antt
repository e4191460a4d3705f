-- ===== src/Server/Health.antt =====
-- internal/server/handlers/health.go and stats.go, and the class of a status in
-- internal/server/middleware/metrics.go. A service that is not configured is `none`; a probe is `true`
-- where it succeeds.
pub mod Readiness
use mailclear.Base.{
  ℕ, ◌+◌, Bool, true, false, ◌&&◌, List, [], ◌∷◌, ◌++◌, Option, none, some, ltb, if◌then◌else◌, ◌≡◌,
  refl, ◌↔◌, arith,
}
use mailclear.Text.{Text, lit}
use mailclear.Jobs.Repo.{Job}
use mailclear.Jobs.Results.{GlobalStats, global}
use mailclear.Server.Http.{Reply, refuse, answer}

pub record Probes : Type 0 where
  pub db : Option Bool
  pub redis : Option Bool
  pub dns : Option Bool

-- one entry of the map, with whether the service is up
unfoldable pub probe : (name : Text) → Option Bool → List (Text × Bool)
probe name none = []
probe name (some up) = (name, up) ∷ []

unfoldable pub status_after : ℕ → Option Bool → ℕ
status_after status (some false) = 503
status_after status _ = status

-- `Ready`
unfoldable pub ready : Probes → Reply (List (Text × Bool))
unfolding probe status_after
ready p =
    answer (status_after (status_after (status_after 200 p.db) p.redis) p.dns)
      (probe (lit "db") p.db ++ (probe (lit "redis") p.redis ++ probe (lit "dns") p.dns))

-- `Live`
unfoldable pub live : Reply Text
live = answer 200 (lit "ok")

-- `Global` of the statistics
unfoldable pub stats : (db_err : Option Text) → List Job → Reply GlobalStats
unfolding global
stats (some _) jobs = refuse 500 (lit "DB_ERROR")
stats none jobs = answer 200 (global jobs)

unfoldable pub status_bucket : ℕ → Text
status_bucket s =
    if ltb s 200
    then lit "1xx"
    else if ltb s 300
    then lit "2xx"
    else if ltb s 400
    then lit "3xx"
    else if ltb s 500
    then lit "4xx"
    else lit "5xx"
