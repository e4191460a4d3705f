-- ===== src/App/Startup/Ready.antt =====
-- What `New` leaves behind, with an app and without one.
use mailclear.Base.{
  ℕ, ◌+◌, ◌≤◌, ◌<◌, ◌≡◌, sym, subst, List, [], ◌∷◌, none, some, ltb, arith, ◌⊎◌, if◌then◌else◌,
}
use mailclear.Text.{Text}
use mailclear.Cache.Connection.{new_redis_client}
use mailclear.Storage.Transactions.{Limits, apply_limits, new_pool}
use mailclear.Jobs.Repo.{Job, pending, running, failed, is_active, mark_stale_as_failed}
use mailclear.Jobs.Submit.{batch_size}
use mailclear.Workers.Pool
use mailclear.App.Config.{Config}
use mailclear.App.Startup.{
  Outside, App, postgres, redis, recover_stale, assemble, built, broken, new_app, new_with_redis,
  new_with_db, db_limits, new,
}

-- a job that was in the queue or in work, with no update in the last five minutes
abbrev pub IsStale : ℕ → Job → Type 0
IsStale now j = ((j.status ≡ pending) ⊎ (j.status ≡ running)) × (j.updated_at + 300 < now)

-- a row before the sweep and after it
abbrev pub IsSwept : ℕ → Job → Job → Type 0
IsSwept now j j' =
    (IsStale now j × (j' ≡ record j { status = failed; finished_at = some now; updated_at = now }))
    ⊎ ((¬ IsStale now j) × (j' ≡ j))

abbrev pub AllSwept : ℕ → List Job → List Job → Type 0
AllSwept now [] [] = Unit
AllSwept now (j ∷ js) (j' ∷ js') = IsSwept now j j' × AllSwept now js js'
AllSwept now _ _ = ⊥

mark_stale_as_failed-IsSwept : (now : ℕ) (j : Job) → IsSwept now j (mark_stale_as_failed now 300 j)
unfolding mark_stale_as_failed is_active
mark_stale_as_failed-IsSwept now j = ground arith

recover_stale-AllSwept :
    (now : ℕ) (jobs : List Job) → AllSwept now jobs (recover_stale none now jobs)
unfolding recover_stale
recover_stale-AllSwept now [] = tt
recover_stale-AllSwept now (j ∷ jobs) =
    (mark_stale_as_failed-IsSwept now j, recover_stale-AllSwept now jobs)

pub record IsReady (now : ℕ) (jobs : List Job) (a : App) : Type 0 where
  pub swept : AllSwept now jobs a.jobs
  pub some_worker : 1 ≤ a.pool.workers
  pub some_room : 1 ≤ a.pool.queue_cap
  pub batch : 1 ≤ a.batch

assemble-IsReady :
    (cfg : Config) (o : Outside) (limits : Limits) (size : ℕ) (jobs : List Job)
    → o.sweep_err ≡ none
    → IsReady o.now jobs (assemble cfg o limits size jobs)
unfolding assemble Pool.new_pool batch_size
assemble-IsReady cfg o limits size jobs swept = record {
  swept =
      subst (λ e. AllSwept o.now jobs (recover_stale e o.now jobs)) (sym swept)
        (recover_stale-AllSwept o.now jobs);
  some_worker = ground arith;
  some_room = ground arith;
  batch = ground arith;
}

-- no connection of `New` fails
pub record IsUp (cfg : Config) (o : Outside) : Type 0 where
  pub db_parse : o.db_parse_err ≡ none
  pub db_open : o.db_open_err ≡ none
  pub db_ping : o.db_ping_err ≡ none
  pub redis_parse : o.redis_parse_err ≡ none
  pub redis_ping : o.redis_ping_err ≡ none
  pub lru : o.lru_err cfg.cache.lru_size ≡ none

-- If nothing fails, `New` returns an app. In its table of jobs exactly the pending and running ones without
-- an update for more than five minutes are failed, with this as their end, and all others are as before;
-- and whatever the configuration, the pool has a worker to start and room for a task, and the batches
-- have at least one email.
pub new-IsReady :
    (cfg : Config) (o : Outside) (jobs : List Job)
    → IsUp cfg o
    → o.sweep_err ≡ none
    → (a : App) × (new cfg o jobs ≡ built a) × IsReady o.now jobs a
unfolding new new_with_db new_with_redis new_app new_pool new_redis_client
new-IsReady cfg o jobs up swept =
    let limits = apply_limits (db_limits cfg) o.driver in
    let size = if ltb 0 cfg.redis.pool_size then cfg.redis.pool_size else o.url_pool_size in
    (assemble cfg o limits size jobs, ground arith, assemble-IsReady cfg o limits size jobs swept)

-- Where the database is open and the client of Redis cannot be made, `New` returns an error and leaves the
-- pool of connections to the database open.
pub new_left_open :
    (cfg : Config) (o : Outside) (jobs : List Job) (e : Text)
    → o.db_parse_err ≡ none
    → o.db_open_err ≡ none
    → o.db_ping_err ≡ none
    → (o.redis_parse_err ≡ some e) ⊎ ((o.redis_parse_err ≡ none) × (o.redis_ping_err ≡ some e))
    → new cfg o jobs ≡ broken redis (postgres ∷ [])
unfolding new new_with_db new_with_redis new_pool new_redis_client
new_left_open cfg o jobs e db_parse db_open db_ping fails = ground arith
