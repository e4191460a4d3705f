-- ===== src/Cache/Connection.antt =====
-- internal/cache/redis_client.go. What the URL gives and what the server answers are parameters.
use mailclear.Base.{ℕ, Bool, true, false, Option, none, some, ltb, if◌then◌else◌}
use mailclear.Text.{Text}

-- an open client with the size of its pool, or an error with whether the client was closed
pub data Connected : Type 0 where
  connected : (pool_size : ℕ) → Connected
  failed : (closed : Bool) → Connected

-- `NewRedisClient`, where `url_size` is the size of the pool that the URL gives
unfoldable pub new_redis_client :
    (parse_err ping_err : Option Text) → (cfg_size url_size : ℕ) → Connected
new_redis_client (some _) ping_err cfg_size url_size = failed false
new_redis_client none (some _) cfg_size url_size = failed true
new_redis_client none none cfg_size url_size =
    connected (if ltb 0 cfg_size then cfg_size else url_size)
