-- ===== src/Cache/Redis.antt =====
-- internal/cache/redis.go. The client of Redis and the JSON codec are parameters.
use mailclear.Base.{ℕ, Bool, false, ◌++◌, Option, none, some}
use mailclear.Text.{Text}

-- the reply to a GET: the bytes, `redis.Nil` or an error
pub data Reply : Type 0 where
  bytes : Text → Reply
  nil : Reply
  broken : Reply

-- commands give `false` where they return an error
pub record Client : Type 1 where
  pub State : Type 0
  pub get : Text → State → Reply
  pub set : Text → Text → ℕ → State → Bool × State
  pub del : Text → State → Bool × State

pub record Codec {ℓ} (V : Type ℓ) : Type ℓ where
  pub marshal : V → Option Text
  pub unmarshal : Text → Option V

-- a value, `ErrMiss` or another error
pub data Fetched {ℓ} (V : Type ℓ) : Type ℓ where
  hit : V → Fetched V
  miss : Fetched V
  error : Fetched V

module _ {ℓ} {V : Type ℓ} (cli : Client) (codec : Codec V) (prefix : Text) where
  unfoldable pub get : Text → cli.State → Fetched V
  get key s = elim (cli.get (prefix ++ key) s) [
    | nil ↦ miss
    | broken ↦ error
    | bytes b ↦ elim (codec.unmarshal b) [ none ↦ error | some v ↦ hit v ]
  ]

  unfoldable pub set : Text → V → (ttl : ℕ) → cli.State → Bool × cli.State
  set key v ttl s = elim (codec.marshal v) [
    | none ↦ (false, s)
    | some b ↦ cli.set (prefix ++ key) b ttl s
  ]

  unfoldable pub delete : Text → cli.State → Bool × cli.State
  delete key s = cli.del (prefix ++ key) s
