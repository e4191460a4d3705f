-- ===== src/Cache/Multi.antt =====
-- internal/cache/multi.go. Either layer may be nil; a warning of the first layer is a log line.
pub mod Freshness
use mailclear.Base.{ℕ, Bool, true, Option, none, some}
use mailclear.Text.{Text}
use mailclear.Cache.Lru.{Entry, Store}
use mailclear.Cache.Lru
use mailclear.Cache.Redis.{Client, Codec, Fetched, hit, miss, error}
use mailclear.Cache.Redis

module _ {ℓ} {V : Type ℓ} (m : Store (Entry V)) (cli : Client) (codec : Codec V)
    (prefix : Text) where
  pub record Layers : Type 0 where
    pub l1 : Option m.State
    pub l2 : Option cli.State

  -- the second layer, which refills the first with a time to live of 0
  unfoldable pub get_l2 : ℕ → Text → Layers → Option V × Layers
  unfolding Lru.set Redis.get
  get_l2 now key s = elim s.l2 [
    | none ↦ (none, s)
    | some r ↦ elim (Redis.get cli codec prefix key r) [
      | hit v ↦ (
        some v,
        record s { l1 = elim s.l1 [ none ↦ none | some l ↦ some (Lru.set m now key v 0 l) ] },
      )
      | miss ↦ (none, s)
      | error ↦ (none, s)
    ]
  ]

  -- `Multi.Get`; `none` is `ErrMiss`
  unfoldable pub get : ℕ → Text → Layers → Option V × Layers
  unfolding Lru.get get_l2
  get now key s = elim s.l1 [
    | none ↦ get_l2 now key s
    | some l ↦
        let (found, l') = Lru.get m now key l in
        elim found [
          | some v ↦ (some v, record s { l1 = some l' })
          | none ↦ get_l2 now key (record s { l1 = some l' })
        ]
  ]

  -- `Multi.Set`, with whether the second layer accepted
  unfoldable pub set : ℕ → Text → V → (ttl : ℕ) → Layers → Bool × Layers
  unfolding Lru.set Redis.set
  set now key v ttl s =
      let l1' : Option m.State = elim s.l1 [
        | none ↦ none
        | some l ↦ some (Lru.set m now key v ttl l)
      ] in
      elim s.l2 [
        | none ↦ (true, record s { l1 = l1' })
        | some r ↦
            let (ok, r') = Redis.set cli codec prefix key v ttl r in
            (ok, record { l1 = l1'; l2 = some r' })
      ]

  unfoldable pub delete : Text → Layers → Bool × Layers
  unfolding Lru.delete Redis.delete
  delete key s =
      let l1' : Option m.State = elim s.l1 [ none ↦ none | some l ↦ some (Lru.delete m key l) ] in
      elim s.l2 [
        | none ↦ (true, record s { l1 = l1' })
        | some r ↦
            let (ok, r') = Redis.delete cli codec prefix key r in
            (ok, record { l1 = l1'; l2 = some r' })
      ]

  unfoldable pub purge_l1 : Layers → Layers
  unfolding Lru.purge
  purge_l1 s = record s { l1 = elim s.l1 [ none ↦ none | some l ↦ some (Lru.purge m l) ] }
