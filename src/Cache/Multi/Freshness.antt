-- ===== src/Cache/Multi/Freshness.antt =====
-- How long the cascade answers with a value.
use mailclear.Base.{ℕ, ◌+◌, ◌≤◌, ◌≡◌, ◌⊎◌, inl, ltb, if◌then◌else◌, refl, Option, none, some, arith}
use mailclear.Text.{Text}
use mailclear.Cache.Lru.{Entry, Store, IsStore}
use mailclear.Cache.Lru
use mailclear.Cache.Redis.{Client, Codec, Fetched, hit, miss, error}
use mailclear.Cache.Redis
use mailclear.Cache.Multi.{get_l2, get, set}

module _ {ℓ} {V : Type ℓ} (m : Store (Entry V)) (laws : IsStore m) where
  lru_get-set :
      (t now ttl : ℕ) (k : Text) (v : V) (s : m.State)
      → (ttl ≡ 0) ⊎ (now ≤ t + ttl)
      → (Lru.get m now k (Lru.set m t k v ttl s)).0 ≡ some v
  unfolding Lru.get Lru.set
  lru_get-set t now ttl k v s fresh = ground (
    arith,
    laws.get-add k (record { val = v; expires_at = if ltb 0 ttl then some (t + ttl) else none }) s,
  )

module _ {ℓ} {V : Type ℓ} (m : Store (Entry V)) (laws : IsStore m) (cli : Client) (codec : Codec V)
    (prefix : Text) where
  -- With the first layer on, a lookup that follows the setting of a value finds it until its time to
  -- live has passed, where 0 is no end, whatever Redis did with it.
  pub get-set :
      (t now ttl : ℕ) (k : Text) (v : V) (l : m.State) (r : Option cli.State)
      → (ttl ≡ 0) ⊎ (now ≤ t + ttl)
      → (get m cli codec prefix now k
          (set m cli codec prefix t k v ttl (record { l1 = some l; l2 = r })).1).0
        ≡ some v
  unfolding get set
  get-set t now ttl k v l r fresh = ground (arith, lru_get-set m laws t now ttl k v l fresh)

  -- With the first layer on but without the value, a value found in Redis is found again by the lookup
  -- that follows at any time, whatever Redis holds by then: the first layer is refilled without an end.
  pub get-get_l2 :
      (t now : ℕ) (k : Text) (v : V) (l : m.State) (r : cli.State)
      → (Lru.get m t k l).0 ≡ none
      → Redis.get cli codec prefix k r ≡ hit v
      → (r' : cli.State)
      → (get m cli codec prefix now k
          (record (get m cli codec prefix t k (record { l1 = some l; l2 = some r })).1 {
            l2 = some r';
          })).0
        ≡ some v
  unfolding get get_l2
  get-get_l2 t now k v l r absent there r' =
      ground (arith, lru_get-set m laws t now 0 k v (Lru.get m t k l).1 (inl refl))
