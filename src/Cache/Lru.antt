-- ===== src/Cache/Lru.antt =====
-- internal/cache/lru.go. The store is hashicorp's LRU cache, a parameter; each operation holds the
-- lock, and `now` is what `l.now()` returns.
use mailclear.Base.{ℕ, ◌+◌, ◌≡◌, Bool, false, Option, none, some, ltb, if◌then◌else◌}
use mailclear.Text.{Text}

-- `expires_at` is `none` where the time is zero
pub record Entry {ℓ} (V : Type ℓ) : Type ℓ where
  pub val : V
  pub expires_at : Option ℕ

-- the operations of `lru.Cache`, which keep the order of use in their state
pub record Store {ℓ} (V : Type ℓ) : Type (ℓ ⊔ 1) where
  pub State : Type 0
  pub get : Text → State → Option V × State
  pub add : Text → V → State → State
  pub remove : Text → State → State
  pub purge : State → State

-- documented of the store: an entry that was just added is there
pub record IsStore {ℓ} {V : Type ℓ} (m : Store V) : Type ℓ where
  pub get-add : (k : Text) (v : V) (s : m.State) → (m.get k (m.add k v s)).0 ≡ some v

module _ {ℓ} {V : Type ℓ} (m : Store (Entry V)) where
  -- `!e.expiresAt.IsZero() && l.now().After(e.expiresAt)`
  unfoldable pub is_expired : ℕ → Entry V → Bool
  is_expired now e = elim e.expires_at [ none ↦ false | some t ↦ ltb t now ]

  unfoldable pub get : ℕ → Text → m.State → Option V × m.State
  unfolding is_expired
  get now key s =
      let (found, s') = m.get key s in
      elim found [
        | none ↦ (none, s')
        | some e ↦ if is_expired now e then (none, m.remove key s') else (some e.val, s')
      ]

  unfoldable pub set : ℕ → Text → V → (ttl : ℕ) → m.State → m.State
  set now key v ttl s =
      m.add key (record { val = v; expires_at = if ltb 0 ttl then some (now + ttl) else none }) s

  unfoldable pub delete : Text → m.State → m.State
  delete key s = m.remove key s

  unfoldable pub purge : m.State → m.State
  purge s = m.purge s
