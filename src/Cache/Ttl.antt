-- ===== src/Cache/Ttl.antt =====
-- internal/cache/ttl.go and keys.go. What `rand.Float64` yields is a parameter: the size of the shift,
-- at most a tenth of the base, and whether it is a reduction.
use mailclear.Base.{
  ℕ, ◌+◌, ◌-◌, ◌*◌, ◌≤◌, ◌≡◌, ◌≢◌, ◌⊎◌, Bool, ◌&&◌, ◌++◌, ltb, ◌==◌, if◌then◌else◌, arith,
}
use mailclear.Text.{Text, Unicode, lit, to_lower}

-- `if base <= 0 { base = min }`
unfoldable pub base_ttl : (base low : ℕ) → ℕ
base_ttl base low = if base == 0 then low else base

unfoldable pub jittered_ttl : (base low high : ℕ) (reduce : Bool) (shift : ℕ) → ℕ
unfolding base_ttl
jittered_ttl base low high reduce shift =
    let d = if reduce then base_ttl base low - shift else base_ttl base low + shift in
    let d' = if ltb d low then low else d in if ltb 0 high && ltb high d' then high else d'

unfoldable pub mx_key : Unicode → Text → Text
mx_key u domain = lit "dns:mx:" ++ to_lower u domain

unfoldable pub a_key : Unicode → Text → Text
a_key u domain = lit "dns:a:" ++ to_lower u domain

unfoldable pub domain_status_key : Unicode → Text → Text
domain_status_key u domain = lit "dom:status:" ++ to_lower u domain

-- Keys of different kinds are never the same, whatever the domains.
pub mx_key-ne :
    (u : Unicode) (d e : Text)
    → (mx_key u d ≢ a_key u e)
      × (mx_key u d ≢ domain_status_key u e)
      × (a_key u d ≢ domain_status_key u e)
unfolding mx_key a_key domain_status_key lit
mx_key-ne u d e = (λ h. cc, λ h. cc, λ h. cc)

-- With a shift of at most a tenth, and an upper bound that is 0, for none, or not below the lower one,
-- the time to live is between the bounds; it is one of them, or within a tenth of the base.
pub jittered_ttl_bounds :
    (base low high : ℕ) (reduce : Bool) (shift : ℕ)
    → 10 * shift ≤ base_ttl base low
    → (high ≡ 0) ⊎ (low ≤ high)
    → (low ≤ jittered_ttl base low high reduce shift)
      × ((high ≡ 0) ⊎ (jittered_ttl base low high reduce shift ≤ high))
      × ((jittered_ttl base low high reduce shift ≡ low)
          ⊎ (jittered_ttl base low high reduce shift ≡ high)
          ⊎ ((9 * base_ttl base low ≤ 10 * jittered_ttl base low high reduce shift)
              × (10 * jittered_ttl base low high reduce shift ≤ 11 * base_ttl base low)))
unfolding jittered_ttl
jittered_ttl_bounds base low high reduce shift small order = ground arith
