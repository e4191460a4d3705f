-- ===== src/Workers/Backoff.antt =====
-- internal/workers/backoff.go. A `time.Duration` is an integer of 64 bits in two's complement; `base` and
-- `maxDelay` are not negative. The random delta, a product of floats, is a parameter.
use mailclear.Base.{
  ℕ, zero, suc, ◌+◌, ◌-◌, ◌*◌, ◌%◌, ◌^◌, ◌≤◌, ◌<◌, min, ◌≡◌, sym, subst, ltb, if◌then◌else◌, arith,
}
use mailclear.Base.Int.{ℤ, pos, negsuc, ◌+ℤ◌, pos_part, neg_part, ltb_ℤ}

abbrev two_63 : ℕ
two_63 = 0x8000000000000000

abbrev two_64 : ℕ
two_64 = 0x10000000000000000

-- the value of 64 bits that an integer wraps to
unfoldable pub int64 : ℤ → ℤ
int64 (pos n) = let q = n % two_64 in if ltb q two_63 then pos q else negsuc (two_64 - 1 - q)
int64 (negsuc n) = let q = n % two_64 in if ltb q two_63 then negsuc q else pos (two_64 - 1 - q)

-- `Backoff`, where `jitter` is the delta of the call
unfoldable pub backoff : (jitter : ℤ → ℤ) (attempt base max_delay : ℕ) → ℤ
unfolding int64
backoff jitter zero base max_delay = pos 0
backoff jitter (suc k) base max_delay =
    let d = int64 (pos (base * 2 ^ k)) in
    let capped = if ltb_ℤ (pos max_delay) d then pos max_delay else d in
    int64 (capped +ℤ jitter capped)

int64-pos : (n : ℕ) → n < two_63 → int64 (pos n) ≡ pos n
unfolding int64
int64-pos n h = ground arith

-- a quarter at most, in both directions
abbrev pub IsQuarter : (ℤ → ℤ) → Type 0
IsQuarter jitter =
    (d : ℕ) → (4 * pos_part (jitter (pos d)) ≤ d) × (4 * neg_part (jitter (pos d)) ≤ d)

shift_between :
    (jitter : ℤ → ℤ) (d : ℕ)
    → IsQuarter jitter
    → d < 2 ^ 62
    → (r : ℕ) × (int64 (pos d +ℤ jitter (pos d)) ≡ pos r) × (3 * d ≤ 4 * r) × (4 * r ≤ 5 * d)
unfolding ◌+ℤ◌
shift_between jitter d quarter small =
    let (up, down) = quarter d in
    let r = d + pos_part (jitter (pos d)) - neg_part (jitter (pos d)) in
    let sum : pos d +ℤ jitter (pos d) ≡ pos r = ground arith in
    (
      r,
      subst (λ z. int64 z ≡ pos r) (sym sum) (int64-pos r (omega arith)),
      omega arith,
      omega arith,
    )

-- While neither the doubled base nor the jitter overflow, the wait of an attempt after the first lies
-- within a quarter of the base doubled before each attempt, or of the greatest wait if that is less.
pub backoff_between :
    (jitter : ℤ → ℤ) (k base max_delay : ℕ)
    → IsQuarter jitter
    → base * 2 ^ k < 2 ^ 63
    → max_delay < 2 ^ 62
    → let d = min (base * 2 ^ k) max_delay in
      (r : ℕ) × (backoff jitter (suc k) base max_delay ≡ pos r) × (3 * d ≤ 4 * r) × (4 * r ≤ 5 * d)
unfolding backoff
backoff_between jitter k base max_delay quarter fits small =
    let p = base * 2 ^ k in
    let d = min p max_delay in
    let exact : int64 (pos p) ≡ pos p = int64-pos p (omega arith) in
    let capped : (if ltb_ℤ (pos max_delay) (int64 (pos p)) then pos max_delay else int64 (pos p))
        ≡ pos d =
      ground arith in
    let (r, same, low, high) = shift_between jitter d quarter (omega arith) in
    (r, subst (λ z. int64 (z +ℤ jitter z) ≡ pos r) (sym capped) same, low, high)
