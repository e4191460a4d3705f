-- ===== src/Dns/Aimd/Ticks.antt =====
-- How the limit moves.
use mailclear.Base.{ℕ, zero, suc, ◌+◌, ◌*◌, ◌/◌, ◌≤◌, ◌<◌, min, max, ◌≡◌, ◌∙◌, arith}
use mailclear.Dns.Semaphore.{Semaphore, set_limit}
use mailclear.Dns.Aimd.{Controller, default_controller, next_limit, clamp_limit, tick}

-- `Run` over ticks that all read the same counts
abbrev pub ticks : Controller → ℕ → ℕ → ℕ → Semaphore → Semaphore
ticks c zero total errors s = s
ticks c (suc n) total errors s = ticks c n total errors (tick c total errors s)

clamp_limit_bounds :
    (c : Controller) (n : ℕ)
    → c.min_limit ≤ c.max_limit
    → (c.min_limit ≤ clamp_limit c n) × (clamp_limit c n ≤ c.max_limit)
unfolding clamp_limit
clamp_limit_bounds c n h = ground arith

set_limit-eq : (n : ℕ) (s : Semaphore) → 1 ≤ n → set_limit n s ≡ record s { limit = n }
unfolding set_limit
set_limit-eq n s h = ground arith

-- A tick keeps a limit between `minLimit` and `maxLimit` there, whatever the counts, and leaves the
-- slots in use and the counter of acquired slots alone.
pub tick_bounds :
    (c : Controller) (total errors : ℕ) (s : Semaphore)
    → 1 ≤ c.min_limit
    → c.min_limit ≤ c.max_limit
    → c.min_limit ≤ s.limit
    → s.limit ≤ c.max_limit
    → (c.min_limit ≤ (tick c total errors s).limit)
      × ((tick c total errors s).limit ≤ c.max_limit)
      × ((tick c total errors s).inflight ≡ s.inflight)
      × ((tick c total errors s).acquired_total ≡ s.acquired_total)
unfolding tick
tick_bounds c total errors s pos order low high =
    let n = clamp_limit c (next_limit c s.limit total errors) in
    let (above, below) = clamp_limit_bounds c (next_limit c s.limit total errors) order in
    let written : set_limit n s ≡ record s { limit = n } = set_limit-eq n s (omega arith) in
    ground arith

-- a tick with enough samples, on the default controller, at a known next limit
tick_to :
    (total errors n : ℕ) (s : Semaphore)
    → 50 ≤ total
    → next_limit default_controller s.limit total errors ≡ n
    → (tick default_controller total errors s).limit ≡ clamp_limit default_controller n
unfolding tick
tick_to total errors n s many e =
    let (above, below) = clamp_limit_bounds default_controller n (omega arith) in
    let written = set_limit-eq (clamp_limit default_controller n) s (omega arith) in
    rw e (ground arith)

tick_healthy :
    (total errors : ℕ) (s : Semaphore)
    → 50 ≤ total
    → 100 * errors < total
    → 32 ≤ s.limit
    → (tick default_controller total errors s).limit ≡ min 4096 (s.limit + 64)
unfolding next_limit clamp_limit
tick_healthy total errors s many few low =
    tick_to total errors (s.limit + 64) s many (ground arith) ∙ ground arith

tick_critical :
    (total errors : ℕ) (s : Semaphore)
    → 50 ≤ total
    → 20 * total < 100 * errors
    → s.limit ≤ 4096
    → (tick default_controller total errors s).limit ≡ max 32 (s.limit / 4)
unfolding next_limit clamp_limit
tick_critical total errors s many most high =
    tick_to total errors (s.limit / 4) s many (ground arith) ∙ ground arith

-- Additive increase: with the default controller, `n` ticks with at least 50 queries each and an
-- error rate below 1% raise a limit between 32 and 4096 by 64 each, up to 4096.
pub ticks_healthy :
    (n total errors : ℕ) (s : Semaphore)
    → 50 ≤ total
    → 100 * errors < total
    → 32 ≤ s.limit
    → s.limit ≤ 4096
    → (ticks default_controller n total errors s).limit ≡ min 4096 (s.limit + 64 * n)
ticks_healthy zero total errors s many few low high = omega arith
ticks_healthy (suc n) total errors s many few low high =
    let s' = tick default_controller total errors s in
    let e : s'.limit ≡ min 4096 (s.limit + 64) = tick_healthy total errors s many few low in
    ticks_healthy n total errors s' many few (omega arith) (omega arith) ∙ omega arith

stays_at_min :
    (n total errors : ℕ) (s : Semaphore)
    → 50 ≤ total
    → 20 * total < 100 * errors
    → s.limit ≡ 32
    → (ticks default_controller n total errors s).limit ≡ 32
stays_at_min zero total errors s many most e = e
stays_at_min (suc n) total errors s many most e =
    let s' = tick default_controller total errors s in
    stays_at_min n total errors s' many most
      (tick_critical total errors s many most (omega arith) ∙ omega arith)

-- Fast decrease: with the default controller, four ticks or more with at least 50 queries each and an
-- error rate above 20% bring any limit up to 4096 down to 32.
pub ticks_critical :
    (n total errors : ℕ) (s : Semaphore)
    → 50 ≤ total
    → 20 * total < 100 * errors
    → s.limit ≤ 4096
    → (ticks default_controller (suc (suc (suc (suc n)))) total errors s).limit ≡ 32
ticks_critical n total errors s many most high =
    let c = default_controller in
    let s1 = tick c total errors s in
    let s2 = tick c total errors s1 in
    let s3 = tick c total errors s2 in
    let e1 : s1.limit ≡ max 32 (s.limit / 4) = tick_critical total errors s many most high in
    let e2 : s2.limit ≡ max 32 (s1.limit / 4) =
      tick_critical total errors s1 many most (omega arith) in
    let e3 : s3.limit ≡ max 32 (s2.limit / 4) =
      tick_critical total errors s2 many most (omega arith) in
    stays_at_min n total errors (tick c total errors s3) many most
      (tick_critical total errors s3 many most (omega arith) ∙ omega arith)
