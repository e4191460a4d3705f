-- ===== src/Dns/Aimd/Run.antt =====
-- internal/dns/adaptive.go, `Run`: the ticks before the end of the context, each with the counters that
-- its reader finds.
use mailclear.Base.{◌≤◌, ◌≡◌, refl, ◌∙◌, List, [], ◌∷◌}
use mailclear.Dns.Semaphore.{Semaphore}
use mailclear.Dns.Aimd.{Controller, Counters, Reader, read_rate, tick}
use mailclear.Dns.Aimd.Ticks.{tick_bounds}

unfoldable pub run : Controller → List Counters → Reader → Semaphore → Semaphore
unfolding read_rate tick
run c [] r s = s
run c (m ∷ ms) r s = let (r', total, errors) = read_rate m r in run c ms r' (tick c total errors s)

-- Whatever the counters show at its ticks, the controller keeps a limit that is between `minLimit` and
-- `maxLimit` there, and leaves the slots in use alone.
pub run_bounds :
    (c : Controller) (ms : List Counters) (r : Reader) (s : Semaphore)
    → 1 ≤ c.min_limit
    → c.min_limit ≤ c.max_limit
    → c.min_limit ≤ s.limit
    → s.limit ≤ c.max_limit
    → let s' = run c ms r s in
      (c.min_limit ≤ s'.limit)
      × (s'.limit ≤ c.max_limit)
      × (s'.inflight ≡ s.inflight)
      × (s'.acquired_total ≡ s.acquired_total)
unfolding run
run_bounds c [] r s pos order low high = (low, high, refl, refl)
run_bounds c (m ∷ ms) r s pos order low high =
    let (r', total, errors) = read_rate m r in
    let (low', high', inflight, acquired) = tick_bounds c total errors s pos order low high in
    let (low'', high'', inflight', acquired') =
      run_bounds c ms r' (tick c total errors s) pos order low' high' in
    (low'', high'', inflight' ∙ inflight, acquired' ∙ acquired)
