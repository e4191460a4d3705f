-- ===== src/Server/Health/Readiness.antt =====
-- When the readiness probe of internal/server/handlers/health.go succeeds.
use mailclear.Base.{
  ℕ, ◌≡◌, ◌≢◌, refl, ap, ◌↔◌, Bool, true, false, Option, none, some, List, ◌++◌, arith,
}
use mailclear.Text.{Text, lit}
use mailclear.Server.Http.{answer}
use mailclear.Server.Health.{Probes, probe, status_after, ready}

status_after_iff :
    (s : ℕ) (up : Option Bool) → (status_after s up ≡ 200) ↔ ((s ≡ 200) × (up ≢ some false))
unfolding status_after
status_after_iff s none = (λ e. (e, λ h. absurd (ground arith)), λ h. h.0)
status_after_iff s (some true) = (λ e. (e, λ h. absurd (ground arith)), λ h. h.0)
status_after_iff s (some false) = (λ e. absurd (omega arith), λ h. absurd (h.1 refl))

-- The service is ready, with the status 200, exactly if no service that is configured fails its probe.
pub ready_iff :
    (p : Probes)
    → ((entries : List (Text × Bool)) × (ready p ≡ answer 200 entries))
      ↔ ((p.db ≢ some false) × (p.redis ≢ some false) × (p.dns ≢ some false))
unfolding ready
ready_iff p =
    let entries_of =
      probe (lit "db") p.db ++ (probe (lit "redis") p.redis ++ probe (lit "dns") p.dns) in
    let a = status_after_iff 200 p.db in
    let b = status_after_iff (status_after 200 p.db) p.redis in
    let c = status_after_iff (status_after (status_after 200 p.db) p.redis) p.dns in
    (
      λ (entries, h).
          let e : status_after (status_after (status_after 200 p.db) p.redis) p.dns ≡ 200 =
            ground arith in
          let (up2, dns) = c.0 e in
          let (up1, redis) = b.0 up2 in let (up0, db) = a.0 up1 in (db, redis, dns),
      λ (db, redis, dns).
          (entries_of, ap (λ s. answer s entries_of) (c.1 (b.1 (a.1 (refl, db), redis), dns))),
    )
