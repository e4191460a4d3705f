-- ===== src/Dns/Resolver/Attempts.antt =====
-- Which attempt gives the result.
use mailclear.Base.{ℕ, suc, ◌≤◌, ◌<◌, ◌≡◌, ◌⊎◌, Bool, true, false, List}
use mailclear.Text.{Text}
use mailclear.Dns.Types.{MxResult, Answer}
use mailclear.Dns.Client.{Message}
use mailclear.Dns.Resolver.{Qtype, Metric, resolve_mx, is_final, retry_from}

module _ (ttl_neg : ℕ) (ask : ℕ → Qtype → Answer Message) (cancelled : ℕ → Bool)
    (domain : Text) where
  -- the result of the attempt with index `k`
  abbrev pub attempt : ℕ → MxResult
  attempt k = (resolve_mx ttl_neg (ask k) domain).0

  -- the attempt whose result is returned, of those from `i` to `stop`
  pub record IsTaken (i stop k : ℕ) : Type 0 where
    pub low : i ≤ k
    pub high : k ≤ stop
    pub before :
        (j : ℕ)
        → i ≤ j
        → j < k
        → (is_final (attempt j).status ≡ false) × (cancelled (suc j) ≡ false)
    pub last : (is_final (attempt k).status ≡ true) ⊎ ((k ≡ stop) ⊎ (cancelled (suc k) ≡ true))

  -- what the remaining attempts return, after the one with index `i`
  abbrev rest_of : ℕ → ℕ → List Metric → MxResult
  rest_of n i ms = (retry_from ttl_neg ask cancelled domain n (suc i) (attempt i, ms)).0
