-- ===== src/Workers/Retry.antt =====
-- internal/workers/retry.go. What the context says and what `fn` returns at each attempt are parameters;
-- how long it waits is in Workers/Backoff.
use mailclear.Base.{ℕ, zero, suc, ◌≤◌, ◌<◌, ◌≡◌, ◌≢◌, Option, none, some, ◌==◌, if◌then◌else◌}
use mailclear.Text.{Text}

-- the error that `Retry` returns and how often it called `fn`
pub record Tried : Type 0 where
  pub err : Option Text
  pub calls : ℕ

-- `ended k` is `ctx.Err()` before the attempt with index k, `fired k` that of the `select` that waits
-- for it, and `fn k` the error of its call
module _ (ended fired fn : ℕ → Option Text) where
  -- the context before an attempt, then the wait unless it is the first
  unfoldable pub refused : ℕ → Option Text
  refused attempt = elim (ended attempt) [
    | some e ↦ some e
    | none ↦ if attempt == 0 then none else fired attempt
  ]

  -- the `n` attempts from `attempt` on
  unfoldable pub retry_from : (n attempt : ℕ) → (last : Option Text) → Tried
  unfolding refused
  retry_from zero attempt last = record { err = last; calls = attempt }
  retry_from (suc n) attempt last =
      let rest = retry_from n (suc attempt) (fn attempt) in
      elim (refused attempt) [
        | some e ↦ record { err = some e; calls = attempt }
        | none ↦ elim (fn attempt) [
          | none ↦ record { err = none; calls = suc attempt }
          | some e ↦ rest
        ]
      ]

  -- `Retry`
  unfoldable pub retry : (max_attempts : ℕ) → Tried
  unfolding retry_from
  retry max_attempts = retry_from max_attempts 0 none

  -- the error of the call before the attempt with index k
  abbrev pub last_error : ℕ → Option Text
  last_error zero = none
  last_error (suc k) = fn k

  -- why `Retry` made no more than `k` of `max_attempts` calls, and what it returns
  pub data IsOver (max_attempts : ℕ) : Tried → Type 0 where
    succeeded : (k : ℕ) → fn k ≡ none → IsOver max_attempts (record { err = none; calls = suc k })
    refused_at :
        (k : ℕ) (e : Text)
        → k < max_attempts
        → refused k ≡ some e
        → IsOver max_attempts (record { err = some e; calls = k })
    exhausted :
        (k : ℕ) → k ≡ max_attempts → IsOver max_attempts (record { err = last_error k; calls = k })

  -- every call was allowed, every call but the last failed, and why the last one was the last
  pub record IsRetried (max_attempts from : ℕ) (r : Tried) : Type 0 where
    pub calls_le : r.calls ≤ max_attempts
    pub allowed : (j : ℕ) → from ≤ j → j < r.calls → refused j ≡ none
    pub failed : (j : ℕ) → from ≤ j → suc j < r.calls → fn j ≢ none
    pub over : IsOver max_attempts r
