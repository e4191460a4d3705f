-- ===== src/Storage/Transactions.antt =====
-- internal/storage/tx.go and postgres.go. The database is a state; what it answers is a parameter.
use mailclear.Base.{ℕ, Bool, true, false, Option, none, some, ltb, if◌then◌else◌}
use mailclear.Text.{Text}

-- `TxRunner`, where `body` works on the state of the transaction: without its commit the state is as before
unfoldable pub tx_runner {ℓ} :
    {S : Type ℓ} (begin_err commit_err : Option Text)
    → (body : S → Option Text × S) → S
    → Option Text × S
tx_runner begin_err commit_err body s = elim begin_err [
  | some e ↦ (some e, s)
  | none ↦
      let (err, s') = body s in
      elim err [
        | some e ↦ (some e, s)
        | none ↦ elim commit_err [ some e ↦ (some e, s) | none ↦ (none, s') ]
      ]
]

-- the limits of a pool of connections
pub record Limits : Type 0 where
  pub max_conns : ℕ
  pub min_conns : ℕ
  pub max_lifetime : ℕ

-- the settings of `NewPool` over those of the driver, where they are positive
unfoldable pub apply_limits : (cfg driver : Limits) → Limits
apply_limits cfg driver = record {
  max_conns = if ltb 0 cfg.max_conns then cfg.max_conns else driver.max_conns;
  min_conns = if ltb 0 cfg.min_conns then cfg.min_conns else driver.min_conns;
  max_lifetime = if ltb 0 cfg.max_lifetime then cfg.max_lifetime else driver.max_lifetime;
}

-- `NewPool`: an open pool whose first ping fails is closed again, as the `true` tells
pub data Opened : Type 0 where
  opened : Limits → Opened
  failed : (closed : Bool) → Opened

unfoldable pub new_pool :
    (parse_err open_err ping_err : Option Text) → (cfg driver : Limits) → Opened
unfolding apply_limits
new_pool (some _) open_err ping_err cfg driver = failed false
new_pool none (some _) ping_err cfg driver = failed false
new_pool none none (some _) cfg driver = failed true
new_pool none none none cfg driver = opened (apply_limits cfg driver)
