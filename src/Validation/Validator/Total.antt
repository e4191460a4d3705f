-- ===== src/Validation/Validator/Total.antt =====
-- What a caller of `Validate` may rely on, whatever the stages are.
use mailclear.Base.{
  ℕ, ◌≡◌, refl, sym, ap, suc, take, ◌∙◌, Bool, false, Option, none, some, arith, List, [], ◌∷◌, inl,
  inr, Option-cases, ◌++◌, map, All, ◌≢◌,
}
use mathlib.Core.List.{append-nil, append_assoc}
use mailclear.Base.Int.{pos, ◌≤ℤ◌}
use mailclear.Text.{Text}
use mailclear.Validation.Types.{Email, new_email, is_unset}
use mailclear.Validation.Pipeline.{
  CtxError, Ctx, Outcome, run, run_from, prepend, Stage, Turn, stop, proceed, turn,
}
use mailclear.Validation.Pipeline.Runs.{run-Runs}
use mailclear.Validation.Scoring.Verdict.{apply_verdict}
use mailclear.Validation.Validator.{
  Validator, finish, validate, Checks, batch_turn, batch_from, validate_batch,
}

-- While its context is alive `Validate` returns no error, a status that is set and a score between 0
-- and 100; a status that the pipeline has set is the one that is returned.
pub validate_total :
    (v : Validator) (ctx : Ctx) (raw : Text)
    → ((n : ℕ) → ctx n ≡ none)
    → ((validate v ctx raw).error ≡ none)
      × (is_unset (validate v ctx raw).email.status ≡ false)
      × (pos 0 ≤ℤ (validate v ctx raw).email.score)
      × ((validate v ctx raw).email.score ≤ℤ pos 100)
      × (is_unset (run v.pipe ctx (new_email raw)).email.status ≡ false
          → (validate v ctx raw).email.status ≡ (run v.pipe ctx (new_email raw)).email.status)
unfolding validate
validate_total v ctx raw live =
    let o = run v.pipe ctx (new_email raw) in
    let ok : o.error ≡ none = (run-Runs v.pipe ctx (new_email raw) live).1 in
    let (low, high, closed, kept) = apply_verdict v.scorer o.email in
    simp (ok, finish) (refl, closed, low, high, kept)

-- the context, once cancelled, stays so: an error during an email shows after it
abbrev pub IsSticky : Checks → Type 0
IsSticky c = (n : ℕ) (err : CtxError) → c.during n ≡ some err → c.after ≢ none

-- what `Validate` returns for an email of a batch
abbrev pub validated : Validator → Text × Checks → Email
validated v (raw, c) = (validate v c.during raw).email

abbrev pub after_check : Bool → Ctx → ℕ → List Stage → Email → Option CtxError → Turn → Outcome
after_check m ctx n ss e o t = elim o [
  | some err ↦ record { email = e; error = some err; metrics = [] }
  | none ↦ elim t [
    | stop e' ms ↦ record { email = e'; error = none; metrics = ms }
    | proceed e' ms ↦ prepend ms (run_from m ctx (suc n) ss e')
  ]
]

run_from-error :
    (m : Bool) (ctx : Ctx) (n : ℕ) (ss : List Stage) (e : Email) {err : CtxError}
    → (run_from m ctx n ss e).error ≡ some err
    → (k : ℕ) × (ctx k ≡ some err)
unfolding run_from prepend
run_from-error m ctx n [] e h = absurd (ground arith)
run_from-error m ctx n (s ∷ ss) e {err} h =
    go (ctx n) refl (turn m s e) h (λ e'. run_from-error m ctx (suc n) ss e')
  where
    go :
        (o : Option CtxError)
        → ctx n ≡ o
        → (t : Turn) → (after_check m ctx n ss e o t).error ≡ some err
        → ((e' : Email)
            → (run_from m ctx (suc n) ss e').error ≡ some err
            → (k : ℕ) × (ctx k ≡ some err))
        → (k : ℕ) × (ctx k ≡ some err)
    go (some err') p t h ih = (n, p ∙ h)
    go none p (stop e' ms) h ih = absurd (ground arith)
    go none p (proceed e' ms) h ih = ih e' h

validate-error :
    (v : Validator) (ctx : Ctx) (raw : Text)
    → (validate v ctx raw).error ≡ (run v.pipe ctx (new_email raw)).error
unfolding validate finish
validate-error v ctx raw = ground arith

validate-error_ctx :
    (v : Validator) (ctx : Ctx) (raw : Text) {err : CtxError}
    → (validate v ctx raw).error ≡ some err
    → (k : ℕ) × (ctx k ≡ some err)
unfolding run
validate-error_ctx v ctx raw h =
    run_from-error v.pipe.metered ctx 0 v.pipe.stages (new_email raw)
      (sym (validate-error v ctx raw) ∙ h)

batch_turn-kept :
    (v : Validator) (raw : Text) (c : Checks)
    → IsSticky c
    → (batch_turn v raw c).1 ≡ none
    → (batch_turn v raw c).0 ≡ validated v (raw, c)
unfolding batch_turn
batch_turn-kept v raw c sticky h = elim (Option-cases (validate v c.during raw).error) [
  | inl ok ↦ simp (ok, batch_turn) refl
  | inr (err, bad) ↦ elim (Option-cases c.after) [
    | inl quiet ↦
        let (k, e) = validate-error_ctx v c.during raw bad in absurd (sticky k err e quiet)
    | inr (err', gone) ↦ absurd (ground arith)
  ]
]

batch_from-take :
    (v : Validator) (raws : List (Text × Checks)) (out : List Email)
    → All (λ r. IsSticky r.1) raws
    → (k : ℕ) × ((batch_from v raws out).out ≡ out ++ map (validated v) (take k raws))
      × ((batch_from v raws out).error ≡ none → take k raws ≡ raws)
unfolding batch_from
batch_from-take v [] out h = (0, sym (append-nil out), λ _. refl)
batch_from-take v ((raw, c) ∷ rest) out h = elim (Option-cases c.before) [
  | inr (err, b) ↦ (
    0,
    simp (b, batch_from) (sym (append-nil out)),
    simp (b, batch_from) (λ e. absurd (ground arith)),
  )
  | inl b ↦ elim (Option-cases (batch_turn v raw c).1) [
    | inr (err, t) ↦ (
      0,
      simp (b, batch_from, t) (sym (append-nil out)),
      simp (b, batch_from, t) (λ e. absurd (ground arith)),
    )
    | inl t ↦
        let (k, same, all) = batch_from-take v rest (out ++ ((batch_turn v raw c).0 ∷ [])) h.1 in
        (
          suc k,
          simp (b, batch_from, t)
              (same ∙ simp (batch_turn-kept v raw c h.0 t) (append_assoc out _ _)),
          simp (b, batch_from, t) (λ e. ap (◌∷◌ (raw, c)) (all e)),
        )
  ]
]

-- Where a cancelled context stays cancelled, a batch returns what `Validate` returns for the first
-- emails, in order, and for all of them unless it returns an error; no email is replaced by
-- `StatusUnknown`.
pub validate_batch-take :
    (v : Validator) (raws : List (Text × Checks))
    → All (λ r. IsSticky r.1) raws
    → (k : ℕ) × ((validate_batch v raws).out ≡ map (validated v) (take k raws))
      × ((validate_batch v raws).error ≡ none → take k raws ≡ raws)
unfolding validate_batch
validate_batch-take v raws h = batch_from-take v raws [] h
