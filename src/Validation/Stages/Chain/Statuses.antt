-- ===== src/Validation/Stages/Chain/Statuses.antt =====
-- The statuses that the pipeline of `app.New` can set.
use mailclear.Base.{
  ℕ, suc, ◌≡◌, ◌≢◌, refl, sym, subst, ◌∙◌, if◌then◌else◌, ◌⊎◌, inl, inr, Bool, true, List, [], ◌∷◌,
  Option, none, some, arith, All, Option-cases, Bool-cases,
}
use mailclear.Text.{Text, is_empty}
use mailclear.Dns.Types.{MxResult, DnsError, found, failed, Answer}
use mailclear.Validation.Types.{Status, Email, new_email, add_reason, is_unset}
use mailclear.Validation.Scoring.{default_score}
use mailclear.Validation.Scoring.Verdict.{default_never_valid, apply_verdict}
use mailclear.Validation.Pipeline.{
  CtxError, Ctx, Stage, Turn, stop, proceed, fail_at, settle, turn, prepend, run_from, run,
}
use mailclear.Validation.Validator.Total.{after_check}
use mailclear.Validation.Pipeline.Runs.{note_fail}
use mailclear.Validation.Validator.{validate, finish}
use mailclear.Validation.Stages.Normalize.{Names, normalize, split_parts, set_parts}
use mailclear.Validation.Stages.Syntax.{syntax, check_address, check_parts, check_split, fill_parts}
use mailclear.Validation.Stages.Tld.{check_tld}
use mailclear.Validation.Stages.Signals.{typo, note_typo, disposable, role}
use mailclear.Validation.Stages.Mx.{mx, on_error, on_result, label_domain}
use mailclear.Validation.Stages.Chain.{World, run_typo, chain, pipeline}

-- the statuses of an email before it is scored
pub data IsEarly : Status → Type 0 where
  undecided : IsEarly Status.unset
  rejected : IsEarly Status.invalid
  uncertain : IsEarly Status.risky

add_reason-status : (code msg : Text) (e : Email) → (add_reason code msg e).status ≡ e.status
unfolding add_reason
add_reason-status code msg e = ground arith

-- each stage
split_parts-status : (n : Names) (raw : Text) (e : Email) → (split_parts n raw e).status ≡ e.status
unfolding split_parts set_parts
split_parts-status n raw e = ground arith

normalize-status : (w : World) (e : Email) → (normalize w.unicode w.names e).0.status ≡ e.status
unfolding normalize
normalize-status w e = grind (arith, split_parts-status)

check_split-status : (l d : Text) (e : Email) → (check_split l d e).0.status ≡ e.status
unfolding check_split fill_parts
check_split-status l d e = grind (arith, add_reason-status)

check_parts-status : (e : Email) (addr : Text) → (check_parts e addr).0.status ≡ e.status
unfolding check_parts
check_parts-status e addr = grind (arith, add_reason-status, check_split-status)

check_address-status :
    (w : World) (s : Text) (e : Email)
    → (check_address w.unicode w.parse_address s e).0.status ≡ e.status
unfolding check_address
check_address-status w s e = grind (arith, add_reason-status, check_parts-status)

syntax-status : (w : World) (e : Email) → (syntax w.unicode w.parse_address e).0.status ≡ e.status
unfolding syntax
syntax-status w e = grind (arith, add_reason-status, check_address-status)

check_tld-status : (set : List Text) (e : Email) → (check_tld set e).0.status ≡ e.status
unfolding check_tld
check_tld-status set e = grind (arith, add_reason-status)

note_typo-status : (t : Text) (e : Email) → (note_typo t e).status ≡ e.status
unfolding note_typo
note_typo-status t e = grind (arith, add_reason-status)

run_typo-status : (w : World) (e : Email) → (run_typo w e).0.status ≡ e.status
unfolding run_typo typo
run_typo-status w e = grind (arith, note_typo-status)

disposable-status :
    (w : World) (e : Email) → (disposable w.unicode (some w.registry) e).0.status ≡ e.status
unfolding disposable
disposable-status w e = grind (arith, add_reason-status)

role-status : (w : World) (e : Email) → (role w.unicode (some w.detector) e).0.status ≡ e.status
unfolding role
role-status w e = grind (arith, add_reason-status)

on_result-status :
    (w : World) (r : MxResult) (e : Email)
    → (on_result w.unicode (some w.classifier) r e).0.status ≡ e.status
unfolding on_result label_domain
on_result-status w r e = grind (arith, add_reason-status)

on_error-status :
    (err : DnsError) (e : Email)
    → ((on_error err e).0.status ≡ e.status) ⊎ ((on_error err e).0.status ≡ Status.risky)
unfolding on_error
on_error-status DnsError.nxdomain e = inl (add_reason-status _ _ e)
on_error-status _ e = inr refl

abbrev by_answer : World → Email → Answer MxResult → Email × Option Text
by_answer w e a = elim a [
  | failed err ↦ on_error err e
  | found res ↦ on_result w.unicode (some w.classifier) res e
]

by_answer-status :
    (w : World) (e : Email) (a : Answer MxResult)
    → ((by_answer w e a).0.status ≡ e.status) ⊎ ((by_answer w e a).0.status ≡ Status.risky)
by_answer-status w e (failed err) = on_error-status err e
by_answer-status w e (found res) = inl (on_result-status w res e)

mx-status :
    (w : World) (e : Email)
    → ((mx w.unicode w.lookup (some w.classifier) e).0.status ≡ e.status)
      ⊎ ((mx w.unicode w.lookup (some w.classifier) e).0.status ≡ Status.risky)
unfolding mx
mx-status w e = elim (Bool-cases (is_empty e.domain)) [
  | inl none_yet ↦ simp (none_yet, mx) (inl refl)
  | inr some_domain ↦ simp (some_domain, mx) (by_answer-status w e (w.lookup e.domain))
]

abbrev Keeps : Stage → Type 0
Keeps s = (e : Email) → IsEarly e.status → IsEarly (s.run e).0.status

IsEarly-of_eq : {s t : Status} → t ≡ s → IsEarly s → IsEarly t
IsEarly-of_eq p h = subst IsEarly (sym p) h

mx-Keeps :
    (w : World) (e : Email)
    → IsEarly e.status
    → IsEarly (mx w.unicode w.lookup (some w.classifier) e).0.status
mx-Keeps w e h = elim (mx-status w e) [
  | inl same ↦ IsEarly-of_eq same h
  | inr risky ↦ IsEarly-of_eq risky uncertain
]

chain-Keeps : (w : World) → All Keeps (chain w)
unfolding chain
chain-Keeps w = (
  λ e. IsEarly-of_eq (normalize-status w e),
  (
    λ e. IsEarly-of_eq (syntax-status w e),
    (
      λ e. IsEarly-of_eq (check_tld-status w.tlds e),
      (
        λ e. IsEarly-of_eq (run_typo-status w e),
        (
          λ e. IsEarly-of_eq (disposable-status w e),
          (λ e. IsEarly-of_eq (role-status w e), (mx-Keeps w, tt)),
        ),
      ),
    ),
  ),
)

abbrev IsEarlyTurn : Turn → Type 0
IsEarlyTurn (stop e ms) = IsEarly e.status
IsEarlyTurn (proceed e ms) = IsEarly e.status

fail_at-IsEarly : (name : Text) (e : Email) → IsEarly e.status → IsEarly (fail_at name e).status
unfolding fail_at
fail_at-IsEarly name e h = early e.status h
  where
    early : (s : Status) → IsEarly s → IsEarly (if is_unset s then Status.invalid else s)
    early Status.unset _ = rejected
    early Status.invalid h = h
    early Status.risky h = h
    early Status.valid h = h
    early Status.unknown h = h
    early Status.disposable h = h

settle-IsEarly :
    (m : Bool) (s : Stage) (e : Email) (o : Option Text)
    → IsEarly e.status
    → IsEarlyTurn (settle m s e o)
unfolding settle
settle-IsEarly m s e none h = h
settle-IsEarly m s e (some reason) h = elim (Bool-cases s.short_circuit) [
  | inl c ↦ simp c (fail_at-IsEarly s.name (note_fail s.name reason e) h)
  | inr c ↦ simp c h
]

run_from-IsEarly :
    (m : Bool) (ctx : Ctx) (n : ℕ) (ss : List Stage) (e : Email)
    → All Keeps ss
    → IsEarly e.status
    → IsEarly (run_from m ctx n ss e).email.status
unfolding run_from turn prepend
run_from-IsEarly m ctx n [] e k h = h
run_from-IsEarly m ctx n (s ∷ ss) e k h =
    go (ctx n) (turn m s e) (settle-IsEarly m s (s.run e).0 (s.run e).1 (k.0 e h))
      (λ e'. run_from-IsEarly m ctx (suc n) ss e' k.1)
  where
    go :
        (o : Option CtxError) (t : Turn)
        → IsEarlyTurn t
        → ((e' : Email) → IsEarly e'.status → IsEarly (run_from m ctx (suc n) ss e').email.status)
        → IsEarly (after_check m ctx n ss e o t).email.status
    go (some err) t q ih = h
    go none (stop e' ms) q ih = q
    go none (proceed e' ms) q ih = ih e' q

pub run-IsEarly :
    (w : World) (ctx : Ctx) (raw : Text)
    → IsEarly (run (pipeline w) ctx (new_email raw)).email.status
unfolding run pipeline new_email
run-IsEarly w ctx raw =
    run_from-IsEarly true ctx 0 (chain w) (new_email raw) (chain-Keeps w) undecided

not_valid : {s : Status} → IsEarly s → s ≢ Status.valid
not_valid undecided = λ e. cc
not_valid rejected = λ e. cc
not_valid uncertain = λ e. cc

-- Under the default weights and thresholds the validator of `app.New` never returns the status
-- `valid`, for any text, any answers of the resolver and any loaded lists.
pub validate_never_valid :
    (w : World) (ctx : Ctx) (raw : Text)
    → (validate (record { pipe = pipeline w; scorer = default_score }) ctx raw).email.status
      ≢ Status.valid
unfolding validate
validate_never_valid w ctx raw =
    let o = run (pipeline w) ctx (new_email raw) in
    elim (Option-cases o.error) [
      | inr (err, bad) ↦ simp (bad, finish) (not_valid (run-IsEarly w ctx raw))
      | inl ok ↦ elim (Bool-cases (is_unset o.email.status)) [
        | inl free ↦ simp (ok, finish) (default_never_valid o.email free)
        | inr closed ↦
            simp (ok, finish)
              (λ e.
                not_valid (run-IsEarly w ctx raw)
                  (sym ((apply_verdict default_score o.email).3 closed) ∙ e))
      ]
    ]
