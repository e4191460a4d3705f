-- ===== src/Server/ValidateHandlers/Answers.antt =====
-- What a batch that internal/server/handlers/validate.go answers has.
use mailclear.Base.{
  ◌≤◌, ◌≡◌, refl, ap, ◌∙◌, suc, Bool-cases, Option-cases, inl, inr, List, [], ◌∷◌, none, some,
  length, ltb, map, All, arith,
}
use mailclear.Text.{Text}
use mailclear.Validation.Validator.{Validator, validate_batch, Checks}
use mailclear.Validation.Validator.Total.{IsSticky, validated, validate_batch-take}
use mailclear.Server.Http.{answer}
use mailclear.Server.ValidateHandlers.{BatchReply, batch}

length-map : (v : Validator) (es : List (Text × Checks)) → length (map (validated v) es) ≡ length es
length-map v [] = refl
length-map v (e ∷ es) = ap suc (length-map v es)

batch_ok :
    (v : Validator) (es : List (Text × Checks)) (r : BatchReply)
    → batch v (some es) ≡ answer 200 r
    → ((validate_batch v es).error ≡ none)
      × (r.results ≡ (validate_batch v es).out)
      × (r.total ≡ length r.results)
      × (1 ≤ length es)
      × (length es ≤ 1000)
unfolding batch
batch_ok v [] r h = absurd (ground arith)
batch_ok v (e ∷ es) r h = elim (Bool-cases (ltb 1000 (length (e ∷ es)))) [
  | inl big ↦ absurd (ground arith)
  | inr fits ↦ elim (Option-cases (validate_batch v (e ∷ es)).error) [
    | inr (x, err) ↦ absurd (ground arith)
    | inl fine ↦ ground arith
  ]
]

-- Where a cancelled context stays cancelled, a batch that is answered has from 1 to 1000 emails, and the
-- reply has the result of `Validate` for each of them, in order, and their number.
pub batch-validated :
    (v : Validator) (es : List (Text × Checks)) (r : BatchReply)
    → All (λ e. IsSticky e.1) es
    → batch v (some es) ≡ answer 200 r
    → (r.results ≡ map (validated v) es)
      × (r.total ≡ length es)
      × (1 ≤ length es)
      × (length es ≤ 1000)
batch-validated v es r sticky h =
    let (fine, out, total, low, high) = batch_ok v es r h in
    let (k, firsts, whole) = validate_batch-take v es sticky in
    let all = out ∙ firsts ∙ ap (map (validated v)) (whole fine) in
    (all, total ∙ ap length all ∙ length-map v es, low, high)
