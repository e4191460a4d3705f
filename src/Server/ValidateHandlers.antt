-- ===== src/Server/ValidateHandlers.antt =====
-- internal/server/handlers/validate.go, from the decoded body, which is `none` where the JSON is not valid.
pub mod Answers
use mailclear.Base.{ℕ, List, [], ◌∷◌, Option, none, some, length, ltb, if◌then◌else◌, map}
use mailclear.Text.{Text, lit, is_empty}
use mailclear.Validation.Types.{Email}
use mailclear.Validation.Pipeline.{Ctx}
use mailclear.Validation.Validator.{Validator, validate, validate_batch, Checks}
use mailclear.Server.Http.{Reply, refuse, answer}

-- `Single`
unfoldable pub single : Validator → Ctx → (body : Option Text) → Reply Email
unfolding validate
single v ctx none = refuse 400 (lit "BAD_BODY")
single v ctx (some email) =
    let o = validate v ctx email in
    if is_empty email
    then refuse 400 (lit "MISSING_EMAIL")
    else elim o.error [ some _ ↦ refuse 500 (lit "VALIDATION_ERROR") | none ↦ answer 200 o.email ]

pub record BatchReply : Type 0 where
  pub results : List Email
  pub total : ℕ

-- `Batch`; each email comes with what the context says around its validation
unfoldable pub batch : Validator → (body : Option (List (Text × Checks))) → Reply BatchReply
unfolding validate_batch
batch v none = refuse 400 (lit "BAD_BODY")
batch v (some []) = refuse 400 (lit "MISSING_EMAILS")
batch v (some (e ∷ es)) =
    let b = validate_batch v (e ∷ es) in
    if ltb 1000 (length (e ∷ es)) then refuse 413 (lit "BATCH_TOO_LARGE") else elim b.error [
      | some _ ↦ refuse 500 (lit "VALIDATION_ERROR")
      | none ↦ answer 200 (record { results = b.out; total = length b.out })
    ]
