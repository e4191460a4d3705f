-- ===== src/Server/ImportHandlers.antt =====
-- internal/server/handlers/import.go. The multipart form and the rows of encoding/csv are parameters; of
-- the file's name and size, which go to the metadata of the job, the model keeps nothing. `Each` ends with
-- no error or with that of the context, which `CSV` ignores.
pub mod Deduped
pub mod Accepted
use mailclear.Base.{
  ℕ, Bool, true, false, List, [], ◌∷◌, Option, none, some, length, if◌then◌else◌, ◌==◌,
}
use mailclear.Text.{Text, Unicode, lit}
use mailclear.Workers.Pool.{Pool, usage_at_least}
use mailclear.Importer.Reader.{Read, each, seen_or_add}
use mailclear.Jobs.Repo.{Job, create}
use mailclear.Jobs.Submit.{Submitted, submit}
use mailclear.Server.Http.{Reply, refuse, answer}

-- what the form has in its field "file"
pub data Upload : Type 0 where
  bad_form no_file : Upload
  file : List Read → Upload

-- the loop of the callback: the emails that were not seen before
unfoldable pub collect : Unicode → (seen : List Text) → List Text → List Text
unfolding seen_or_add
collect u seen [] = []
collect u seen (e ∷ es) =
    let (dup, seen') = seen_or_add u e seen in
    let rest = collect u seen' es in if dup then rest else e ∷ rest

-- the emails that `reader.Each` hands over
unfoldable pub read_emails : Unicode → (cancelled : ℕ → Bool) → List Read → List Text
unfolding each
read_emails u cancelled rows = (each u (λ _. none) cancelled 0 none [] rows).0

-- the errors of `Create` and `UpdateStatus`, and the answers of the pool
pub record Backend : Type 0 where
  pub now : ℕ
  pub size : ℕ
  pub create_err : Option Text
  pub status_err : Option Text
  pub pool : ℕ → Option Text

-- from the collected emails on
unfoldable pub submit_emails : Backend → List Text → Reply ℕ × Option Submitted
unfolding create submit
submit_emails b emails = elim b.create_err [
  | some _ ↦ (refuse 500 (lit "DB_ERROR"), none)
  | none ↦
      let s = submit b.now b.size b.status_err b.pool emails (create b.now (length emails)) in
      (
        elim s.err [ some _ ↦ refuse 500 (lit "SUBMIT_ERROR") | none ↦ answer 202 (length emails) ],
        some s,
      )
]

-- `CSV`, with what was submitted for the job that it created
unfoldable pub import_csv :
    Unicode → Pool → Backend → (cancelled : ℕ → Bool) → Upload → Reply ℕ × Option Submitted
unfolding usage_at_least collect read_emails submit_emails
import_csv u p b cancelled upload =
    if usage_at_least 9 10 p then (refuse 503 (lit "QUEUE_FULL"), none) else elim upload [
      | bad_form ↦ (refuse 400 (lit "BAD_UPLOAD"), none)
      | no_file ↦ (refuse 400 (lit "MISSING_FILE"), none)
      | file rows ↦ submit_emails b (collect u [] (read_emails u cancelled rows))
    ]
