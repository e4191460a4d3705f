-- ===== src/Tests/Server.antt =====
-- The handlers of the HTTP API.
use mailclear.Base.{
  ℕ, ◌<◌, ◌^◌, ◌≡◌, ◌≢◌, refl, List, [], ◌∷◌, Option, none, some, take, drop, false, arith,
}
use mailclear.Validation.Types.{same_status}
use mailclear.Text.{
  Text, lit, decimal, text_eq, is_ascii, to_lower, trim_space, trim_left, trim_right, lower_byte,
  is_space, index_byte, member, insert,
}
use mailclear.Importer.Reader.{
  Read, row, each, read_row, pick_email_column, at_column, has_at, is_header, email_at, seen_or_add,
}
use mailclear.Workers.Pool.{start, usage_at_least}
use mailclear.Jobs.Repo.{create, update_status}
use mailclear.Jobs.Submit.{Submitted, submit, chunks, enqueue}
use mailclear.Jobs.Results.{
  select_after, with_status, status_named, bulk_insert, insert_rows, insert_row, has_key, same_key,
}
use mailclear.Server.Http.{answer, parse_int_default, atoi, signed, parse_digits}
use mailclear.Server.JobHandlers.{results, last_id}
use mailclear.Server.JobHandlers.Cursor.{matching, results-next}
use mailclear.Server.ImportHandlers.{file, Backend, collect, read_emails, submit_emails, import_csv}
use mailclear.Server.ImportHandlers.Accepted.{IsImported, import_csv-IsImported}
use mailclear.Tests.Inputs.{ascii}
use mailclear.Tests.Tables.{plain, stored, stored-IsKeyed}

abbrev job_of : Text → Option Text
job_of id = some id

stored_risky :
    matching (lit "risky") (select_after (lit "j") (parse_int_default [] 0 0) stored.rows)
    ≡ some stored.rows
unfolding matching select_after with_status same_status status_named bulk_insert insert_rows
    insert_row has_key same_key text_eq lit parse_int_default
stored_risky = refl

shown : take (parse_int_default (lit "1") 100 1000) stored.rows ≢ []
unfolding parse_int_default atoi signed parse_digits lit bulk_insert insert_rows insert_row has_key
    same_key text_eq
shown e = absurd (ground arith)

small : last_id (take (parse_int_default (lit "1") 100 1000) stored.rows) < 2 ^ 63
unfolding last_id parse_int_default atoi signed parse_digits lit bulk_insert insert_rows insert_row
    has_key same_key text_eq
small = omega arith

results-next_example :
    let l = parse_int_default (lit "1") 100 1000 in
    let next = last_id (take l stored.rows) in
    (results job_of none (lit "j") (lit "risky") [] (lit "1") stored
      ≡ answer 200 (record { results = take l stored.rows; limit = l; next_cursor = next }))
    × (results job_of none (lit "j") (lit "risky") (decimal next) (lit "1") stored
        ≡ answer 200 (record {
          results = take l (drop l stored.rows);
          limit = l;
          next_cursor = last_id (take l (drop l stored.rows));
        }))
results-next_example =
    results-next job_of plain (lit "j") (lit "risky") [] (lit "1") (lit "j") stored stored.rows
      stored-IsKeyed refl stored_risky shown small

abbrev accepts : ℕ → Option Text
accepts _ = none

abbrev backend : Backend
backend = record { now = 1; size = 2; create_err = none; status_err = none; pool = accepts }

-- the same address twice
abbrev upload : List Read
upload = row (lit "ana@x.org" ∷ []) ∷ row (lit "ANA@x.org" ∷ []) ∷ []

accepted : (import_csv ascii (start 1 4) backend (λ _. false) (file upload)).0 ≡ answer 202 1
unfolding import_csv start usage_at_least submit_emails submit create chunks enqueue update_status
    collect read_emails each read_row pick_email_column at_column has_at is_header email_at
    seen_or_add lit text_eq to_lower trim_space is_ascii trim_left trim_right lower_byte is_space
    index_byte member insert
accepted = refl

import_csv-IsImported_example :
    (s : Submitted) × ((import_csv ascii (start 1 4) backend (λ _. false) (file upload)).1 ≡ some s)
    × IsImported ascii 2 (read_emails ascii (λ _. false) upload) 1 s
import_csv-IsImported_example =
    import_csv-IsImported ascii (start 1 4) backend (λ _. false) upload 1 (omega arith) accepted
