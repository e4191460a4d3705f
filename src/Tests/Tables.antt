-- ===== src/Tests/Tables.antt =====
-- The table of results, its export, and the tables of domains.
use mailclear.Base.{
  ℕ, ◌≡◌, ◌==◌, if◌then◌else◌, ◌||◌, refl, List, [], ◌∷◌, ◌++◌, Option, none, some, map, Bool, true,
  false, arith,
}
use mailclear.Base.Int.{pos}
use mailclear.Text.{
  Text, lit, text_eq, split, is_ascii, to_lower, trim_space, trim_left, trim_right, lower_byte,
  is_space, has_prefix, onto_first,
}
use mailclear.Text.Lines.{entries, entries_of}
use mailclear.Validation.Types.{Status, Classification}
use mailclear.Jobs.Handler.{EmailResult}
use mailclear.Jobs.Repo.{create}
use mailclear.Jobs.Submit.{Submitted, submit, chunks, enqueue}
use mailclear.Jobs.Results.{
  Item, Emails, empty, key, same_key, has_key, insert_row, insert_rows, bulk_insert, of_job,
  list_originals_by_job,
}
use mailclear.Jobs.Results.Keys.{IsKeyed, bulk_insert-IsKeyed}
use mailclear.Jobs.Results.Batches.{named, IsDistinctOn, bulk_insert_again}
use mailclear.Jobs.Export.{Record, header, fields, export_csv}
use mailclear.Jobs.Export.Pages.{export_csv_cut, export_csv-whole}
use mailclear.Jobs.Requeue.{
  Answers, requeue, requeue_emails, IsResubmitted, originals, requeue-IsResubmitted,
}
use mailclear.Storage.Disposable.{
  holds, listed, seed, upsert_chunks, bulk_upsert, repeats, upsert_domains, upsert_domain,
}
use mailclear.Storage.Disposable.Seeded.{seed-holds}
use mailclear.Tests.Inputs.{ascii}

abbrev pub plain : Text → Text
plain s = s

abbrev result_of : Text → EmailResult
result_of email = record {
  email_original = email;
  email_normalized = email;
  local_part = [];
  domain = lit "x.org";
  status = Status.risky;
  classification = Classification.unknown;
  score = pos 75;
  suggested_email = none;
  is_disposable = false;
  is_role = false;
  has_mx = true;
}

abbrev item : Text → Item
item email = record { job_id = lit "j"; result = result_of email }

-- the second email occurs twice
abbrev items : List Item
items = item (lit "a@x.org") ∷ item (lit "b@x.org") ∷ item (lit "b@x.org") ∷ []

abbrev selected : List Item
selected = item (lit "b@x.org") ∷ item (lit "a@x.org") ∷ []

empty-IsKeyed : IsKeyed plain empty
empty-IsKeyed = record { rising = omega arith; unique = tt }

abbrev pub stored : Emails
stored = (bulk_insert plain selected none items empty).1

bulk_insert-IsKeyed_example : IsKeyed plain stored
bulk_insert-IsKeyed_example = bulk_insert-IsKeyed plain selected items none empty empty-IsKeyed

pub stored-IsKeyed : IsKeyed plain stored
stored-IsKeyed = bulk_insert-IsKeyed plain selected items none empty empty-IsKeyed

or_swap : (a b : Bool) → (b || (a || false)) ≡ (a || (b || (b || false)))
or_swap true true = refl
or_swap true false = refl
or_swap false true = refl
or_swap false false = refl

selected-IsDistinctOn : IsDistinctOn plain items selected
unfolding named
selected-IsDistinctOn = record {
  fewer = omega arith;
  covers = λ k.
      or_swap (same_key k (key plain (item (lit "a@x.org"))))
        (same_key k (key plain (item (lit "b@x.org"))));
}

bulk_insert_again_example :
    let again = bulk_insert plain selected none items stored in
    (again.0 ≡ (0, none)) × (again.1.rows ≡ stored.rows)
bulk_insert_again_example =
    bulk_insert_again plain items selected selected empty selected-IsDistinctOn
      selected-IsDistinctOn

abbrev never : ℕ → Option Text
never _ = none

-- the writer takes the header and one record
abbrev full_disk : ℕ → Option Text
full_disk n = if n == 2 then some (lit "no space left on device") else none

export_csv_cut_example :
    let w = export_csv never never full_disk never (lit "j") 1 stored in
    (left : List Record) × (w.records ++ left
      ≡ header ∷ map (λ r. fields r.item.result) (of_job (lit "j") stored.rows))
    × (w.err ≡ none → left ≡ [])
export_csv_cut_example =
    export_csv_cut plain never never full_disk never (lit "j") 1 stored stored-IsKeyed

export_csv-whole_example : export_csv never never never never (lit "j") 1 stored ≡ record {
  records = header ∷ map (λ r. fields r.item.result) (of_job (lit "j") stored.rows);
  err = none;
}
export_csv-whole_example =
    export_csv-whole plain never never never never (lit "j") 1 stored stored-IsKeyed
      (λ n. (refl, refl, refl, refl))

abbrev fine : Answers
fine = record {
  get_err = none;
  list_err = none;
  create_err = none;
  status_err = none;
  pool = never;
}

requeue-fine : (requeue 5 1 fine (lit "j") stored).err ≡ none
unfolding requeue requeue_emails list_originals_by_job of_job bulk_insert insert_rows insert_row
    has_key same_key text_eq lit submit chunks enqueue create
requeue-fine = refl

requeue-IsResubmitted_example :
    (s : Submitted) × ((requeue 5 1 fine (lit "j") stored).made ≡ some s)
    × IsResubmitted 1 (originals (lit "j") stored.rows) s
requeue-IsResubmitted_example =
    requeue-IsResubmitted 5 1 fine (lit "j") stored (omega arith) requeue-fine

abbrev body : Text
body = lit "Yopmail.com\n# list\n\nmailinator.com"

seed-fine : (seed plain ascii never body []).0 ≡ true
unfolding seed upsert_chunks bulk_upsert repeats listed upsert_domains upsert_domain chunks entries
    entries_of lit text_eq split onto_first to_lower trim_space is_ascii trim_left trim_right
    lower_byte is_space has_prefix
seed-fine = refl

seed-holds_example :
    holds plain (lit "yopmail.com") (seed plain ascii never body []).1
    ≡ (listed plain (lit "yopmail.com") (entries ascii body) || holds plain (lit "yopmail.com") [])
seed-holds_example = seed-holds plain ascii never body [] seed-fine (lit "yopmail.com")
