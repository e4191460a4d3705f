-- ===== src/Jobs/Results.antt =====
-- internal/storage/results_repo.go: the statements on the table of results, as functions, each in a
-- transaction of its own. `id` is the sequence that numbers the rows, which a row that conflicts also
-- takes from. The rows stand in the order of their ids. `fold` is the folding under which `citext`
-- compares. The JSON of the reasons and the times are left out.
pub mod Keys
pub mod Batches
use mailclear.Base.{
  ℕ, suc, ◌+◌, Bool, true, false, ◌&&◌, ◌||◌, List, [], ◌∷◌, ◌++◌, Option, none, some, map, length,
  take, ltb, if◌then◌else◌,
}
use mailclear.Text.{Text, lit, text_eq, is_empty}
use mailclear.Validation.Types.{Status, same_status}
use mailclear.Jobs.Repo.{Job}
use mailclear.Jobs.Handler.{EmailResult}

-- a result with its job, as `BulkInsert` takes it
pub record Item : Type 0 where
  pub job_id : Text
  pub result : EmailResult

pub record Row : Type 0 where
  pub id : ℕ
  pub item : Item

pub record Emails : Type 0 where
  pub next_id : ℕ
  pub rows : List Row

abbrev pub empty : Emails
empty = record { next_id = 1; rows = [] }

-- the columns of `emails_job_email_unique_idx`
abbrev pub key : (Text → Text) → Item → Text × Text
key fold x = (x.job_id, fold x.result.email_normalized)

unfoldable pub same_key : Text × Text → Text × Text → Bool
same_key k l = text_eq k.0 l.0 && text_eq k.1 l.1

unfoldable pub has_key : (Text → Text) → Text × Text → List Row → Bool
unfolding same_key
has_key fold k [] = false
has_key fold k (r ∷ rs) = same_key k (key fold r.item) || has_key fold k rs

-- one row of the `INSERT ... ON CONFLICT DO NOTHING`, with whether it was inserted
unfoldable pub insert_row : (Text → Text) → Item → Emails → Bool × Emails
unfolding has_key
insert_row fold x t =
    if has_key fold (key fold x) t.rows then (false, record t { next_id = t.next_id + 1 }) else (
      true,
      record {
        next_id = t.next_id + 1;
        rows = t.rows ++ (record { id = t.next_id; item = x } ∷ []);
      },
    )

-- the rows of the `SELECT`, with how many were inserted
unfoldable pub insert_rows : (Text → Text) → List Item → Emails → ℕ × Emails
unfolding insert_row
insert_rows fold [] t = (0, t)
insert_rows fold (x ∷ xs) t =
    let (fresh, t') = insert_row fold x t in
    let (n, t'') = insert_rows fold xs t' in (if fresh then suc n else n, t'')

-- `BulkInsert`: `selected` are the rows that `SELECT DISTINCT ON` chooses from the items, in the order
-- that it gives them, and `failure` is the first error of the transaction, which is then rolled back
unfoldable pub bulk_insert :
    (Text → Text)
    → (selected : List Item) → (failure : Option Text) → (items : List Item) → Emails
    → (ℕ × Option Text) × Emails
unfolding insert_rows
bulk_insert fold selected failure [] t = ((0, none), t)
bulk_insert fold selected failure (_ ∷ _) t = elim failure [
  | some e ↦ ((0, some e), t)
  | none ↦ let (n, t') = insert_rows fold selected t in ((n, none), t')
]

-- `$3::email_status`; `none` is the error of the cast
unfoldable pub status_named : Text → Option Status
status_named s =
    if text_eq s (lit "valid")
    then some Status.valid
    else if text_eq s (lit "invalid")
    then some Status.invalid
    else if text_eq s (lit "risky")
    then some Status.risky
    else if text_eq s (lit "unknown")
    then some Status.unknown
    else if text_eq s (lit "disposable")
    then some Status.disposable
    else none

-- `job_id = $1 AND id > $2`
unfoldable pub select_after : (job : Text) → (after_id : ℕ) → List Row → List Row
select_after job after_id [] = []
select_after job after_id (r ∷ rs) =
    let rest = select_after job after_id rs in
    if text_eq r.item.job_id job && ltb after_id r.id then r ∷ rest else rest

-- `job_id = $1`
unfoldable pub of_job : (job : Text) → List Row → List Row
of_job job [] = []
of_job job (r ∷ rs) =
    let rest = of_job job rs in if text_eq r.item.job_id job then r ∷ rest else rest

-- `AND status = $3`
unfoldable pub with_status : Status → List Row → List Row
unfolding same_status
with_status s [] = []
with_status s (r ∷ rs) =
    let rest = with_status s rs in if same_status r.item.result.status s then r ∷ rest else rest

-- `ListByJob`; `none` is the error of the status
unfoldable pub list_by_job : (job status : Text) → (after_id limit : ℕ) → Emails → Option (List Row)
unfolding select_after with_status status_named
list_by_job job status after_id limit t =
    if is_empty status
    then some (take limit (select_after job after_id t.rows))
    else elim (status_named status) [
      | none ↦ none
      | some s ↦ some (take limit (with_status s (select_after job after_id t.rows)))
    ]

-- `CountByStatus`: the value at one status; the map holds those that are not 0
unfoldable pub count_by_status : (job : Text) → Emails → Status → ℕ
unfolding of_job with_status
count_by_status job t s = length (with_status s (of_job job t.rows))

-- `ListOriginalsByJob`
unfoldable pub list_originals_by_job : (job : Text) → Emails → List Text
unfolding of_job
list_originals_by_job job t = map (λ r. r.item.result.email_original) (of_job job t.rows)

pub record GlobalStats : Type 0 where
  pub total : ℕ
  pub valid : ℕ
  pub invalid : ℕ
  pub risky : ℕ
  pub disposable : ℕ
  pub unknown : ℕ

-- `Global`, over the rows of the table of jobs
unfoldable pub global : List Job → GlobalStats
global [] = record { total = 0; valid = 0; invalid = 0; risky = 0; disposable = 0; unknown = 0 }
global (j ∷ js) =
    let rest = global js in
    record {
      total = j.counts.processed + rest.total;
      valid = j.counts.valid + rest.valid;
      invalid = j.counts.invalid + rest.invalid;
      risky = j.counts.risky + rest.risky;
      disposable = j.counts.disposable + rest.disposable;
      unknown = j.counts.unknown + rest.unknown;
    }
