-- ===== src/Jobs/Export.antt =====
-- internal/jobs/exporter.go. The writer takes records of fields; how `encoding/csv` prints them is not
-- in the model, so a record is written where `Write` takes it without an error. `ended k` is the error of
-- the context before the k-th page, `refused k` that of the query for it, `broken k` that of `Error` after
-- its `Flush`, and `wrote n` the error of the n-th call of `Write`, of which the header is the first. The
-- table does not change meanwhile. The rows that a page shows grow fewer, so one page more than there are
-- rows is enough fuel.
pub mod Cursor
pub mod Pages
use mailclear.Base.{
  ◌+◌, ℕ, zero, suc, Bool, true, false, List, [], ◌∷◌, ◌++◌, Option, none, some, map, length, ltb,
  ◌==◌, if◌then◌else◌,
}
use mailclear.Base.Int.{ℤ, pos, negsuc}
use mailclear.Text.{Text, lit, decimal}
use mailclear.Validation.Types.{Status, Classification}
use mailclear.Jobs.Handler.{EmailResult}
use mailclear.Jobs.Results.{Row, Emails, list_by_job}

unfoldable pub bool_str : Bool → Text
bool_str b = if b then lit "true" else lit "false"

-- `strconv.Itoa`
unfoldable pub itoa : ℤ → Text
itoa (pos n) = decimal n
itoa (negsuc n) = b'-' ∷ decimal (suc n)

-- `status::text`
unfoldable pub status_text : Status → Text
status_text Status.unset = []
status_text Status.valid = lit "valid"
status_text Status.invalid = lit "invalid"
status_text Status.risky = lit "risky"
status_text Status.unknown = lit "unknown"
status_text Status.disposable = lit "disposable"

-- `classification::text`
unfoldable pub classification_text : Classification → Text
classification_text Classification.blank = []
classification_text Classification.unknown = lit "unknown"
classification_text Classification.personal = lit "personal"
classification_text Classification.role = lit "role"
classification_text Classification.free = lit "free"
classification_text Classification.corporate = lit "corporate"
classification_text Classification.educational = lit "educational"
classification_text Classification.government = lit "government"

abbrev pub Record : Type 0
Record = List Text

unfoldable pub header : Record
header =
    lit "email_original"
    ∷ lit "email_normalized"
    ∷ lit "domain"
    ∷ lit "status"
    ∷ lit "classification"
    ∷ lit "score"
    ∷ lit "suggested_email"
    ∷ lit "is_disposable"
    ∷ lit "is_role"
    ∷ lit "has_mx"
    ∷ []

-- the arguments of `cw.Write` in the loop
unfoldable pub fields : EmailResult → Record
unfolding bool_str itoa status_text classification_text
fields r =
    r.email_original
    ∷ r.email_normalized
    ∷ r.domain
    ∷ status_text r.status
    ∷ classification_text r.classification
    ∷ itoa r.score
    ∷ elim r.suggested_email [ some s ↦ s | none ↦ [] ]
    ∷ bool_str r.is_disposable
    ∷ bool_str r.is_role
    ∷ bool_str r.has_mx
    ∷ []

-- `afterID` after the rows of a page
unfoldable pub cursor_after : ℕ → List Row → ℕ
cursor_after after_id [] = after_id
cursor_after after_id (r ∷ rs) = cursor_after (if ltb after_id r.id then r.id else after_id) rs

pub record Written : Type 0 where
  pub records : List Record
  pub err : Option Text

-- the loop over the rows of a page, where the first of them is the n-th record, and what comes after it
unfoldable pub write_rows :
    (wrote : ℕ → Option Text) → (n : ℕ) → List Row → (rest : Written) → Written
unfolding fields
write_rows wrote n [] rest = rest
write_rows wrote n (r ∷ rs) rest =
    let more = write_rows wrote (suc n) rs rest in
    elim (wrote n) [
      | some e ↦ record { records = []; err = some e }
      | none ↦ record more { records = fields r.item.result ∷ more.records }
    ]

-- `cw.Flush()` and `cw.Error()`, and the next pages
unfoldable pub after_flush : (broken : Option Text) → (rest : Written) → Written
after_flush (some e) rest = record { records = []; err = some e }
after_flush none rest = rest

-- a page without rows ends the loop
unfoldable pub write_page :
    (wrote : ℕ → Option Text)
    → (n : ℕ) → (broken : Option Text) → List Row
    → (rest : Written) → Written
unfolding write_rows after_flush
write_page wrote n broken [] rest = record { records = []; err = none }
write_page wrote n broken (r ∷ rs) rest = write_rows wrote n (r ∷ rs) (after_flush broken rest)

module _ (ended refused wrote broken : ℕ → Option Text) (job : Text) (size : ℕ) (t : Emails) where
  -- the error before the rows of the page with index k: of the context, of the query or of the scan
  unfoldable pub page_error : ℕ → Option Text
  page_error k = elim (ended k) [ some e ↦ some e | none ↦ refused k ]

  -- the rows of the page after `after_id`
  unfoldable pub page : (after_id : ℕ) → List Row
  unfolding list_by_job
  page after_id = elim (list_by_job job [] after_id size t) [ none ↦ [] | some rows ↦ rows ]

  -- the loop from the page with index k and the n-th record on
  unfoldable pub export_from : (fuel k n after_id : ℕ) → Written
  unfolding page_error page write_page cursor_after
  export_from zero k n after_id = record { records = []; err = none }
  export_from (suc fuel) k n after_id =
      let rows = page after_id in
      let rest = export_from fuel (suc k) (n + length rows) (cursor_after after_id rows) in
      elim (page_error k) [
        | some e ↦ record { records = []; err = some e }
        | none ↦ write_page wrote n (broken k) rows rest
      ]

-- `ExportCSV`; `pageSize` is not negative
unfoldable pub export_csv :
    (ended refused wrote broken : ℕ → Option Text) (job : Text) (page_size : ℕ) → Emails → Written
unfolding export_from header
export_csv ended refused wrote broken job page_size t =
    let size = if page_size == 0 then 1000 else page_size in
    let rest = export_from ended refused wrote broken job size t (suc (length t.rows)) 0 1 0 in
    elim (wrote 0) [
      | some e ↦ record { records = []; err = some e }
      | none ↦ record rest { records = header ∷ rest.records }
    ]
