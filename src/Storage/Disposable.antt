-- ===== src/Storage/Disposable.antt =====
-- internal/storage/disposable_repo.go and cmd/seed-disposable/main.go. The key of the table is the domain
-- as `citext`, with the folding `fold`; `order` is the `ORDER BY domain`, whose collation is the
-- database's. The times and the category of a prefix are left out.
pub mod Seeded
use mailclear.Base.{
  ℕ, suc, Bool, true, false, ◌||◌, List, [], ◌∷◌, ◌++◌, Option, none, some, map, length,
  if◌then◌else◌,
}
use mailclear.Text.{Text, Unicode, lit, text_eq}
use mailclear.Text.Lines.{entries}
use mailclear.Jobs.Submit.{chunks}

pub record DisposableRow : Type 0 where
  pub domain : Text
  pub source : Text

-- `List`
unfoldable pub list : (order : List Text → List Text) → List DisposableRow → List Text
list order rows = order (map (λ r. r.domain) rows)

-- `Count`
unfoldable pub count : List DisposableRow → ℕ
count rows = length rows

pub record RolePrefix : Type 0 where
  pub prefix : Text
  pub risk_score : ℕ

-- the prefixes of `ListRolePrefixes`, as `New` of internal/app/app.go takes them
unfoldable pub prefixes_of : List RolePrefix → List Text
prefixes_of rows = map (λ r. r.prefix) rows

module _ (fold : Text → Text) where
  unfoldable pub holds : Text → List DisposableRow → Bool
  holds domain [] = false
  holds domain (r ∷ rs) = text_eq (fold r.domain) (fold domain) || holds domain rs

  -- the domain is among given ones
  unfoldable pub listed : Text → List Text → Bool
  listed domain [] = false
  listed domain (d ∷ ds) = text_eq (fold d) (fold domain) || listed domain ds

  -- the same domain twice in one statement
  unfoldable pub repeats : List Text → Bool
  unfolding listed
  repeats [] = false
  repeats (d ∷ ds) = listed d ds || repeats ds

  -- the upsert of one domain
  unfoldable pub upsert_domain : (source domain : Text) → List DisposableRow → List DisposableRow
  upsert_domain source domain [] = record { domain = domain; source = source } ∷ []
  upsert_domain source domain (r ∷ rs) =
      let rest = upsert_domain source domain rs in
      if text_eq (fold r.domain) (fold domain) then record r { source = source } ∷ rs else r ∷ rest

  unfoldable pub upsert_domains :
      (source : Text) → List Text → List DisposableRow → List DisposableRow
  unfolding upsert_domain
  upsert_domains source [] rows = rows
  upsert_domains source (d ∷ ds) rows = upsert_domains source ds (upsert_domain source d rows)

  -- `BulkUpsert`; `false` is an error. PostgreSQL refuses an `ON CONFLICT DO UPDATE` that would update
  -- one row twice.
  unfoldable pub bulk_upsert :
      (db_err : Option Text)
      → List Text
      → (source : Text) → List DisposableRow
      → Bool × List DisposableRow
  unfolding upsert_domains repeats
  bulk_upsert db_err [] source rows = (true, rows)
  bulk_upsert (some _) (d ∷ ds) source rows = (false, rows)
  bulk_upsert none (d ∷ ds) source rows =
      if repeats (d ∷ ds) then (false, rows) else (true, upsert_domains source (d ∷ ds) rows)

  -- the loop over the chunks, whose k-th statement has the error `db_err k`; an error ends the program
  unfoldable pub upsert_chunks :
      (db_err : ℕ → Option Text)
      → ℕ
      → List (List Text)
      → List DisposableRow
      → Bool × List DisposableRow
  unfolding bulk_upsert
  upsert_chunks db_err k [] rows = (true, rows)
  upsert_chunks db_err k (c ∷ cs) rows =
      let (ok, rows') = bulk_upsert (db_err k) c (lit "github:disposable-email-domains") rows in
      let rest = upsert_chunks db_err (suc k) cs rows' in if ok then rest else (false, rows')

  -- `main`, from the body that was downloaded, of which 16 MiB are read
  unfoldable pub seed :
      Unicode
      → (db_err : ℕ → Option Text) → (body : Text) → List DisposableRow
      → Bool × List DisposableRow
  unfolding upsert_chunks chunks entries
  seed u db_err body rows =
      let domains = entries u body in
      upsert_chunks db_err 0 (chunks (length domains) 5000 domains) rows
