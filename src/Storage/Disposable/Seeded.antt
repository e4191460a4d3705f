-- ===== src/Storage/Disposable/Seeded.antt =====
-- What cmd/seed-disposable leaves in the table.
use mailclear.Base.{
  ℕ, suc, ◌≡◌, refl, ap, sym, ◌∙◌, inl, inr, true, ◌||◌, List, [], ◌∷◌, ◌++◌, Option, none, some,
  length, Bool-cases, arith,
}
use mailclear.Text.{Text, Unicode, text_eq, lit}
use mailclear.Text.Lines.{entries}
use mailclear.Text.Equality.{text_eq_sound}
use mailclear.Importer.Batcher.Batches.{concat}
use mailclear.Jobs.Submit.{chunks}
use mailclear.Jobs.Submit.Chunks.{concat-chunks}
use mailclear.Storage.Disposable.{
  DisposableRow, holds, listed, repeats, upsert_domain, upsert_domains, bulk_upsert, upsert_chunks,
  seed,
}

module _ (fold : Text → Text) where
  listed-append :
      (k : Text) (ds es : List Text)
      → listed fold k (ds ++ es) ≡ (listed fold k ds || listed fold k es)
  unfolding listed
  listed-append k [] es = refl
  listed-append k (d ∷ ds) es = ground (arith, listed-append k ds es)

  holds-upsert_domain :
      (source k d : Text) (rows : List DisposableRow)
      → holds fold k (upsert_domain fold source d rows)
        ≡ (text_eq (fold d) (fold k) || holds fold k rows)
  unfolding holds upsert_domain
  holds-upsert_domain source k d [] = refl
  holds-upsert_domain source k d (r ∷ rs) =
      let ih = holds-upsert_domain source k d rs in
      elim (Bool-cases (text_eq (fold r.domain) (fold d))) [
        | inl same ↦
            let e : text_eq (fold r.domain) (fold k) ≡ text_eq (fold d) (fold k) =
              ap (λ s. text_eq s (fold k)) (text_eq_sound (fold r.domain) (fold d) same) in
            ground arith
        | inr apart ↦ ground arith
      ]

  holds-upsert_domains :
      (source k : Text) (ds : List Text) (rows : List DisposableRow)
      → holds fold k (upsert_domains fold source ds rows) ≡ (listed fold k ds || holds fold k rows)
  unfolding upsert_domains listed
  holds-upsert_domains source k [] rows = refl
  holds-upsert_domains source k (d ∷ ds) rows =
      let ih = holds-upsert_domains source k ds (upsert_domain fold source d rows) in
      let one = holds-upsert_domain source k d rows in ground arith

  bulk_upsert-holds :
      (db_err : Option Text) (k : Text) (ds : List Text) (source : Text) (rows : List DisposableRow)
      → (bulk_upsert fold db_err ds source rows).0 ≡ true
      → holds fold k (bulk_upsert fold db_err ds source rows).1
        ≡ (listed fold k ds || holds fold k rows)
  unfolding bulk_upsert listed
  bulk_upsert-holds db_err k [] source rows ok = refl
  bulk_upsert-holds (some e) k (d ∷ ds) source rows ok = absurd (ground arith)
  bulk_upsert-holds none k (d ∷ ds) source rows ok =
      let all = holds-upsert_domains source k (d ∷ ds) rows in
      elim (Bool-cases (repeats fold (d ∷ ds))) [
        | inl twice ↦ absurd (ground arith)
        | inr once ↦
            let there : bulk_upsert fold none (d ∷ ds) source rows
                ≡ (true, upsert_domains fold source (d ∷ ds) rows) =
              ground arith in
            ap (λ r. holds fold k r.1) there ∙ all
      ]

  upsert_chunks-holds :
      (db_err : ℕ → Option Text) (n : ℕ) (k : Text) (cs : List (List Text))
      (rows : List DisposableRow)
      → (upsert_chunks fold db_err n cs rows).0 ≡ true
      → holds fold k (upsert_chunks fold db_err n cs rows).1
        ≡ (listed fold k (concat cs) || holds fold k rows)
  unfolding upsert_chunks listed
  upsert_chunks-holds db_err n k [] rows ok = refl
  upsert_chunks-holds db_err n k (c ∷ cs) rows ok =
      let r = bulk_upsert fold (db_err n) c (lit "github:disposable-email-domains") rows in
      elim (Bool-cases r.0) [
        | inr failed ↦ absurd (ground arith)
        | inl fine ↦
            let there : upsert_chunks fold db_err n (c ∷ cs) rows
                ≡ upsert_chunks fold db_err (suc n) cs r.1 =
              ground arith in
            let later =
              upsert_chunks-holds db_err (suc n) k cs r.1 (ap (λ w. w.0) (sym there) ∙ ok) in
            let one =
              bulk_upsert-holds (db_err n) k c (lit "github:disposable-email-domains") rows fine in
            let parts = listed-append k c (concat cs) in
            ap (λ w. holds fold k w.1) there ∙ later ∙ ground (arith, one, parts)
      ]

  -- If seeding ends without an error, the table holds exactly the domains that it held and those of the
  -- downloaded list, up to the folding of the database.
  pub seed-holds :
      (u : Unicode) (db_err : ℕ → Option Text) (body : Text) (rows : List DisposableRow)
      → (seed fold u db_err body rows).0 ≡ true
      → (k : Text)
      → holds fold k (seed fold u db_err body rows).1
        ≡ (listed fold k (entries u body) || holds fold k rows)
  unfolding seed
  seed-holds u db_err body rows ok k =
      let domains = entries u body in
      upsert_chunks-holds db_err 0 k (chunks (length domains) 5000 domains) rows ok
      ∙ ap (λ l. listed fold k l || holds fold k rows)
          (concat-chunks (length domains) 5000 domains (omega arith) (omega arith))
