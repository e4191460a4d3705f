-- ===== src/Jobs/Results/Batches.antt =====
-- What `BulkInsert` of internal/storage/results_repo.go adds to the table.
use mathlib.Core.List.{append_assoc, append-nil}
use mailclear.Base.{
  ℕ, suc, ◌+◌, ◌≤◌, ◌≡◌, refl, ap, sym, subst, ◌∙◌, inl, inr, Bool, true, false, ◌||◌, List, [],
  ◌∷◌, ◌++◌, none, length, length-append, if◌then◌else◌, Bool-cases, arith,
}
use mailclear.Text.{Text}
use mailclear.Jobs.Results.{
  Item, Row, Emails, key, same_key, has_key, insert_row, insert_rows, bulk_insert,
}
use mailclear.Jobs.Results.Keys.{
  same_key_sound, same_key_refl, has_key-append, insert_row-known, insert_row-new,
}

module _ (fold : Text → Text) where
  -- some item has the key
  unfoldable pub named : Text × Text → List Item → Bool
  unfolding same_key
  named k [] = false
  named k (x ∷ xs) = same_key k (key fold x) || named k xs

  -- what is known of the rows that `SELECT DISTINCT ON (job_id, email_normalized)` chooses: there are no
  -- more than items, and they have the same keys
  pub record IsDistinctOn (items selected : List Item) : Type 0 where
    pub fewer : length selected ≤ length items
    pub covers : (k : Text × Text) → named k selected ≡ named k items

  -- the rows of a table after an insertion of `xs`, of which `n` were inserted
  record IsInserted (xs : List Item) (old : List Row) (n : ℕ) (rows : List Row) : Type 0 where
    fresh : List Row
    kept : rows ≡ old ++ fresh
    count : length fresh ≡ n
    le : n ≤ length xs
    keys : (k : Text × Text) → has_key fold k rows ≡ (has_key fold k old || named k xs)

  has_key-item :
      (k : Text × Text) (x : Item) (rs : List Row)
      → has_key fold (key fold x) rs ≡ true
      → has_key fold k rs ≡ (has_key fold k rs || same_key k (key fold x))
  has_key-item k x rs h = elim (Bool-cases (same_key k (key fold x))) [
    | inl e ↦
        let same = same_key_sound fold k (key fold x) e in
        let known : has_key fold k rs ≡ true = subst (λ l. has_key fold l rs ≡ true) (sym same) h in
        ground arith
    | inr e ↦ ground arith
  ]

  insert_row-IsInserted :
      (x : Item) (t : Emails)
      → let (b, t') = insert_row fold x t in IsInserted (x ∷ []) t.rows (if b then 1 else 0) t'.rows
  unfolding named has_key
  insert_row-IsInserted x t = elim (Bool-cases (has_key fold (key fold x) t.rows)) [
    | inl e ↦
        subst (λ r. IsInserted (x ∷ []) t.rows (if r.0 then 1 else 0) r.1.rows)
          (insert_row-known fold x t e)
          (record {
            fresh = [];
            kept = sym (append-nil t.rows);
            count = refl;
            le = omega arith;
            keys = λ k. ground (arith, has_key-item k x t.rows e);
          })
    | inr e ↦
        subst (λ r. IsInserted (x ∷ []) t.rows (if r.0 then 1 else 0) r.1.rows)
          (insert_row-new fold x t e)
          (record {
            fresh = record { id = t.next_id; item = x } ∷ [];
            kept = refl;
            count = refl;
            le = omega arith;
            keys = λ k. has_key-append fold k t.rows (record { id = t.next_id; item = x } ∷ []);
          })
  ]

  insert_rows-IsInserted :
      (xs : List Item) (t : Emails)
      → let (n, t') = insert_rows fold xs t in IsInserted xs t.rows n t'.rows
  unfolding insert_rows named
  insert_rows-IsInserted [] t = record {
    fresh = [];
    kept = sym (append-nil t.rows);
    count = refl;
    le = omega arith;
    keys = λ k. ground arith;
  }
  insert_rows-IsInserted (x ∷ xs) t =
      let r = insert_row fold x t in
      let one = insert_row-IsInserted x t in
      let more = insert_rows-IsInserted xs r.1 in
      record {
        fresh = one.fresh ++ more.fresh;
        kept =
            more.kept
            ∙ ap (λ l. l ++ more.fresh) one.kept
            ∙ append_assoc t.rows one.fresh more.fresh;
        count = elim (Bool-cases r.0) [
          | inl e ↦ ground (arith, length-append one.fresh more.fresh, one.count, more.count)
          | inr e ↦ ground (arith, length-append one.fresh more.fresh, one.count, more.count)
        ];
        le = elim (Bool-cases r.0) [
          | inl e ↦ ground (arith, more.le)
          | inr e ↦ ground (arith, more.le)
        ];
        keys = λ k. ground (arith, one.keys k, more.keys k);
      }

  -- Without an error, the rows from before are kept and those after them are as many as are reported, at
  -- most one for each item; the keys are then those from before and those of the items, whichever of the
  -- duplicates were chosen.
  pub bulk_insert_adds :
      (items selected : List Item) (t : Emails)
      → IsDistinctOn items selected
      → let r = bulk_insert fold selected none items t in
        (r.0.1 ≡ none)
        × (r.0.0 ≤ length items)
        × ((fresh : List Row) × (r.1.rows ≡ t.rows ++ fresh) × (length fresh ≡ r.0.0))
        × ((k : Text × Text) → has_key fold k r.1.rows ≡ (has_key fold k t.rows || named k items))
  unfolding bulk_insert named
  bulk_insert_adds [] selected t d =
      (refl, omega arith, ([], sym (append-nil t.rows), refl), λ k. ground arith)
  bulk_insert_adds (x ∷ xs) selected t d =
      let i = insert_rows-IsInserted selected t in
      (
        refl,
        omega (arith, i.le, d.fewer),
        (i.fresh, i.kept, i.count),
        λ k. i.keys k ∙ ap (λ b. has_key fold k t.rows || b) (d.covers k),
      )

  pub insert_rows_known :
      (xs : List Item) (t : Emails)
      → ((k : Text × Text) → named k xs ≡ true → has_key fold k t.rows ≡ true)
      → ((insert_rows fold xs t).0 ≡ 0) × ((insert_rows fold xs t).1.rows ≡ t.rows)
  unfolding insert_rows named
  insert_rows_known [] t known = (refl, refl)
  insert_rows_known (x ∷ xs) t known =
      let here : has_key fold (key fold x) t.rows ≡ true =
        known (key fold x) (ground (arith, same_key_refl fold (key fold x))) in
      let skip = insert_row-known fold x t here in
      let later =
        insert_rows_known xs (record t { next_id = t.next_id + 1 })
          (λ k h. known k (ground arith)) in
      subst
        (λ r.
          let (n, t'') = insert_rows fold xs r.1 in
          ((if r.0 then suc n else n) ≡ 0) × (t''.rows ≡ t.rows))
        skip later

  -- Once a batch has been inserted without an error, inserting it again, with any choice among its
  -- duplicates, inserts nothing and leaves the rows as they are.
  pub bulk_insert_again :
      (items selected selected' : List Item) (t : Emails)
      → IsDistinctOn items selected
      → IsDistinctOn items selected'
      → let t' = (bulk_insert fold selected none items t).1 in
        let again = bulk_insert fold selected' none items t' in
        (again.0 ≡ (0, none)) × (again.1.rows ≡ t'.rows)
  unfolding bulk_insert
  bulk_insert_again [] selected selected' t d d' = (refl, refl)
  bulk_insert_again (x ∷ xs) selected selected' t d d' =
      let keys = (bulk_insert_adds (x ∷ xs) selected t d).3 in
      let (none_new, same) =
        insert_rows_known selected' (insert_rows fold selected t).1
          (λ k h. ground (arith, keys k, d'.covers k)) in
      (ap (λ n. (n, none)) none_new, same)
