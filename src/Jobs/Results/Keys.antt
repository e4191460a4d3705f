-- ===== src/Jobs/Results/Keys.antt =====
-- The keys and the ids of the rows of internal/storage/results_repo.go.
use mailclear.Base.{
  ℕ, ◌+◌, ◌<◌, ◌≡◌, refl, sym, subst, ◌⊎◌, inl, inr, true, false, ◌||◌, List, [], ◌∷◌, ◌++◌, Option,
  none, some, map, ◌∈◌, Distinct, Bool-cases, arith,
}
use mailclear.Text.{Text}
use mailclear.Text.Equality.{text_eq_sound, text_eq_refl}
use mailclear.Jobs.Results.{
  Item, Row, Emails, key, same_key, has_key, insert_row, insert_rows, bulk_insert,
}

-- the ids rise from above `lo` to below `next`
abbrev pub IsRising : (lo next : ℕ) → List Row → Type 0
IsRising lo next [] = lo < next
IsRising lo next (r ∷ rs) = (lo < r.id) × IsRising r.id next rs

-- no two rows have the same job and folded address, and the sequence is past every id
pub record IsKeyed (fold : Text → Text) (t : Emails) : Type 0 where
  pub rising : IsRising 0 t.next_id t.rows
  pub unique : Distinct (map (λ r. key fold r.item) t.rows)

module _ (fold : Text → Text) where
  pub same_key_sound : (k l : Text × Text) → same_key k l ≡ true → k ≡ l
  unfolding same_key
  same_key_sound k l h =
      let e0 : k.0 ≡ l.0 = text_eq_sound k.0 l.0 (ground arith) in
      let e1 : k.1 ≡ l.1 = text_eq_sound k.1 l.1 (ground arith) in ground arith

  pub same_key_refl : (k : Text × Text) → same_key k k ≡ true
  unfolding same_key
  same_key_refl k = ground (arith, text_eq_refl k.0, text_eq_refl k.1)

  mem-has_key :
      (k : Text × Text) (rs : List Row)
      → k ∈ map (λ r. key fold r.item) rs
      → has_key fold k rs ≡ true
  unfolding has_key
  mem-has_key k [] h = absurd h
  mem-has_key k (r ∷ rs) (inl e) =
      ground (arith, subst (λ l. same_key k l ≡ true) e (same_key_refl k))
  mem-has_key k (r ∷ rs) (inr h) = ground (arith, mem-has_key k rs h)

  pub has_key-append :
      (k : Text × Text) (rs ss : List Row)
      → has_key fold k (rs ++ ss) ≡ (has_key fold k rs || has_key fold k ss)
  unfolding has_key
  has_key-append k [] ss = refl
  has_key-append k (r ∷ rs) ss = ground (arith, has_key-append k rs ss)

  IsRising-later : (lo n : ℕ) (rs : List Row) → IsRising lo n rs → IsRising lo (n + 1) rs
  IsRising-later lo n [] h = omega arith
  IsRising-later lo n (r ∷ rs) h = (h.0, IsRising-later r.id n rs h.1)

  IsRising-snoc :
      (lo n : ℕ) (rs : List Row) (x : Item)
      → IsRising lo n rs
      → IsRising lo (n + 1) (rs ++ (record { id = n; item = x } ∷ []))
  IsRising-snoc lo n [] x h = (h, omega arith)
  IsRising-snoc lo n (r ∷ rs) x h = (h.0, IsRising-snoc r.id n rs x h.1)

  mem-snoc :
      (k : Text × Text) (rs : List Row) (s : Row)
      → k ∈ map (λ r. key fold r.item) (rs ++ (s ∷ []))
      → (k ∈ map (λ r. key fold r.item) rs) ⊎ (k ≡ key fold s.item)
  mem-snoc k [] s (inl e) = inr e
  mem-snoc k [] s (inr h) = absurd h
  mem-snoc k (r ∷ rs) s (inl e) = inl (inl e)
  mem-snoc k (r ∷ rs) s (inr h) = elim (mem-snoc k rs s h) [ inl m ↦ inl (inr m) | inr e ↦ inr e ]

  Distinct-snoc :
      (rs : List Row) (s : Row)
      → Distinct (map (λ r. key fold r.item) rs)
      → ¬ (key fold s.item ∈ map (λ r. key fold r.item) rs)
      → Distinct (map (λ r. key fold r.item) (rs ++ (s ∷ [])))
  Distinct-snoc [] s d new = (λ h. h, tt)
  Distinct-snoc (r ∷ rs) s d new = (
    λ h. elim (mem-snoc (key fold r.item) rs s h) [ inl m ↦ d.0 m | inr e ↦ new (inl (sym e)) ],
    Distinct-snoc rs s d.1 (λ h. new (inr h)),
  )

  pub insert_row-known :
      (x : Item) (t : Emails)
      → has_key fold (key fold x) t.rows ≡ true
      → (false, record t { next_id = t.next_id + 1 }) ≡ insert_row fold x t
  unfolding insert_row
  insert_row-known x t h = ground arith

  pub insert_row-new :
      (x : Item) (t : Emails)
      → has_key fold (key fold x) t.rows ≡ false
      → (
        true,
        record {
          next_id = t.next_id + 1;
          rows = t.rows ++ (record { id = t.next_id; item = x } ∷ []);
        },
      )
        ≡ insert_row fold x t
  unfolding insert_row
  insert_row-new x t h = ground arith

  insert_row-IsKeyed :
      (x : Item) (t : Emails) → IsKeyed fold t → IsKeyed fold (insert_row fold x t).1
  insert_row-IsKeyed x t h = elim (Bool-cases (has_key fold (key fold x) t.rows)) [
    | inl e ↦
        subst (λ r. IsKeyed fold r.1) (insert_row-known x t e)
          (record { rising = IsRising-later 0 t.next_id t.rows h.rising; unique = h.unique })
    | inr e ↦
        subst (λ r. IsKeyed fold r.1) (insert_row-new x t e)
          (record {
            rising = IsRising-snoc 0 t.next_id t.rows x h.rising;
            unique =
                Distinct-snoc t.rows (record { id = t.next_id; item = x }) h.unique
                  (λ m. absurd (ground (arith, mem-has_key (key fold x) t.rows m)));
          })
  ]

  insert_rows-IsKeyed :
      (xs : List Item) (t : Emails) → IsKeyed fold t → IsKeyed fold (insert_rows fold xs t).1
  unfolding insert_rows
  insert_rows-IsKeyed [] t h = h
  insert_rows-IsKeyed (x ∷ xs) t h =
      insert_rows-IsKeyed xs (insert_row fold x t).1 (insert_row-IsKeyed x t h)

  -- `BulkInsert` keeps the ids of the rows increasing in the order of the table and the pairs of job and
  -- folded address distinct, whatever the items, the choice among duplicates and the errors.
  pub bulk_insert-IsKeyed :
      (selected items : List Item) (failure : Option Text) (t : Emails)
      → IsKeyed fold t
      → IsKeyed fold (bulk_insert fold selected failure items t).1
  unfolding bulk_insert
  bulk_insert-IsKeyed selected [] failure t h = h
  bulk_insert-IsKeyed selected (x ∷ xs) (some e) t h = h
  bulk_insert-IsKeyed selected (x ∷ xs) none t h = insert_rows-IsKeyed selected t h
