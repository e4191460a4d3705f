-- ===== src/Jobs/Export/Pages.antt =====
-- The pages of internal/jobs/exporter.go put together.
use mathlib.Core.List.{append-nil}
use mailclear.Base.{
  ◌+◌, ℕ, zero, suc, ◌≤◌, ◌<◌, ◌≡◌, refl, ap, sym, subst, ◌∙◌, inl, inr, List, [], ◌∷◌, ◌++◌,
  Option, none, some, map, length, Option-cases, take, drop, length-drop, ◌==◌, if◌then◌else◌,
  take-append-drop, arith,
}
use mailclear.Text.{Text}
use mailclear.Jobs.Results.{Row, Emails, select_after, of_job, list_by_job}
use mailclear.Jobs.Results.Keys.{IsRising, IsKeyed}
use mailclear.Jobs.Export.Cursor.{
  above, above-select_after, cursor_after-le, above-cursor_after, IsRising-drop, select_after-zero,
  length-select_after, of_job-IsRising,
}
use mailclear.Jobs.Export.{
  Record, header, fields, cursor_after, Written, page_error, page, export_from, export_csv,
  write_page, write_rows, after_flush,
}

-- the first of the records of some rows, and all of them unless there is an error
record IsCut (rs : List Row) (w : Written) : Type 0 where
  left : List Record
  cut : w.records ++ left ≡ map (λ r. fields r.item.result) rs
  done : w.err ≡ none → left ≡ []

-- the records of some rows, and then those of the rest
write_rows-IsCut :
    (wrote : ℕ → Option Text) (n : ℕ) (rs ss : List Row) (rest : Written)
    → IsCut ss rest
    → IsCut (rs ++ ss) (write_rows wrote n rs rest)
unfolding write_rows
write_rows-IsCut wrote n [] ss rest i = i
write_rows-IsCut wrote n (r ∷ rs) ss rest i = elim (Option-cases (wrote n)) [
  | inl fine ↦
      let more = write_rows-IsCut wrote (suc n) rs ss rest i in
      rw (fine, write_rows)
        (record {
          left = more.left;
          cut = ap (λ l. fields r.item.result ∷ l) more.cut;
          done = more.done;
        })
  | inr (e, failed) ↦
      rw (failed, write_rows)
        (record {
          left = map (λ s. fields s.item.result) (r ∷ rs ++ ss);
          cut = refl;
          done = λ h. absurd (ground arith);
        })
]

after_flush-IsCut :
    (broken : Option Text) (rs : List Row) (rest : Written)
    → IsCut rs rest
    → IsCut rs (after_flush broken rest)
unfolding after_flush
after_flush-IsCut (some e) rs rest i = record {
  left = map (λ r. fields r.item.result) rs;
  cut = refl;
  done = λ h. absurd (ground arith);
}
after_flush-IsCut none rs rest i = i

write_page-IsCut :
    (wrote : ℕ → Option Text) (n : ℕ) (broken : Option Text) (size : ℕ) (rs : List Row)
    (rest : Written)
    → 1 ≤ size
    → (1 ≤ length rs → IsCut (drop size rs) rest)
    → IsCut rs (write_page wrote n broken (take size rs) rest)
unfolding write_page
write_page-IsCut wrote n broken zero rs rest size_pos later = absurd (omega arith)
write_page-IsCut wrote n broken (suc m) [] rest size_pos later = record {
  left = [];
  cut = refl;
  done = λ e. refl;
}
write_page-IsCut wrote n broken (suc m) (r ∷ rs) rest size_pos later =
    subst (λ l. IsCut l (write_page wrote n broken (r ∷ take m rs) rest))
      (take-append-drop (suc m) (r ∷ rs))
      (write_rows-IsCut wrote n (r ∷ take m rs) (drop m rs) (after_flush broken rest)
        (after_flush-IsCut broken (drop m rs) rest (later (omega arith))))

write_rows-ok :
    (wrote : ℕ → Option Text) (n : ℕ) (rows : List Row) (rest : Written)
    → ((k : ℕ) → wrote k ≡ none)
    → rest.err ≡ none
    → (write_rows wrote n rows rest).err ≡ none
unfolding write_rows
write_rows-ok wrote n [] rest taken ok = ok
write_rows-ok wrote n (r ∷ rs) rest taken ok =
    rw (taken n, write_rows) (write_rows-ok wrote (suc n) rs rest taken ok)

write_page-ok :
    (wrote : ℕ → Option Text) (n : ℕ) (rows : List Row) (rest : Written)
    → ((k : ℕ) → wrote k ≡ none)
    → rest.err ≡ none
    → (write_page wrote n none rows rest).err ≡ none
unfolding write_page after_flush
write_page-ok wrote n [] rest taken ok = refl
write_page-ok wrote n (r ∷ rs) rest taken ok = write_rows-ok wrote n (r ∷ rs) rest taken ok

module _ (ended refused wrote broken : ℕ → Option Text) (job : Text) (size : ℕ) (t : Emails) where
  -- the rows after the cursor of a page are those that the page leaves
  after_page :
      (a : ℕ) (rs : List Row)
      → IsRising a t.next_id rs
      → select_after job a t.rows ≡ rs
      → select_after job (cursor_after a (take size rs)) t.rows ≡ drop size rs
  after_page a rs rising e =
      let c = cursor_after a (take size rs) in
      above-select_after job a c t.rows (cursor_after-le a (take size rs))
      ∙ ap (above c) e
      ∙ above-cursor_after a t.next_id size rs rising

  export_from-refused :
      (f k n a : ℕ) (e : Text)
      → page_error ended refused wrote broken job size t k ≡ some e
      → record { records = []; err = some e }
        ≡ export_from ended refused wrote broken job size t (suc f) k n a
  unfolding export_from
  export_from-refused f k n a e h = ground arith

  export_from-served :
      (f k n a : ℕ)
      → page_error ended refused wrote broken job size t k ≡ none
      → let rows = take size (select_after job a t.rows) in
        write_page wrote n (broken k) rows (
          export_from ended refused wrote broken job size t f
            (suc k)
            (n + length rows)
            (cursor_after a rows))
        ≡ export_from ended refused wrote broken job size t (suc f) k n a
  unfolding export_from page list_by_job
  export_from-served f k n a h = ground arith

  -- nothing fails
  export_from-ok :
      (fuel k n a : ℕ)
      → ((m : ℕ) → (ended m ≡ none) × (refused m ≡ none) × (wrote m ≡ none) × (broken m ≡ none))
      → (export_from ended refused wrote broken job size t fuel k n a).err ≡ none
  unfolding export_from page_error
  export_from-ok zero k n a ok = refl
  export_from-ok (suc f) k n a ok =
      let rows = page ended refused wrote broken job size t a in
      let (alive, served, taken, flowing) = ok k in
      let c = cursor_after a rows in
      let rest = export_from ended refused wrote broken job size t f (suc k) (n + length rows) c in
      let fine =
        write_page-ok wrote n rows rest (λ m. (ok m).2)
          (export_from-ok f (suc k) (n + length rows) c ok) in
      ground arith

  export_from-IsCut :
      (fuel k n a : ℕ) (rs : List Row)
      → 1 ≤ size
      → IsRising a t.next_id rs
      → select_after job a t.rows ≡ rs
      → length rs < fuel
      → IsCut rs (export_from ended refused wrote broken job size t fuel k n a)
  export_from-IsCut zero k n a rs size_pos rising e enough = absurd (omega arith)
  export_from-IsCut (suc f) k n a rs size_pos rising e enough =
      elim (Option-cases (page_error ended refused wrote broken job size t k)) [
        | inr (x, h) ↦ subst (IsCut rs) (export_from-refused f k n a x h) (record {
          left = map (λ r. fields r.item.result) rs;
          cut = refl;
          done = λ e'. absurd (ground arith);
        })
        | inl h ↦
            let c = cursor_after a (take size rs) in
            subst (IsCut rs)
              (ap
                  (λ l. write_page wrote n (broken k) (take size l) (
                    export_from ended refused wrote broken job size t f (suc k)
                      (n + length (take size l)) (cursor_after a (take size l))))
                  (sym e)
                ∙ export_from-served f k n a h)
              (write_page-IsCut wrote n (broken k) size rs _ size_pos (λ some_left.
                export_from-IsCut f (suc k) (n + length (take size rs)) c (drop size rs) size_pos
                  (IsRising-drop a t.next_id size rs rising) (after_page a rs rising e)
                  (omega (arith, length-drop size rs))))
      ]

-- Whatever fails, the context or the query at a page, `Write` at the header or at any row, or the writer
-- after a page, the records that the export of a job has written are the first of the header and the rows
-- of the job, in the order of the table; where it returns no error, these are all of them.
pub export_csv_cut :
    (fold : Text → Text) (ended refused wrote broken : ℕ → Option Text) (job : Text) (page_size : ℕ)
    (t : Emails)
    → IsKeyed fold t
    → let w = export_csv ended refused wrote broken job page_size t in
      (left : List Record) × (w.records ++ left
        ≡ header ∷ map (λ r. fields r.item.result) (of_job job t.rows))
      × (w.err ≡ none → left ≡ [])
unfolding export_csv
export_csv_cut fold ended refused wrote broken job page_size t keyed =
    elim (Option-cases (wrote 0)) [
      | inr (e, failed) ↦
          rw (failed, export_csv)
            (
              header ∷ map (λ r. fields r.item.result) (of_job job t.rows),
              refl,
              λ h. absurd (ground arith),
            )
      | inl fine ↦
          let size = if page_size == 0 then 1000 else page_size in
          let all = select_after-zero job 0 t.next_id t.rows keyed.rising in
          let i =
            export_from-IsCut ended refused wrote broken job size t (suc (length t.rows)) 0 1 0
              (of_job job t.rows) (ground arith) (of_job-IsRising job t.next_id t.rows keyed.rising)
              all (omega (arith, length-select_after job 0 t.rows, ap length all)) in
          rw (fine, export_csv) (i.left, ap (λ l. header ∷ l) i.cut, i.done)
    ]

-- While the context lives and neither the database nor the writer fails, the export of a job is the
-- header and then every row of the job, once each and in the order of the table, whatever the page size.
pub export_csv-whole :
    (fold : Text → Text) (ended refused wrote broken : ℕ → Option Text) (job : Text) (page_size : ℕ)
    (t : Emails)
    → IsKeyed fold t
    → ((n : ℕ) → (ended n ≡ none) × (refused n ≡ none) × (wrote n ≡ none) × (broken n ≡ none))
    → export_csv ended refused wrote broken job page_size t ≡ record {
      records = header ∷ map (λ r. fields r.item.result) (of_job job t.rows);
      err = none;
    }
unfolding export_csv
export_csv-whole fold ended refused wrote broken job page_size t keyed ok =
    let size = if page_size == 0 then 1000 else page_size in
    let (left, cut, done) = export_csv_cut fold ended refused wrote broken job page_size t keyed in
    let fine : (export_csv ended refused wrote broken job page_size t).err ≡ none =
      rw ((ok 0).2, export_csv)
        (export_from-ok ended refused wrote broken job size t (suc (length t.rows)) 0 1 0 ok) in
    let w = export_csv ended refused wrote broken job page_size t in
    let all = sym (append-nil w.records) ∙ ap (λ l. w.records ++ l) (sym (done fine)) ∙ cut in
    ground (arith, all, fine)
