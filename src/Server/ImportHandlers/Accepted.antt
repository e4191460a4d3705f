-- ===== src/Server/ImportHandlers/Accepted.antt =====
-- What an upload that internal/server/handlers/import.go accepts turns into.
use mailclear.Base.{
  ℕ, ◌≤◌, ◌≡◌, ◌≢◌, refl, sym, ap, subst, ◌∙◌, ◌⊎◌, inl, inr, Bool, true, false, List, [], Option,
  none, some, length, All, Bool-cases, Option-cases, arith,
}
use mailclear.Text.{Text, Unicode}
use mailclear.Workers.Pool.{Pool, usage_at_least}
use mailclear.Importer.Batcher.Batches.{concat, IsSized}
use mailclear.Importer.Reader.{Read}
use mailclear.Jobs.Repo.{Job, create, running}
use mailclear.Jobs.Submit.{Submitted, submit}
use mailclear.Jobs.Submit.Chunks.{submit_ok, submit_refused}
use mailclear.Server.Http.{refuse, answer}
use mailclear.Server.ImportHandlers.{
  Upload, file, bad_form, no_file, collect, read_emails, Backend, submit_emails, import_csv,
}
use mailclear.Server.ImportHandlers.Deduped.{IsDeduped, collect-IsDeduped}

module _ (u : Unicode) where
  submit_emails_ok :
      (b : Backend) (emails : List Text) (n : ℕ)
      → (submit_emails b emails).0 ≡ answer 202 n
      → let s = submit b.now b.size b.status_err b.pool emails (create b.now (length emails)) in
        (n ≡ length emails) × ((submit_emails b emails).1 ≡ some s) × (s.err ≡ none)
  unfolding submit_emails
  submit_emails_ok b emails n ok = elim (Option-cases b.create_err) [
    | inr (x, h) ↦ absurd (ground arith)
    | inl h ↦
        let s = submit b.now b.size b.status_err b.pool emails (create b.now (length emails)) in
        elim (Option-cases s.err) [ inr (x, h') ↦ absurd (ground arith) | inl h' ↦ ground arith ]
  ]

  import_csv_ok :
      (p : Pool) (b : Backend) (cancelled : ℕ → Bool) (rows : List Read) (n : ℕ)
      → (import_csv u p b cancelled (file rows)).0 ≡ answer 202 n
      → import_csv u p b cancelled (file rows)
        ≡ submit_emails b (collect u [] (read_emails u cancelled rows))
  unfolding import_csv
  import_csv_ok p b cancelled rows n ok = ground arith

  -- what is submitted for an upload: the emails without repetition, in a job that runs and is watched
  pub record IsImported (size : ℕ) (all : List Text) (n : ℕ) (s : Submitted) : Type 0 where
    pub deduped : IsDeduped u all (concat s.tasks)
    pub sized : All (IsSized size) s.tasks
    pub total : n ≡ length (concat s.tasks)
    pub status : s.job.status ≡ running
    pub waiting : s.waiting ≡ true

  -- If an upload is accepted, its job runs and is watched. An email's key is its text, trimmed and in
  -- lower case: the tasks together have, of the emails read from the file, one for each key that is not
  -- blank and no two of one key; no task is empty or longer than the batch size, and the total of the
  -- reply is the number of the emails.
  pub import_csv-IsImported :
      (p : Pool) (b : Backend) (cancelled : ℕ → Bool) (rows : List Read) (n : ℕ)
      → 1 ≤ b.size
      → (import_csv u p b cancelled (file rows)).0 ≡ answer 202 n
      → (s : Submitted) × ((import_csv u p b cancelled (file rows)).1 ≡ some s)
        × IsImported b.size (read_emails u cancelled rows) n s
  import_csv-IsImported p b cancelled rows n some_size ok =
      let all = read_emails u cancelled rows in
      let kept = collect u [] all in
      let there = import_csv_ok p b cancelled rows n ok in
      let (total, made, fine) = submit_emails_ok b kept n (ap (λ r. r.0) (sym there) ∙ ok) in
      let j = create b.now (length kept) in
      let (same, sized, waiting, status) =
        submit_ok b.now b.size b.status_err b.pool kept j some_size fine in
      (
        submit b.now b.size b.status_err b.pool kept j,
        ap (λ r. r.1) there ∙ made,
        record {
          deduped = subst (IsDeduped u all) (sym same) (collect-IsDeduped u all);
          sized = sized;
          total = total ∙ ap length (sym same);
          status = status;
          waiting = waiting;
        },
      )

  submit-unwatched :
      (now size : ℕ) (status_err : Option Text) (pool : ℕ → Option Text) (emails : List Text)
      (j : Job)
      → (submit now size status_err pool emails j).err ≢ none
      → (submit now size status_err pool emails j).waiting ≡ false
  unfolding submit
  submit-unwatched now size (some e) pool emails j bad = refl
  submit-unwatched now size none pool emails j bad = (submit_refused now size pool emails j bad).1

  -- nothing was submitted, or the job is not watched
  abbrev pub IsUnwatched : Option Submitted → Type 0
  IsUnwatched made = (made ≡ none) ⊎ ((s : Submitted) × (made ≡ some s) × (s.waiting ≡ false))

  submit_emails_refused :
      (b : Backend) (emails : List Text) (status : ℕ) (code : Text)
      → (submit_emails b emails).0 ≡ refuse status code
      → IsUnwatched (submit_emails b emails).1
  unfolding submit_emails
  submit_emails_refused b emails status code h = elim (Option-cases b.create_err) [
    | inr (x, e) ↦ inl (ground arith)
    | inl e ↦
        let j = create b.now (length emails) in
        let s = submit b.now b.size b.status_err b.pool emails j in
        elim (Option-cases s.err) [
          | inl fine ↦ absurd (ground arith)
          | inr (x, bad) ↦ inr (
            s,
            ground arith,
            submit-unwatched b.now b.size b.status_err b.pool emails j
                (λ fine. absurd (ground arith)),
          )
        ]
  ]

  -- A refused upload has submitted nothing, or nobody waits for the end of the job that it created.
  pub import_csv_refused :
      (p : Pool) (b : Backend) (cancelled : ℕ → Bool) (upload : Upload) (status : ℕ) (code : Text)
      → (import_csv u p b cancelled upload).0 ≡ refuse status code
      → IsUnwatched (import_csv u p b cancelled upload).1
  unfolding import_csv
  import_csv_refused p b cancelled bad_form status code h = inl (ground arith)
  import_csv_refused p b cancelled no_file status code h = inl (ground arith)
  import_csv_refused p b cancelled (file rows) status code h =
      elim (Bool-cases (usage_at_least 9 10 p)) [
        | inl full ↦ inl (ground arith)
        | inr free ↦
            let there : import_csv u p b cancelled (file rows)
                ≡ submit_emails b (collect u [] (read_emails u cancelled rows)) =
              ground arith in
            subst (λ r. IsUnwatched r.1) (sym there)
              (submit_emails_refused b (collect u [] (read_emails u cancelled rows)) status code
                (ap (λ r. r.0) (sym there) ∙ h))
      ]
