-- ===== src/Server/JobHandlers/Cursor.antt =====
-- Walking through the results of internal/server/handlers/jobs.go by `next_cursor`.
use mailclear.Base.{
  ℕ, zero, suc, ◌+◌, ◌≤◌, ◌<◌, ◌^◌, ◌≡◌, ◌≢◌, refl, sym, ap, subst, ◌∙◌, ◌⊎◌, inl, inr, Bool-cases,
  Option-cases, true, false, ◌&&◌, ltb, if◌then◌else◌, List, [], ◌∷◌, Option, none, some, take,
  drop, arith,
}
use mailclear.Text.{Text, decimal, text_eq, is_empty}
use mailclear.Validation.Types.{Status, same_status}
use mailclear.Jobs.Results.{Row, Emails, select_after, with_status, list_by_job, status_named}
use mailclear.Jobs.Results.Keys.{IsRising, IsKeyed}
use mailclear.Jobs.Export.{cursor_after}
use mailclear.Jobs.Export.Cursor.{
  select_after-IsRising, IsRising-weaken, above, above-select_after, cursor_after-le,
  above-cursor_after,
}
use mailclear.Server.Http.{answer, parse_int_default}
use mailclear.Server.Http.Numbers.{parse_int_default-decimal}
use mailclear.Server.JobHandlers.{last_id, results}

IsRising-raise : (lo n m : ℕ) (rs : List Row) → n ≤ m → IsRising lo n rs → IsRising lo m rs
IsRising-raise lo n m [] le h = omega arith
IsRising-raise lo n m (r ∷ rs) le h = (h.0, IsRising-raise r.id n m rs le h.1)

-- the rows that are selected rise from the cursor, wherever it stands
select_after-IsRising_from :
    (job : Text) (a lo next : ℕ) (rs : List Row)
    → IsRising lo next rs
    → IsRising a (next + a + 1) (select_after job a rs)
unfolding select_after
select_after-IsRising_from job a lo next [] h = omega arith
select_after-IsRising_from job a lo next (r ∷ rs) h =
    let rest = select_after job a rs in
    elim (Bool-cases (text_eq r.item.job_id job && ltb a r.id)) [
      | inl e ↦
          let past : a < r.id = ground arith in
          subst (λ b. IsRising a (next + a + 1) (if b then r ∷ rest else rest)) (sym e)
            (
              past,
              IsRising-raise r.id next (next + a + 1) rest (omega arith)
                  (select_after-IsRising job a r.id next rs (omega arith) h.1),
            )
      | inr e ↦
          subst (λ b. IsRising a (next + a + 1) (if b then r ∷ rest else rest)) (sym e)
            (select_after-IsRising_from job a r.id next rs h.1)
    ]

with_status-IsRising :
    (s : Status) (lo next : ℕ) (rs : List Row)
    → IsRising lo next rs
    → IsRising lo next (with_status s rs)
unfolding with_status
with_status-IsRising s lo next [] h = h
with_status-IsRising s lo next (r ∷ rs) h =
    let rest = with_status s rs in
    let ih = with_status-IsRising s r.id next rs h.1 in
    elim (Bool-cases (same_status r.item.result.status s)) [
      | inl e ↦ subst (λ b. IsRising lo next (if b then r ∷ rest else rest)) (sym e) (h.0, ih)
      | inr e ↦
          subst (λ b. IsRising lo next (if b then r ∷ rest else rest)) (sym e)
            (IsRising-weaken r.id lo next rest (omega (arith, h.0)) ih)
    ]

above-with_status :
    (s : Status) (c : ℕ) (rs : List Row) → with_status s (above c rs) ≡ above c (with_status s rs)
unfolding above with_status
above-with_status s c [] = refl
above-with_status s c (r ∷ rs) = let ih = above-with_status s c rs in ground arith

cursor_after-last :
    (a next : ℕ) (rs : List Row) → rs ≢ [] → IsRising a next rs → cursor_after a rs ≡ last_id rs
unfolding cursor_after last_id
cursor_after-last a next [] some_row h = absurd (some_row refl)
cursor_after-last a next (r ∷ []) some_row h = ground (arith, h.0)
cursor_after-last a next (r ∷ s ∷ rs) some_row h =
    let moved : (if ltb a r.id then r.id else a) ≡ r.id = ground (arith, h.0) in
    ap (λ c. cursor_after c (s ∷ rs)) moved
    ∙ cursor_after-last r.id next (s ∷ rs) (λ e. absurd (ground arith)) h.1

IsRising-lt : (lo next : ℕ) (rs : List Row) → IsRising lo next rs → lo < next
IsRising-lt lo next [] h = h
IsRising-lt lo next (r ∷ rs) h = omega (arith, h.0, IsRising-lt r.id next rs h.1)

IsRising-take : (lo next n : ℕ) (rs : List Row) → IsRising lo next rs → IsRising lo next (take n rs)
IsRising-take lo next zero rs h = IsRising-lt lo next rs h
IsRising-take lo next (suc n) [] h = h
IsRising-take lo next (suc n) (r ∷ rs) h = (h.0, IsRising-take r.id next n rs h.1)

-- the rows of the status that the query names
unfoldable pub matching : (status : Text) → List Row → Option (List Row)
matching status rs =
    if is_empty status
    then some rs
    else elim (status_named status) [ none ↦ none | some s ↦ some (with_status s rs) ]

list_by_job-matching :
    (job status : Text) (a limit : ℕ) (t : Emails) (rs : List Row)
    → matching status (select_after job a t.rows) ≡ some rs
    → list_by_job job status a limit t ≡ some (take limit rs)
unfolding list_by_job matching
list_by_job-matching job status a limit t rs h = ground arith

-- a name that is empty, or that of a status
matching-cases :
    (status : Text) (rs ms : List Row)
    → matching status rs ≡ some ms
    → ((is_empty status ≡ true) × (ms ≡ rs))
      ⊎ ((is_empty status ≡ false)
          × ((s : Status) × (status_named status ≡ some s) × (ms ≡ with_status s rs)))
unfolding matching
matching-cases status rs ms e = elim (Bool-cases (is_empty status)) [
  | inl blank ↦ inl (blank, ground arith)
  | inr filled ↦ elim (Option-cases (status_named status)) [
    | inl unnamed ↦ absurd (ground arith)
    | inr (s, name) ↦ inr (filled, (s, name, ground arith))
  ]
]

matching-IsRising :
    (status : Text) (lo next : ℕ) (rs ms : List Row)
    → matching status rs ≡ some ms
    → IsRising lo next rs
    → IsRising lo next ms
matching-IsRising status lo next rs ms e h = elim (matching-cases status rs ms e) [
  | inl (blank, same) ↦ subst (IsRising lo next) (sym same) h
  | inr (filled, (s, name, same)) ↦
      subst (IsRising lo next) (sym same) (with_status-IsRising s lo next rs h)
]

matching-above :
    (status : Text) (c : ℕ) (rs ms : List Row)
    → matching status rs ≡ some ms
    → matching status (above c rs) ≡ some (above c ms)
unfolding matching
matching-above status c rs ms e = elim (matching-cases status rs ms e) [
  | inl (blank, same) ↦ ground arith
  | inr (filled, (s, name, same)) ↦ let under = above-with_status s c rs in ground arith
]

module _ (parse_id : Text → Option Text) where
  results-answer :
      (id status after limit job : Text) (t : Emails) (rs : List Row)
      → parse_id id ≡ some job
      → matching status (select_after job (parse_int_default after 0 0) t.rows) ≡ some rs
      → let l = parse_int_default limit 100 1000 in
        results parse_id none id status after limit t
        ≡ answer 200 (record { results = take l rs; limit = l; next_cursor = last_id (take l rs) })
  unfolding results
  results-answer id status after limit job t rs found e =
      let listed =
        list_by_job-matching job status (parse_int_default after 0 0)
          (parse_int_default limit 100 1000) t rs e in
      ground arith

  -- If the rows of a job from some cursor on, with the status that the query names, are `rs` and the page
  -- shows some of them, the reply has the first of `rs` up to the limit, and the same query with the
  -- printed `next_cursor` has the following ones: no row is shown twice and none is left out.
  pub results-next :
      (fold : Text → Text) (id status after limit job : Text) (t : Emails) (rs : List Row)
      → IsKeyed fold t
      → parse_id id ≡ some job
      → matching status (select_after job (parse_int_default after 0 0) t.rows) ≡ some rs
      → let l = parse_int_default limit 100 1000 in
        take l rs ≢ []
        → last_id (take l rs) < 2 ^ 63
        → let next = last_id (take l rs) in
          (results parse_id none id status after limit t
            ≡ answer 200 (record { results = take l rs; limit = l; next_cursor = next }))
          × (results parse_id none id status (decimal next) limit t
              ≡ answer 200 (record {
                results = take l (drop l rs);
                limit = l;
                next_cursor = last_id (take l (drop l rs));
              }))
  results-next fold id status after limit job t rs keyed found e shown small =
      let l = parse_int_default limit 100 1000 in
      let a = parse_int_default after 0 0 in
      let sel = select_after job a t.rows in
      let next = last_id (take l rs) in
      let rising =
        matching-IsRising status a (t.next_id + a + 1) sel rs e
          (select_after-IsRising_from job a 0 t.next_id t.rows keyed.rising) in
      let at : cursor_after a (take l rs) ≡ next =
        cursor_after-last a (t.next_id + a + 1) (take l rs) shown
          (IsRising-take a (t.next_id + a + 1) l rs rising) in
      let left = above-cursor_after a (t.next_id + a + 1) l rs rising in
      let again : matching status (select_after job next t.rows) ≡ some (drop l rs) =
        ap (matching status) (
          above-select_after job a next t.rows
            (subst (λ n. a ≤ n) at (cursor_after-le a (take l rs))))
        ∙ matching-above status next sel rs e
        ∙ ap some (ap (λ c. above c rs) (sym at) ∙ left) in
      (
        results-answer id status after limit job t rs found e,
        results-answer id status (decimal next) limit job t (drop l rs) found (
            subst (λ n. matching status (select_after job n t.rows) ≡ some (drop l rs))
              (sym (parse_int_default-decimal next 0 0 small (inl refl))) again),
      )
