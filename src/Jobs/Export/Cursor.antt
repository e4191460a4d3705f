-- ===== src/Jobs/Export/Cursor.antt =====
-- The cursor of internal/jobs/exporter.go on rows whose ids rise.
use mailclear.Base.{
  ℕ, zero, suc, ◌≤◌, ◌≡◌, refl, sym, subst, inl, inr, ◌&&◌, List, [], ◌∷◌, length, take, drop, ltb,
  if◌then◌else◌, arith, Bool-cases,
}
use mailclear.Text.{Text, text_eq}
use mailclear.Jobs.Results.{Row, select_after, of_job}
use mailclear.Jobs.Results.Keys.{IsRising}
use mailclear.Jobs.Export.{cursor_after}

-- the rows of a job with greater ids
unfoldable pub above : (c : ℕ) → List Row → List Row
above c [] = []
above c (r ∷ rs) = if ltb c r.id then r ∷ above c rs else above c rs

pub above-select_after :
    (job : Text) (a c : ℕ) (rs : List Row)
    → a ≤ c
    → select_after job c rs ≡ above c (select_after job a rs)
unfolding select_after above
above-select_after job a c [] le = refl
above-select_after job a c (r ∷ rs) le = let ih = above-select_after job a c rs le in ground arith

pub IsRising-above_all :
    (lo next c : ℕ) (rs : List Row) → c ≤ lo → IsRising lo next rs → above c rs ≡ rs
unfolding above
IsRising-above_all lo next c [] le h = refl
IsRising-above_all lo next c (r ∷ rs) le h =
    let ih = IsRising-above_all r.id next c rs (omega (arith, h.0)) h.1 in ground (arith, h.0)

pub IsRising-weaken :
    (lo lo' next : ℕ) (rs : List Row) → lo' ≤ lo → IsRising lo next rs → IsRising lo' next rs
IsRising-weaken lo lo' next [] le h = omega arith
IsRising-weaken lo lo' next (r ∷ rs) le h = (omega (arith, h.0), h.1)

pub select_after-IsRising :
    (job : Text) (a lo next : ℕ) (rs : List Row)
    → a ≤ lo
    → IsRising lo next rs
    → IsRising lo next (select_after job a rs)
unfolding select_after
select_after-IsRising job a lo next [] le h = h
select_after-IsRising job a lo next (r ∷ rs) le h =
    let ih = select_after-IsRising job a r.id next rs (omega (arith, h.0)) h.1 in
    let rest = select_after job a rs in
    elim (Bool-cases (text_eq r.item.job_id job && ltb a r.id)) [
      | inl e ↦ subst (λ b. IsRising lo next (if b then r ∷ rest else rest)) (sym e) (h.0, ih)
      | inr e ↦
          subst (λ b. IsRising lo next (if b then r ∷ rest else rest)) (sym e)
            (IsRising-weaken r.id lo next rest (omega (arith, h.0)) ih)
    ]

pub select_after-zero :
    (job : Text) (lo next : ℕ) (rs : List Row)
    → IsRising lo next rs
    → select_after job 0 rs ≡ of_job job rs
unfolding select_after of_job
select_after-zero job lo next [] h = refl
select_after-zero job lo next (r ∷ rs) h =
    let ih = select_after-zero job r.id next rs h.1 in ground (arith, h.0)

pub cursor_after-le : (a : ℕ) (rs : List Row) → a ≤ cursor_after a rs
unfolding cursor_after
cursor_after-le a [] = omega arith
cursor_after-le a (r ∷ rs) =
    let ih = cursor_after-le (if ltb a r.id then r.id else a) rs in ground arith

-- the rows above the cursor after a page are those that the page leaves
pub above-cursor_after :
    (a next n : ℕ) (rs : List Row)
    → IsRising a next rs
    → above (cursor_after a (take n rs)) rs ≡ drop n rs
unfolding above cursor_after
above-cursor_after a next zero rs h = IsRising-above_all a next a rs (omega arith) h
above-cursor_after a next (suc n) [] h = refl
above-cursor_after a next (suc n) (r ∷ rs) h =
    let moved : (if ltb a r.id then r.id else a) ≡ r.id = ground (arith, h.0) in
    let ih = above-cursor_after r.id next n rs h.1 in
    let past = cursor_after-le r.id (take n rs) in
    subst (λ c. above (cursor_after c (take n rs)) (r ∷ rs) ≡ drop n rs) (sym moved) (ground arith)

pub IsRising-drop :
    (a next n : ℕ) (rs : List Row)
    → IsRising a next rs
    → IsRising (cursor_after a (take n rs)) next (drop n rs)
unfolding cursor_after
IsRising-drop a next zero rs h = h
IsRising-drop a next (suc n) [] h = h
IsRising-drop a next (suc n) (r ∷ rs) h =
    let moved : (if ltb a r.id then r.id else a) ≡ r.id = ground (arith, h.0) in
    subst (λ c. IsRising (cursor_after c (take n rs)) next (drop n rs)) (sym moved)
      (IsRising-drop r.id next n rs h.1)

pub length-select_after :
    (job : Text) (a : ℕ) (rs : List Row) → length (select_after job a rs) ≤ length rs
unfolding select_after
length-select_after job a [] = omega arith
length-select_after job a (r ∷ rs) = let ih = length-select_after job a rs in ground arith

-- the rows of a job are what the first page starts from
pub of_job-IsRising :
    (job : Text) (next : ℕ) (rs : List Row) → IsRising 0 next rs → IsRising 0 next (of_job job rs)
of_job-IsRising job next rs rising =
    subst (IsRising 0 next) (select_after-zero job 0 next rs rising)
      (select_after-IsRising job 0 0 next rs (omega arith) rising)
