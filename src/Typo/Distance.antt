-- ===== src/Typo/Distance.antt =====
-- internal/validation/typo/levenshtein.go. Three rows of a table are rotated; a read or a write out
-- of bounds, which panics in Go, stops the model with `none`.
use mailclear.Base.{
  ℕ, ◌+◌, ◌-◌, Bool, ◌&&◌, List, Option, some, ltb, ◌==◌, if◌then◌else◌, length, get_elem?,
  replicate, store, ◌>>=◌, for,
}
use mailclear.Text.{Text}

unfoldable pub min3 : ℕ → ℕ → ℕ → ℕ
min3 a b c = let m = if ltb b a then b else a in if ltb c m then c else m

-- the three buffers: `prev2`, `prev1` and `curr`
pub record Rows : Type 0 where
  pub prev2 : List ℕ
  pub prev1 : List ℕ
  pub curr : List ℕ

module _ (a b : Text) where
  -- `a[i-1] == b[j-2] && a[i-2] == b[j-1]`, for `i` and `j` above 1
  unfoldable pub swapped : ℕ → ℕ → Option Bool
  swapped i j = do
    x ← get_elem? a (i - 1)
    y ← get_elem? b (j - 2)
    x' ← get_elem? a (i - 2)
    y' ← get_elem? b (j - 1)
    some ((x == y) && (x' == y'))

  -- `if t := prev2[j-2] + 1; t < curr[j] { curr[j] = t }`
  unfoldable pub relax : (j : ℕ) (prev2 curr : List ℕ) → Option (List ℕ)
  relax j prev2 curr = do
    old ← get_elem? prev2 (j - 2)
    now ← get_elem? curr j
    if ltb (old + 1) now then store curr j (old + 1) else some curr

  -- the transposition of the last two bytes
  unfoldable pub transpose : (i j : ℕ) (prev2 curr : List ℕ) → Option (List ℕ)
  transpose i j prev2 curr =
      if ltb 1 i && ltb 1 j
      then (swapped i j >>= λ hit. if hit then relax j prev2 curr else some curr)
      else some curr

  -- the body of the inner loop
  unfoldable pub fill_cell :
      (i : ℕ) (prev2 prev1 : List ℕ) (j : ℕ) (curr : List ℕ) → Option (List ℕ)
  fill_cell i prev2 prev1 j curr = do
    x ← get_elem? a (i - 1)
    y ← get_elem? b (j - 1)
    up ← get_elem? prev1 j
    left ← get_elem? curr (j - 1)
    diagonal ← get_elem? prev1 (j - 1)
    let cost = if x == y then 0 else 1
    filled ← store curr j (min3 (up + 1) (left + 1) (diagonal + cost))
    transpose i j prev2 filled

  -- the body of the outer loop, which ends by rotating the buffers
  unfoldable pub next_row : ℕ → Rows → Option Rows
  next_row i r = do
    started ← store r.curr 0 i
    filled ← for (length b) 1 (fill_cell i r.prev2 r.prev1) started
    some (record { prev2 = r.prev1; prev1 = filled; curr = r.prev2 })

  -- both loops, from the row of the empty prefix of `a`
  unfoldable pub fill_table : Option ℕ
  fill_table = do
    let zeros = replicate {A = ℕ} (length b + 1) 0
    first ← for (length b + 1) 0 (λ j row. store row j j) zeros
    last ← for (length a) 1 next_row (record { prev2 = zeros; prev1 = first; curr = zeros })
    get_elem? last.prev1 (length b)

  unfoldable pub damerau_levenshtein : Option ℕ
  damerau_levenshtein =
      if length a == 0
      then some (length b)
      else if length b == 0
      then some (length a)
      else fill_table
