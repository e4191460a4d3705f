-- ===== src/Typo/Rows.antt =====
-- What the rotated rows of `DamerauLevenshtein` hold.
use mailclear.Base.{
  ℕ, zero, suc, ◌+◌, ◌-◌, ◌≤◌, ◌<◌, min, ◌≡◌, refl, ap, ◌∙◌, true, false, ◌&&◌, List, some, arith,
  ltb, length, get_elem?, get_or, set, replicate, store, store_of_lt, length-set, length-replicate,
  get_elem?-eq-get_or, get_or-set_self, get_or-set_ne, for, Gives, gives, Gives-bind, Gives-eq,
  for-Gives, sub-one, Bool-cases, inl, inr,
}
use mailclear.Text.{Text}
use mailclear.Typo.Distance.{
  min3, Rows, swapped, relax, transpose, fill_cell, next_row, fill_table, damerau_levenshtein,
}
use mailclear.Typo.Edits.{cost, crossed, osa, osa-zero}

-- `width` cells, of which the first `upto` hold `f`
record Holds (width : ℕ) (f : ℕ → ℕ) (upto : ℕ) (row : List ℕ) : Type 0 where
  size : length row ≡ width
  cells : (j : ℕ) → j < upto → get_or row j 0 ≡ f j

min3-eq-min : (x y z : ℕ) → min3 x y z ≡ min (min x y) z
unfolding min3
min3-eq-min x y z = ground arith

at_edge : (i : ℕ) → (ltb 1 (suc (suc i)) && false) ≡ false
at_edge i = ground arith

at_inside : (i j : ℕ) → (ltb 1 (suc (suc i)) && ltb 1 (suc (suc j))) ≡ true
at_inside i j = ground arith

module _ {width : ℕ} {f : ℕ → ℕ} where
  Holds-read :
      {row : List ℕ} {k : ℕ}
      → Holds width f k row
      → (j : ℕ) → (j < k) × (j < width)
      → get_elem? row j ≡ some (f j)
  Holds-read {row} h j (seen, inside) =
      get_elem?-eq-get_or row j 0 (omega (arith, h.size)) ∙ ap some (h.cells j seen)

  -- a write at the first cell that is not yet filled
  Holds-set : {row : List ℕ} {k : ℕ} (v : ℕ) → Holds width f k row → Holds width f k (set row k v)
  Holds-set {row} {k} v h = record {
    size = length-set row k v ∙ h.size;
    cells = λ j q. get_or-set_ne row k j v 0 (omega arith) ∙ h.cells j q;
  }

  Holds-suc :
      {row : List ℕ} {k : ℕ}
      → Holds width f k row
      → get_or row k 0 ≡ f k
      → Holds width f (suc k) row
  Holds-suc {row} {k} h e = record { size = h.size; cells = λ j q. ground (arith, h.cells j) }

  store-Holds :
      {row : List ℕ} {k : ℕ} (v : ℕ)
      → Holds width f k row
      → k < width
      → v ≡ f k
      → Gives (Holds width f (suc k)) (store row k v)
  store-Holds {row} {k} v h q e =
      rw (store_of_lt row k v (omega (arith, h.size)))
        (gives (Holds-suc (Holds-set v h) (get_or-set_self row k v 0 (omega (arith, h.size)) ∙ e)))

module _ (a b : Text) where
  abbrev IsRow : ℕ → ℕ → List ℕ → Type 0
  IsRow i = Holds (suc (length b)) (osa a b i)

  -- what `prev2` holds in round `i + 1`: nothing of use in the first round
  abbrev IsOlder : ℕ → List ℕ → Type 0
  IsOlder zero row = length row ≡ suc (length b)
  IsOlder (suc i) row = IsRow i (suc (length b)) row

  abbrev plain : ℕ → ℕ → ℕ
  plain i j = min (min (osa a b i (suc j) + 1) (osa a b (suc i) j + 1)) (osa a b i j + cost a b i j)

  swapped-eq-crossed :
      (i j : ℕ)
      → suc i < length a
      → suc j < length b
      → swapped a b (suc (suc i)) (suc (suc j)) ≡ some (crossed a b i j)
  unfolding swapped
  swapped-eq-crossed i j p q =
      let i₂ : suc (suc i) - 2 ≡ i = omega arith in
      let j₂ : suc (suc j) - 2 ≡ j = omega arith in
      rw
        (
          sub-one,
          j₂,
          i₂,
          get_elem?-eq-get_or a (suc i) 0 p,
          get_elem?-eq-get_or b j 0 (omega arith),
          get_elem?-eq-get_or a i 0 (omega arith),
          sub-one,
          get_elem?-eq-get_or b (suc j) 0 q,
        )
        refl

  relax-IsRow :
      (i j : ℕ) (prev2 row : List ℕ)
      → suc j < length b
      → IsRow i (suc (length b)) prev2
      → IsRow (suc (suc i)) (suc (suc j)) row
      → crossed a b i j ≡ true
      → get_or row (suc (suc j)) 0 ≡ plain (suc i) (suc j)
      → Gives (IsRow (suc (suc i)) (suc (suc (suc j)))) (relax a b (suc (suc j)) prev2 row)
  unfolding relax osa
  relax-IsRow i j prev2 row q older h c e =
      let j₂ : suc (suc j) - 2 ≡ j = omega arith in
      rw
        (
          j₂,
          Holds-read older j (omega arith),
          get_elem?-eq-get_or row (suc (suc j)) 0 (omega (arith, h.size)),
          e,
        )
        (elim (Bool-cases (ltb (osa a b i j + 1) (plain (suc i) (suc j)))) [
          | inl less ↦ rw less (store-Holds (osa a b i j + 1) h (omega arith) (rw c (ground arith)))
          | inr more ↦ rw more (gives (Holds-suc h (e ∙ rw c (ground arith))))
        ])

  transpose-IsRow :
      (i j : ℕ) (prev2 row : List ℕ)
      → i < length a
      → j < length b
      → IsOlder i prev2
      → IsRow (suc i) (suc j) row
      → get_or row (suc j) 0 ≡ plain i j
      → Gives (IsRow (suc i) (suc (suc j))) (transpose a b (suc i) (suc j) prev2 row)
  unfolding transpose osa
  transpose-IsRow zero j prev2 row p q older h e = gives (Holds-suc h e)
  transpose-IsRow (suc i) zero prev2 row p q older h e = rw (at_edge i) (gives (Holds-suc h e))
  transpose-IsRow (suc i) (suc j) prev2 row p q older h e =
      rw (at_inside i j, swapped-eq-crossed i j p q)
        (elim (Bool-cases (crossed a b i j)) [
          | inl c ↦ rw c (relax-IsRow i j prev2 row q older h c e)
          | inr c ↦ rw c (gives (Holds-suc h (e ∙ rw c)))
        ])

  fill_cell-IsRow :
      (i j : ℕ) (prev2 prev1 row : List ℕ)
      → i < length a
      → j < length b
      → IsOlder i prev2
      → IsRow i (suc (length b)) prev1
      → IsRow (suc i) (suc j) row
      → Gives (IsRow (suc i) (suc (suc j))) (fill_cell a b (suc i) prev2 prev1 (suc j) row)
  unfolding fill_cell
  fill_cell-IsRow i j prev2 prev1 row p q older old h =
      rw
        (
          sub-one,
          get_elem?-eq-get_or a i 0 p,
          sub-one,
          get_elem?-eq-get_or b j 0 q,
          Holds-read old (suc j) (omega arith),
          Holds-read h j (omega arith),
          Holds-read old j (omega arith),
          min3-eq-min,
          store_of_lt row (suc j) (plain i j) (omega (arith, h.size)),
        )
        (transpose-IsRow i j prev2 _ p q older (Holds-set (plain i j) h)
          (get_or-set_self row (suc j) (plain i j) 0 (omega (arith, h.size))))

  -- before round `k + 1`, with `prev1` the row `k`
  record Ready (k : ℕ) (r : Rows) : Type 0 where
    older : IsOlder k r.prev2
    old : IsRow k (suc (length b)) r.prev1
    scratch : length r.curr ≡ suc (length b)

  abbrev IsReady : ℕ → Rows → Type 0
  IsReady zero r = ⊥
  IsReady (suc k) r = Ready k r

  IsOlder-size : (i : ℕ) (row : List ℕ) → IsOlder i row → length row ≡ suc (length b)
  IsOlder-size zero row h = h
  IsOlder-size (suc i) row h = h.size

  fill_loop-IsRow :
      (i : ℕ) (prev2 prev1 row : List ℕ)
      → i < length a
      → IsOlder i prev2
      → IsRow i (suc (length b)) prev1
      → IsRow (suc i) 1 row
      → Gives
          (IsRow (suc i) (suc (length b)))
          (for (length b) 1 (fill_cell a b (suc i) prev2 prev1) row)
  fill_loop-IsRow i prev2 prev1 row p older old h =
      for-Gives (IsRow (suc i)) (suc (length b)) _ (length b) 1 row (omega arith) cell h
    where
      cell :
          (k : ℕ) (t : List ℕ)
          → 1 ≤ k
          → k < suc (length b)
          → IsRow (suc i) k t
          → Gives (IsRow (suc i) (suc k)) (fill_cell a b (suc i) prev2 prev1 k t)
      cell zero t lo hi g = absurd (omega arith)
      cell (suc j) t lo hi g = fill_cell-IsRow i j prev2 prev1 t p (omega arith) older old g

  next_row-IsReady :
      (k : ℕ) (r : Rows)
      → 1 ≤ k
      → k < suc (length a)
      → IsReady k r
      → Gives (IsReady (suc k)) (next_row a b k r)
  unfolding next_row osa
  next_row-IsReady zero r lo hi h = absurd (omega arith)
  next_row-IsReady (suc i) r lo hi h =
      Gives-bind
        (store-Holds {f = osa a b (suc i)} {row = r.curr} {k = 0} (suc i)
          (record { size = h.scratch; cells = λ j q. absurd (omega arith) }) (omega arith) refl)
        λ started s.
          Gives-bind (fill_loop-IsRow i r.prev2 r.prev1 started (omega arith) h.older h.old s)
            λ filled g.
              gives (record { older = h.old; old = g; scratch = IsOlder-size i r.prev2 h.older })

  zeros_size : length (replicate {A = ℕ} (length b + 1) 0) ≡ suc (length b)
  zeros_size = length-replicate (length b + 1) 0 ∙ omega arith

  fill_table-eq-osa : fill_table a b ≡ some (osa a b (length a) (length b))
  unfolding fill_table osa
  fill_table-eq-osa = Gives-eq (
      Gives-bind
        (for-Gives (IsRow 0) (suc (length b)) _ _ 0 _ (omega arith)
          (λ k t lo hi h. store-Holds k h hi refl)
          (record { size = zeros_size; cells = λ j q. absurd (omega arith) }))
        λ first h.
          Gives-bind
            (for-Gives IsReady (suc (length a)) _ (length a) 1 _ (omega arith) next_row-IsReady
              (record { older = zeros_size; old = h; scratch = zeros_size }))
            λ last g. rw (Holds-read g.old (length b) (omega arith)) (gives refl))

  osa_left : (j : ℕ) → osa a b 0 j ≡ j
  unfolding osa
  osa_left j = refl

  -- `DamerauLevenshtein` returns the recursive distance of the whole texts, and no read or write of
  -- its three rows or of the texts is out of bounds.
  pub damerau_levenshtein-eq-osa : damerau_levenshtein a b ≡ some (osa a b (length a) (length b))
  unfolding damerau_levenshtein
  damerau_levenshtein-eq-osa =
      ground (arith, fill_table-eq-osa, osa_left (length b), osa-zero a b (length a))
