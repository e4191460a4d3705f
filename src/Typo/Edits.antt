-- ===== src/Typo/Edits.antt =====
-- A specification of the distance that knows nothing of tables: the fewest edits that turn a prefix
-- of one text into a prefix of another. Two adjacent bytes may be swapped, and are not edited again.
use mailclear.Base.{
  ℕ, zero, suc, ◌+◌, ◌≤◌, ◌≡◌, refl, Bool, true, ◌&&◌, arith, ◌==◌, if◌then◌else◌, get_or, min, ◌-◌,
  Bool-cases, inl, inr, add-one, ==_iff, subst, sym,
}
use native.Mathlib.Decide.{dec_le}
use mailclear.Text.{Text}

module _ (a b : Text) where
  -- the default of `get_or` is never read by `osa (length a) (length b)`
  abbrev pub cost : ℕ → ℕ → ℕ
  cost i j = if get_or a i 0 == get_or b j 0 then 0 else 1

  -- the bytes `i`, `i + 1` of `a` are the bytes `j + 1`, `j` of `b`
  abbrev pub crossed : ℕ → ℕ → Bool
  crossed i j = (get_or a (suc i) 0 == get_or b j 0) && (get_or a i 0 == get_or b (suc j) 0)

  -- `Edits i j n`: `n` edits turn the first `i` bytes of `a` into the first `j` bytes of `b`
  pub data Edits : ℕ → ℕ → ℕ → Type 0 where
    start : Edits 0 0 0
    delete : {i j n : ℕ} → Edits i j n → Edits (suc i) j (suc n)
    insert : {i j n : ℕ} → Edits i j n → Edits i (suc j) (suc n)
    keep : {i j n : ℕ} → get_or a i 0 ≡ get_or b j 0 → Edits i j n → Edits (suc i) (suc j) n
    replace : {i j n : ℕ} → Edits i j n → Edits (suc i) (suc j) (suc n)
    swap :
        {i j n : ℕ} → crossed i j ≡ true → Edits i j n → Edits (suc (suc i)) (suc (suc j)) (suc n)

  -- the recursive distance
  unfoldable pub osa : ℕ → ℕ → ℕ
  osa zero j = j
  osa (suc i) zero = suc i
  osa (suc zero) (suc j) =
      min (min (osa zero (suc j) + 1) (osa (suc zero) j + 1)) (osa zero j + cost zero j)
  osa (suc (suc i)) (suc zero) =
      min (min (osa (suc i) 1 + 1) (osa (suc (suc i)) zero + 1))
        (osa (suc i) zero + cost (suc i) zero)
  osa (suc (suc i)) (suc (suc j)) =
      let plain =
        min (min (osa (suc i) (suc (suc j)) + 1) (osa (suc (suc i)) (suc j) + 1))
          (osa (suc i) (suc j) + cost (suc i) (suc j)) in
      if crossed i j then min plain (osa i j + 1) else plain

  pub osa-zero : (i : ℕ) → osa i 0 ≡ i
  unfolding osa
  osa-zero zero = refl
  osa-zero (suc i) = refl

  osa-step :
      (i j : ℕ)
      → (osa (suc i) (suc j) ≤ osa i (suc j) + 1)
        × (osa (suc i) (suc j) ≤ osa (suc i) j + 1)
        × (osa (suc i) (suc j) ≤ osa i j + cost i j)
  unfolding osa
  osa-step zero j = omega arith
  osa-step (suc i) zero = omega arith
  osa-step (suc i) (suc j) = ground arith

  osa-delete : (i j : ℕ) → osa (suc i) j ≤ osa i j + 1
  osa-delete i zero = omega (arith, osa-zero i, osa-zero (suc i))
  osa-delete i (suc j) = (osa-step i j).0

  osa-insert : (i j : ℕ) → osa i (suc j) ≤ osa i j + 1
  unfolding osa
  osa-insert zero j = omega arith
  osa-insert (suc i) j = (osa-step i j).1

  osa-swap : (i j : ℕ) → crossed i j ≡ true → osa (suc (suc i)) (suc (suc j)) ≤ osa i j + 1
  unfolding osa
  osa-swap i j h = rw h (omega arith)

  -- No list of edits is shorter than the recursive distance.
  pub osa-le_of_Edits : {i j n : ℕ} → Edits i j n → osa i j ≤ n
  unfolding osa
  osa-le_of_Edits start = omega arith
  osa-le_of_Edits (delete {i} {j} s) = omega (arith, osa-delete i j, osa-le_of_Edits s)
  osa-le_of_Edits (insert {i} {j} s) = omega (arith, osa-insert i j, osa-le_of_Edits s)
  osa-le_of_Edits (keep {i} {j} e s) = ground (arith, osa-step i j, osa-le_of_Edits s)
  osa-le_of_Edits (replace {i} {j} s) = ground (arith, osa-step i j, osa-le_of_Edits s)
  osa-le_of_Edits (swap {i} {j} c s) = omega (arith, osa-swap i j c, osa-le_of_Edits s)

  Edits-min : {i j m n : ℕ} → Edits i j m → Edits i j n → Edits i j (min m n)
  Edits-min {i} {j} {m} {n} s t = elim (dec_le m n) [
    | yes h ↦ subst (Edits i j) (omega arith) s
    | no h ↦ subst (Edits i j) (omega arith) t
  ]

  delete_one : {i j n : ℕ} → Edits i j n → Edits (suc i) j (n + 1)
  delete_one s = rw add-one (delete s)

  insert_one : {i j n : ℕ} → Edits i j n → Edits i (suc j) (n + 1)
  insert_one s = rw add-one (insert s)

  replace_at : {i j n : ℕ} → Edits i j n → Edits (suc i) (suc j) (n + cost i j)
  replace_at {i} {j} {n} s = elim (Bool-cases (get_or a i 0 == get_or b j 0)) [
    | inl e ↦ subst (Edits (suc i) (suc j)) (ground arith) (keep ((==_iff _ _).0 e) s)
    | inr e ↦ subst (Edits (suc i) (suc j)) (ground arith) (replace s)
  ]

  -- Some list of edits is as short as the recursive distance.
  pub Edits-osa : (i j : ℕ) → Edits i j (osa i j)
  unfolding osa
  Edits-osa zero zero = start
  Edits-osa zero (suc j) = insert (Edits-osa zero j)
  Edits-osa (suc zero) zero = delete start
  Edits-osa (suc (suc i)) zero =
      subst (Edits (suc (suc i)) zero) (omega (arith, osa-zero (suc i)))
        (delete (Edits-osa (suc i) zero))
  Edits-osa (suc zero) (suc j) =
      Edits-min
        (Edits-min (delete_one (Edits-osa zero (suc j))) (insert_one (Edits-osa (suc zero) j)))
        (replace_at (Edits-osa zero j))
  Edits-osa (suc (suc i)) (suc zero) =
      Edits-min
        (Edits-min (delete_one (Edits-osa (suc i) 1)) (insert_one (Edits-osa (suc (suc i)) zero)))
        (replace_at (Edits-osa (suc i) zero))
  Edits-osa (suc (suc i)) (suc (suc j)) =
      let plain =
        Edits-min
          (Edits-min (delete_one (Edits-osa (suc i) (suc (suc j))))
            (insert_one (Edits-osa (suc (suc i)) (suc j))))
          (replace_at (Edits-osa (suc i) (suc j))) in
      elim (Bool-cases (crossed i j)) [
        | inl c ↦ rw c (Edits-min plain (rw add-one (swap c (Edits-osa i j))))
        | inr c ↦ rw c plain
      ]

  Edits_bounds : {i j n : ℕ} → Edits i j n → (i - j ≤ n) × (j - i ≤ n)
  Edits_bounds start = omega arith
  Edits_bounds (delete s) = omega (arith, Edits_bounds s)
  Edits_bounds (insert s) = omega (arith, Edits_bounds s)
  Edits_bounds (keep e s) = omega (arith, Edits_bounds s)
  Edits_bounds (replace s) = omega (arith, Edits_bounds s)
  Edits_bounds (swap c s) = omega (arith, Edits_bounds s)

  -- The distance is at least the difference of the lengths.
  pub osa_bounds : (i j : ℕ) → (i - j ≤ osa i j) × (j - i ≤ osa i j)
  osa_bounds i j = Edits_bounds (Edits-osa i j)

crossed_comm : (a b : Text) (i j : ℕ) → crossed a b i j ≡ true → crossed b a j i ≡ true
crossed_comm a b i j h = ground arith

-- The same edits, read backwards, turn the second text into the first.
pub Edits-flip : (a b : Text) {i j n : ℕ} → Edits a b i j n → Edits b a j i n
Edits-flip a b start = start
Edits-flip a b (delete s) = insert (Edits-flip a b s)
Edits-flip a b (insert s) = delete (Edits-flip a b s)
Edits-flip a b (keep e s) = keep (sym e) (Edits-flip a b s)
Edits-flip a b (replace s) = replace (Edits-flip a b s)
Edits-flip a b (swap {i} {j} c s) = swap (crossed_comm a b i j c) (Edits-flip a b s)

pub osa_comm : (a b : Text) (i j : ℕ) → osa a b i j ≡ osa b a j i
osa_comm a b i j = omega (
  arith,
  osa-le_of_Edits a b (Edits-flip b a (Edits-osa b a j i)),
  osa-le_of_Edits b a (Edits-flip a b (Edits-osa a b i j)),
)
