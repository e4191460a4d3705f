-- ===== src/Server/Http/Numbers.antt =====
-- `parseIntDefault` of internal/server/handlers/jobs.go on the numbers that the API prints.
use mailclear.Base.{
  ℕ, zero, suc, ◌+◌, ◌-◌, ◌*◌, ◌/◌, ◌%◌, ◌^◌, ◌≤◌, ◌<◌, ◌≡◌, sym, ap, ◌∙◌, ◌⊎◌, inl, inr, false,
  List, [], ◌∷◌, ◌++◌, some, ltb, Bool-cases, arith,
}
use mailclear.Base.Int.{pos}
use mailclear.Text.{Text, decimal, digits, is_empty}
use mailclear.Server.Http.{parse_digits, signed, atoi, parse_int_default}

-- one more digit
parse_digits-snoc :
    (acc n : ℕ) (s : Text) (d : ℕ)
    → d < 10
    → parse_digits acc s ≡ some n
    → parse_digits acc (s ++ ((48 + d) ∷ [])) ≡ some (n * 10 + d)
unfolding parse_digits
parse_digits-snoc acc n [] d small h = ground arith
parse_digits-snoc acc n (c ∷ s) d small h =
    let ih = parse_digits-snoc (acc * 10 + (c - 48)) n s d small in ground arith

one_digit : (n : ℕ) → n < 10 → parse_digits 0 ((48 + n) ∷ []) ≡ some n
unfolding parse_digits
one_digit n h = ground arith

-- digits that start with a digit and have a value
IsNumeral : ℕ → Text → Type 0
IsNumeral n s = (c : ℕ) × (rest : Text) × (s ≡ c ∷ rest) × (48 ≤ c) × (parse_digits 0 s ≡ some n)

digits_one : (fuel n : ℕ) → n < 10 → digits (suc fuel) n ≡ (48 + n) ∷ []
unfolding digits
digits_one fuel n h = ground arith

digits_more :
    (fuel n : ℕ) → 10 ≤ n → digits (suc fuel) n ≡ digits fuel (n / 10) ++ ((48 + n % 10) ∷ [])
unfolding digits
digits_more fuel n h = ground arith

digits-IsNumeral : (fuel n : ℕ) → n < fuel → IsNumeral n (digits fuel n)
unfolding IsNumeral
digits-IsNumeral zero n enough = absurd (omega arith)
digits-IsNumeral (suc fuel) n enough = elim (Bool-cases (ltb n 10)) [
  | inl e ↦ (
    48 + n,
    [],
    digits_one fuel n (ground arith),
    omega arith,
    ap (parse_digits 0) (digits_one fuel n (ground arith)) ∙ one_digit n (ground arith),
  )
  | inr e ↦
      let (c, rest, shape, low, value) = digits-IsNumeral fuel (n / 10) (ground arith) in
      let last : List ℕ = (48 + n % 10) ∷ [] in
      let more = digits_more fuel n (ground arith) in
      (
        c,
        rest ++ last,
        more ∙ ap (λ l. l ++ last) shape,
        low,
        ap (parse_digits 0) more
            ∙ parse_digits-snoc 0 (n / 10) (digits fuel (n / 10)) (n % 10) (omega arith) value
            ∙ ap some (omega arith),
      )
]

signed-pos : (s : Text) (n : ℕ) → IsNumeral n s → n < 2 ^ 63 → signed false s ≡ some (pos n)
unfolding signed IsNumeral
signed-pos [] n (c, rest, shape, low, value) small = absurd (ground arith)
signed-pos (c' ∷ s) n (c, rest, shape, low, value) small = ground arith

atoi-decimal : (n : ℕ) → n < 2 ^ 63 → atoi (decimal n) ≡ some (pos n)
unfolding atoi decimal IsNumeral
atoi-decimal n small =
    let numeral = digits-IsNumeral (suc n) n (omega arith) in
    let (c, rest, shape, low, value) = numeral in
    let plain : atoi (c ∷ rest) ≡ signed false (c ∷ rest) = ground arith in
    ap atoi shape
    ∙ plain
    ∙ ap (signed false) (sym shape)
    ∙ signed-pos (digits (suc n) n) n numeral small

is_empty-decimal : (n : ℕ) → is_empty (decimal n) ≡ false
unfolding decimal IsNumeral
is_empty-decimal n =
    let (c, rest, shape, low, value) = digits-IsNumeral (suc n) n (omega arith) in ap is_empty shape

-- The number that the API printed is read back from a query as it was, unless it exceeds the greatest
-- that the handler takes.
pub parse_int_default-decimal :
    (n default max : ℕ)
    → n < 2 ^ 63
    → (max ≡ 0) ⊎ (n ≤ max)
    → parse_int_default (decimal n) default max ≡ n
unfolding parse_int_default IsNumeral
parse_int_default-decimal n default max small fits =
    let read = atoi-decimal n small in let filled = is_empty-decimal n in ground arith

-- What a handler takes from a query never exceeds its greatest value, whatever the text.
pub parse_int_default_le :
    (s : Text) (default max : ℕ) → 0 < max → default ≤ max → parse_int_default s default max ≤ max
unfolding parse_int_default
parse_int_default_le s default max some_max le = ground arith
